-- ===== src/Detection.antt =====
-- The detection rules: aegis_nexus/detection_config.py, aegis_nexus/detection.py and
-- aegis_nexus/detection_backtest.py.
pub mod Config
pub mod Limits
pub mod Public
pub mod Events
pub mod Windows
pub mod Rules
pub mod Context
pub mod Engine
pub mod Findings
pub mod Answers
pub mod Backtest
pub mod Tally
pub mod Replayed
mod Tests
