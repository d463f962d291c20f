-- ===== src/Lib.antt =====
-- AEGIS-NEXUS: the parts of the honeypot collector whose correctness the operators rely on.
--
-- The collector (src/aegis_nexus) takes signed events from its sensors, limits their rate, normalizes
-- and stores them, chains every stored row to the one before it, accounts for lost deliveries, runs the
-- detection rules and keeps alerts and cases. State is in SQLite; a transaction is one function from
-- tables to tables, and a table is a list of rows in the order of insertion. A SQL NULL or a Python
-- None is `none`; an exception that ends a transaction is `none` too, or an error value.
--
-- - Common: names from the libraries, Boolean tests, lists, dictionaries, ORDER BY, tables, JSON values,
--   texts and Python's own functions (the record Python).
-- - Limiter: SlidingWindowLimiter of src/aegis_nexus/security.py. `allow` is cut into `enter`, `swept`,
--   `cleanup`, `admit` and `grant`. Limiter.Buckets, Limiter.Bounds and Limiter.Step follow one call;
--   Limiter.Rate and Limiter.Runs compare runs with the log of accepted requests.
-- - Admission: signatures of src/aegis_nexus/security.py, the nonces of src/aegis_nexus/store.py and the
--   authorization of sensors in src/aegis_nexus/app.py. Library holds what they call of hmac, re and
--   ipaddress. Admission.Nonces follows one reservation, Admission.Replay runs of requests.
-- - Audit: src/aegis_nexus/operator_audit.py. Audit.Sanitize bounds what a row stores, Audit.Retention
--   follows `record` with its deletions.
-- - Alerts: src/aegis_nexus/alerts.py. Alerts.Invariant has the reachable states, Alerts.Occurrences
--   counts findings.
-- - Suppression: src/aegis_nexus/detection_suppression.py. Suppression.InForce says what is silenced,
--   Suppression.Trail which audit rows there are.
-- - Sessions: the choice of a session in src/aegis_nexus/store.py, with src/aegis_nexus/correlation.py.
--   Sessions.Counts follows the event counts.
-- - Detection: Detection.Config is src/aegis_nexus/detection_config.py; Detection.Events,
--   Detection.Rules, Detection.Context and Detection.Engine are src/aegis_nexus/detection.py.
--   Detection.Limits and Detection.Public follow the validation of a configuration,
--   Detection.Windows the window of an event, Detection.Findings and Detection.Answers what the
--   rules answer. Detection.Backtest is src/aegis_nexus/detection_backtest.py, and Detection.Tally
--   and Detection.Replayed say what its report is.
-- - Casework and Cases: Casework is src/aegis_nexus/casework.py; Cases.Data, Cases and Cases.Views
--   are the case operations of src/aegis_nexus/store.py on the tables of
--   src/aegis_nexus/migrations.py. Casework.Valid and Casework.Updates follow the validation;
--   Cases.Invariant, Cases.Columns, Cases.Children, Cases.Creation and Cases.Operations what each
--   operation keeps, Cases.Step the tables they reach, Cases.Changes, Cases.Kept and Cases.Trail the
--   history, Cases.Lifecycle and Cases.Reports what is shown.
-- - Events: Events, Events.Credentials, Events.Claims and Events.Normalize are
--   src/aegis_nexus/model.py, Events.Network is src/aegis_nexus/network_evidence.py, and
--   Sequence.Validate the validation in src/aegis_nexus/sensor_sequence.py. Events.Bounds and
--   Events.Losses follow the bounded values, Events.Redacted and Events.Normalized the whole event.
-- - Pipeline: record_detection_findings of src/aegis_nexus/app.py, which joins Detection, Suppression
--   and Alerts; Pipeline.Counts says what an event adds to the alerts.
-- - Chain: src/aegis_nexus/event_chain.py and the rows that Store.ingest, Store.prune and
--   Store.maintain of src/aegis_nexus/store.py insert and delete. SHA-256 over the JSON text of a
--   payload is the parameter `digest`. Chain.Verify is the walk of verify_chain, Chain.Verdict what its
--   verdict means, Chain.Append the insertion, Chain.Tamper the binding to a head, Chain.Retention the
--   deletions, Chain.Gaps their effect on the verdict, and Chain.Ingest the calls of Store.ingest with
--   the maintenance after every hundredth.
-- - Sequence: src/aegis_nexus/sensor_sequence.py. Sequence.Sums and Sequence.Join measure the ranges,
--   Sequence.Record is the refinement to a set of numbers, Sequence.Gaps the report of missing ones.
--
-- All recursions are structural, so there is no fuel. Times are natural numbers where only their
-- order counts, and stored texts where the code compares texts. Sequence numbers and counters are
-- natural numbers, as the code writes them. The calls of several workers and threads interleave.
-- SlidingWindowLimiter.allow holds a lock, and the reservation of a nonce and the transaction of
-- Store.ingest take the write lock before they read, so each is one step. Every other operation
-- reads in SQLite's autocommit and only its writes, from the first one on, are one transaction. The
-- case operations and Alerts.add_note therefore take what their reads saw, `seen`, apart from the
-- tables that they write to; Cases.Step lets these differ in any way. What is said of the other
-- operations that read before they write (record and update of alerts, delete of suppressions, the
-- capacity bound of maintain), and of runs of them, is for calls one after another.
--
-- Not modelled: network servers and the other routes (src/aegis_nexus/app.py,
-- src/aegis_nexus/sensors), rendering of reports, schema migrations and backups, the quarantine and
-- packet captures, the enrichment and statistics over events (src/aegis_nexus/derivation.py,
-- src/aegis_nexus/ioc.py, src/aegis_nexus/behavioral_analytics.py and their like), the Suricata
-- conversion, and the parts of the standard library that the code calls.
pub mod Common
pub mod Limiter
pub mod Chain
pub mod Sequence
pub mod Admission
pub mod Audit
pub mod Alerts
pub mod Suppression
pub mod Sessions
pub mod Detection
pub mod Casework
pub mod Cases
pub mod Events
pub mod Pipeline
