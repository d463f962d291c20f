-- ===== src/Common/Python.antt =====
-- What several parts of the program call of Python's own functions.
use Prim.Native.Nat.{ℕ}
use Prim.Native.String.{String}
use mathlib.Core.Option.{Option}
use aegis_nexus.Common.Json.{Json, ℤ, str}

-- `repr_of` is `str(v)` of a value that is no text; `none` is an exception (TypeError, ValueError).
-- `timestamp` is the UTC microseconds of `datetime.fromisoformat(s.replace("Z", "+00:00"))`, where a
-- text without a zone is UTC.
pub record Python : Type 0 where
  pub repr_of : Json → String
  pub int_of : Json → Option ℤ
  pub strip : String → String
  pub lower : String → String
  pub casefold : String → String
  pub timestamp : String → Option ℕ
  pub decimal : ℕ → String

abbrev pub str_of : Python → Json → String
str_of py (str s) = s
str_of py v = py.repr_of v
