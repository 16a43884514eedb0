-- ===== src/Platform/Time.antt =====
-- Python's `datetime`, in microseconds since the first day of UTC.
use lite_mcp.Base.{ℕ, ◌*◌}

-- A wall clock without a zone, or an instant.
pub data Datetime : Type 0 where
  naive : ℕ → Datetime
  aware : ℕ → Datetime

-- The helper `_as_utc` of several modules: a value without a zone is read as UTC.
abbrev pub as_utc : Datetime → ℕ
as_utc (naive t) = t
as_utc (aware t) = t

-- `timedelta(seconds=n)`
abbrev pub seconds : ℕ → ℕ
seconds n = n * 1000000
