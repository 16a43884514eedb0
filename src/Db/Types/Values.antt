-- ===== src/Db/Types/Values.antt =====
-- backend/src/litemcp/db/types.py: the values that are bound and the results, for the two types that
-- convert them, by the dialect's name. A time is a wall clock in microseconds since the first day of
-- year 1, with the offset of its zone or without one.
use lite_mcp.Base.{
  ℕ, String, Option, none, some, ◌+◌, ◌-◌, ◌≡◌, ◌≢◌, ◌==◌, ltb, ap, refl, if◌then◌else◌, eq_iff,
  ne_str, Bool-cases, inl, inr,
}
use lite_mcp.Base.Exec.{Result, ok, err}
use lite_mcp.Platform.Python.{Stdlib, StdlibLaws}

-- A `uuid.UUID`, or a text.
pub data IdValue : Type 0 where
  uuid : ℕ → IdValue
  text : String → IdValue

pub data TypeError : Type 0 where
  value_error overflow_error : TypeError

abbrev pub maybe_uuid : Option ℕ → Option IdValue
maybe_uuid none = none
maybe_uuid (some i) = some (uuid i)

module _ (py : Stdlib) where
  open py use {uuid_str, uuid_parse}

  -- `str(value)`
  abbrev pub id_text : IdValue → String
  id_text (uuid i) = uuid_str i
  id_text (text s) = s

  -- `ID.process_bind_param`
  unfoldable pub bind_id : String → Option IdValue → Option IdValue
  bind_id dialect none = none
  bind_id dialect (some value) =
      if dialect == "postgresql" then some value else some (text (id_text value))

  abbrev parsed : Option ℕ → Result TypeError (Option IdValue)
  parsed none = err value_error
  parsed (some i) = ok (some (uuid i))

  abbrev as_uuid : IdValue → Result TypeError (Option IdValue)
  as_uuid (uuid i) = ok (some (uuid i))
  as_uuid (text s) = parsed (uuid_parse s)

  -- `ID.process_result_value`
  unfoldable pub result_id : String → Option IdValue → Result TypeError (Option IdValue)
  result_id dialect none = ok none
  result_id dialect (some value) =
      if dialect == "postgresql" then ok (some value) else as_uuid value

  -- An id is the same before it is written and after it is read, on any dialect, where the database
  -- gives back what it got.
  id_round_trip :
      StdlibLaws py
      → (dialect : String) (id : Option ℕ)
      → result_id dialect (bind_id dialect (maybe_uuid id)) ≡ ok (maybe_uuid id)
  unfolding bind_id result_id
  id_round_trip laws dialect none = refl
  id_round_trip laws dialect (some i) = elim (Bool-cases (dialect == "postgresql")) [
    | inl e ↦ rw (e, e) refl
    | inr e ↦ rw (e, e, laws.uuid_parse-str i) refl
  ]

-- East of Greenwich the wall clock is ahead.
pub data Offset : Type 0 where
  east west : ℕ → Offset

pub data Stamp : Type 0 where
  naive : ℕ → Stamp
  aware : ℕ → Offset → Stamp

-- The first microsecond of year 10000.
abbrev year_10000 : ℕ
year_10000 = 315537897600000000

-- The wall clock of `value.astimezone(UTC)`.
abbrev pub utc_clock : ℕ → Offset → Result TypeError ℕ
utc_clock clock (east d) = if ltb clock d then err overflow_error else ok (clock - d)
utc_clock clock (west d) = if ltb (clock + d) year_10000 then ok (clock + d) else err overflow_error

abbrev stored : String → ℕ → Stamp
stored dialect clock = if dialect == "mysql" then naive clock else aware clock (east 0)

abbrev bound : String → Result TypeError ℕ → Result TypeError (Option Stamp)
bound dialect (err e) = err e
bound dialect (ok clock) = ok (some (stored dialect clock))

-- `UTC_TS.process_bind_param`
unfoldable pub bind_utc_ts : String → Option Stamp → Result TypeError (Option Stamp)
bind_utc_ts dialect none = ok none
bind_utc_ts dialect (some (naive clock)) = ok (some (naive clock))
bind_utc_ts dialect (some (aware clock offset)) = bound dialect (utc_clock clock offset)

-- The helper `_as_utc` of the readers, by the wall clock in UTC.
abbrev pub read_utc : Stamp → Result TypeError ℕ
read_utc (naive clock) = ok clock
read_utc (aware clock offset) = utc_clock clock offset

-- A time with a zone is the same instant after it was written and read, on any dialect: MySQL gives
-- back the wall clock that it got, the others the instant, in any zone.
time_round_trip :
    (dialect : String) (read : Stamp → Stamp)
    → (dialect ≡ "mysql" → (clock : ℕ) → read (naive clock) ≡ naive clock)
    → (dialect ≢ "mysql" → (clock : ℕ) → read_utc (read (aware clock (east 0))) ≡ ok clock)
    → (clock instant : ℕ) (offset : Offset) → utc_clock clock offset ≡ ok instant
    → (value : Stamp) × (bind_utc_ts dialect (some (aware clock offset)) ≡ ok (some value))
      × (read_utc (read value) ≡ ok instant)
unfolding bind_utc_ts
time_round_trip dialect read mysql others clock instant offset h =
    elim (Bool-cases (dialect == "mysql")) [
      | inl e ↦ (
        naive instant,
        rw (h, e) refl,
        ap read_utc (mysql ((eq_iff dialect "mysql").0 e) instant),
      )
      | inr e ↦ (aware instant (east 0), rw (h, e) refl, others (ne_str dialect "mysql" e) instant)
    ]
