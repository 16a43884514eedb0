-- ===== src/Platform/Python.antt =====
-- What the code calls of Python's standard library (`hashlib`, `datetime`, `uuid`, `json`), as
-- functions; what it relies on of them is a record of laws of its own.
use lite_mcp.Base.{ℕ, String, Option, some, List, ◌≡◌}
use lite_mcp.Platform.Time.{Datetime, aware}

-- A member of a JSON object: a text, or another value with what `str()` makes of it.
pub data Member : Type 0 where
  text : String → Member
  value : String → Member

-- An exception, by its rendering.
pub data Exception : Type 0 where
  exception : String → Exception

pub record Stdlib : Type 0 where
  -- `hashlib.sha256(s.encode()).hexdigest()`
  pub sha256 : String → String
  -- `isoformat()` of an instant in UTC, and `fromisoformat`, `none` where it raises
  pub isoformat : ℕ → String
  pub fromisoformat : String → Option Datetime
  -- `str(uuid)`, and `uuid.UUID(s)`, `none` where it raises; an id is its 128-bit integer
  pub uuid_str : ℕ → String
  pub uuid_parse : String → Option ℕ
  -- `json.loads(s)` where the result is an object; `none` where it raises, or where a subscript of
  -- the result by a text does
  pub json_loads : String → Option (List (String × Member))

pub record StdlibLaws (py : Stdlib) : Type 0 where
  pub fromisoformat-isoformat : (t : ℕ) → py.fromisoformat (py.isoformat t) ≡ some (aware t)
  pub uuid_parse-str : (i : ℕ) → py.uuid_parse (py.uuid_str i) ≡ some i
