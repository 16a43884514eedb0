-- ===== src/Auth/Refresh/Stored.antt =====
-- backend/src/litemcp/auth/refresh.py: the refresh token and the fields of a stored session.
use lite_mcp.Base.{
  ℕ, String, Bool, false, Option, none, some, List, [], ◌∷◌, ◌==◌, ◌||◌, lookup, if◌then◌else◌,
}
use lite_mcp.Base.Text.{split}
use lite_mcp.Base.Maybe.{◌>>=◌}
use lite_mcp.Platform.Time.{as_utc}
use lite_mcp.Platform.Python.{Stdlib, Member}

-- `len(parts) != 2 or not parts[0] or not parts[1]`
abbrev pub two_parts : List String → Option (String × String)
two_parts (a ∷ b ∷ []) = if a == "" || b == "" then none else some (a, b)
two_parts _ = none

unfoldable pub parse_refresh_token : String → Option (String × String)
parse_refresh_token token = two_parts (split b'.' token)

-- What `rotate_refresh_token` reads of a session.
pub record StoredSession : Type 0 where
  pub created_at : ℕ
  pub idle_expires_at : ℕ
  pub absolute_expires_at : ℕ
  pub stored_hash : String
  pub user_id_raw : String

module _ (py : Stdlib) where
  open py use {sha256, isoformat, fromisoformat, uuid_parse, json_loads}

  -- Of a stored hash that is ASCII, as every hash that the program stores is.
  abbrev pub compare_refresh_secret : String → String → Bool
  compare_refresh_secret stored_hash presented_secret = stored_hash == sha256 presented_secret

  -- The same for a JSON member: what is not a text does not match.
  abbrev pub compare_member : Member → String → Bool
  compare_member (Member.text h) presented_secret = compare_refresh_secret h presented_secret
  compare_member (Member.value s) presented_secret = false

  -- `_parse_iso` of a field, `none` where the key is missing or the text is no date
  abbrev pub iso_field : String → List (String × String) → Option ℕ
  iso_field name fields = do
    value ← lookup name fields
    moment ← fromisoformat value
    some (as_utc moment)

  unfoldable pub read_session : List (String × String) → Option StoredSession
  read_session fields = do
    created_at ← iso_field "created_at" fields
    idle_expires_at ← iso_field "idle_expires_at" fields
    absolute_expires_at ← iso_field "absolute_expires_at" fields
    stored_hash ← lookup "current_secret_hash" fields
    user_id_raw ← lookup "user_id" fields
    some (record {
      created_at = created_at;
      idle_expires_at = idle_expires_at;
      absolute_expires_at = absolute_expires_at;
      stored_hash = stored_hash;
      user_id_raw = user_id_raw;
    })

  -- The mapping that a rotation writes.
  unfoldable pub rotated_fields : String → ℕ → ℕ → List (String × String)
  rotated_fields new_hash moment next_idle =
      ("current_secret_hash", new_hash)
      ∷ ("last_refreshed_at", isoformat moment)
      ∷ ("idle_expires_at", isoformat next_idle)
      ∷ []
