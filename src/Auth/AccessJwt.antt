-- ===== src/Auth/AccessJwt.antt =====
-- backend/src/litemcp/auth/access_jwt.py. The session's `get` is an argument, `none` where the
-- database raises; the time of the call is in microseconds.
pub mod Wire
pub mod Signed
pub mod Accepts
pub mod Minted
pub mod Loaded
mod Tests
use lite_mcp.Base.{
  ℕ, zero, suc, ◌-◌, ◌%◌, String, Bool, true, false, Option, none, some, List, [], ◌∷◌, ◌&◌, ◌&&◌,
  ◌==◌, not, leb, is_text, lookup, is_none, if◌then◌else◌,
}
use lite_mcp.Base.Text.{split}
use lite_mcp.Base.Length.{len, byte_length}
use lite_mcp.Base.Integer
use lite_mcp.Base.Integer.{ℤ, pos}
use lite_mcp.Base.Checks.{◌>>=◌, ◌>>◌, require, or_raise}
use lite_mcp.Base.Exec.{Result, ok, err}
use lite_mcp.Platform.Time.{as_utc}
use lite_mcp.Platform.Python.{Stdlib}
use lite_mcp.Platform.Jwt.{
  Json, Items, Members, null, bool, int, float, text, array, object, nil, item, end, field, Jwt,
  DecodeOptions,
}
use lite_mcp.Config.{Settings}
use lite_mcp.Db.User.{User}

-- The codes of `AccessJwtError`, and the error of `fromtimestamp`, which the code lets through.
pub data AccessJwtError : Type 0 where
  invalid_token user_not_active token_stale database_unavailable : AccessJwtError
  value_error : AccessJwtError

pub record AccessAuthContext : Type 0 where
  pub user_id : ℕ
  pub username : String
  pub role : String
  pub sid : String
  pub jti : String

-- `"=" * n`
abbrev equals_signs : ℕ → String
equals_signs zero = ""
equals_signs (suc n) = "=" & equals_signs n

abbrev pub padded : String → String
padded segment = segment & equals_signs ((4 - len segment % 4) % 4)

-- `key in result`, for the members that stand behind.
has_key : String → Members → Bool
has_key key end = false
has_key key (field k v ms) = if k == key then true else has_key key ms

-- No object of the tree has a key twice: `_reject_duplicate_keys` is the hook for each of them.
mutual
  pub unique_keys : Json → Bool
  unique_keys (array xs) = unique_items xs
  unique_keys (object ms) = unique_members ms
  unique_keys null = true
  unique_keys (bool b) = true
  unique_keys (int n) = true
  unique_keys (float s) = true
  unique_keys (text s) = true

  unique_items : Items → Bool
  unique_items nil = true
  unique_items (item x xs) = unique_keys x && unique_items xs

  unique_members : Members → Bool
  unique_members end = true
  unique_members (field k v ms) = not (has_key k ms) && unique_keys v && unique_members ms

abbrev pub entries : Members → List (String × Json)
entries end = []
entries (field k v ms) = (k, v) ∷ entries ms

-- `isinstance(parsed, dict)`
abbrev as_object : Json → Option (List (String × Json))
as_object (object ms) = some (entries ms)
as_object _ = none

abbrev pub as_text : Option Json → Option String
as_text (some (text s)) = some s
as_text _ = none

-- `isinstance(value, int | float)`; a `bool` is an `int`
abbrev pub as_number : Option Json → Option Json
as_number (some (bool b)) = some (bool b)
as_number (some (int n)) = some (int n)
as_number (some (float s)) = some (float s)
as_number _ = none

-- `value == text` for a member that may be missing
abbrev pub is_json_text : Option Json → String → Bool
is_json_text v s = is_text (as_text v) s

abbrev pub Checked : Type 0 → Type 0
Checked A = Result AccessJwtError A

module _ (py : Stdlib) (j : Jwt) (settings : Settings) (load_user : ℕ → Option (Option User)) where
  open py use {uuid_parse}
  open j use {urlsafe_b64decode, json_loads, decode, fromtimestamp, lower}

  -- `_load_json_object(_b64url_decode(segment))`
  pub load_segment : String → Checked (List (String × Json))
  unfolding unique_keys has_key
  load_segment segment = do
    raw ← or_raise (urlsafe_b64decode (padded segment)) invalid_token
    parsed ← or_raise (json_loads raw) invalid_token
    require (unique_keys parsed) invalid_token
    or_raise (as_object parsed) invalid_token

  abbrev three_parts : List String → Checked (List (String × Json) × List (String × Json))
  three_parts (a ∷ b ∷ c ∷ []) = do
    header ← load_segment a
    payload ← load_segment b
    ok (header, payload)
  three_parts _ = err invalid_token

  pub parse_header_and_payload : String → Checked (List (String × Json) × List (String × Json))
  parse_header_and_payload token = three_parts (split b'.' token)

  -- The keys as a dictionary: the current key stands before the previous ones.
  abbrev pub verification_keyring : List (String × String)
  verification_keyring =
      (settings.admin_jwt_kid, settings.admin_jwt_secret) ∷ settings.admin_jwt_previous_keys

  pub configured_algorithm : Checked String
  configured_algorithm =
      if settings.admin_jwt_algorithm == ""
      then err invalid_token
      else if lower settings.admin_jwt_algorithm == "none"
      then err invalid_token
      else ok settings.admin_jwt_algorithm

  -- `_require_str_claim`, and the same check on the header's `kid`.
  pub require_str_claim : List (String × Json) → String → Checked String
  require_str_claim claims name = do
    value ← or_raise (as_text (lookup name claims)) invalid_token
    require (not (value == "")) invalid_token
    ok value

  pub parse_sub : Option Json → Checked ℕ
  parse_sub value = do
    s ← or_raise (as_text value) invalid_token
    or_raise (uuid_parse s) invalid_token

  abbrev pub options : String → ℕ → DecodeOptions
  options algorithm now = record {
    algorithms = algorithm ∷ [];
    issuer = settings.admin_jwt_issuer;
    audience = settings.admin_jwt_audience;
    leeway = settings.admin_jwt_clock_skew_seconds;
    required = "exp" ∷ "nbf" ∷ "iat" ∷ "iss" ∷ "aud" ∷ "sub" ∷ [];
    now = now;
  }

  -- The part on the header and the signature, up to the claims.
  pub verify_signature : String → ℕ → Checked (List (String × Json))
  verify_signature token now = do
    (header, payload) ← parse_header_and_payload token
    algorithm ← configured_algorithm
    require (is_json_text (lookup "alg" header) algorithm) invalid_token
    require (is_json_text (lookup "typ" header) "at+jwt") invalid_token
    kid ← require_str_claim header "kid"
    secret ← or_raise (lookup kid verification_keyring) invalid_token
    or_raise (decode token secret (options algorithm now)) invalid_token

  abbrev is_stale : ℤ → User → Bool
  is_stale issued_at user = not (Integer.leb (pos (as_utc user.password_changed_at)) issued_at)

  abbrev is_active : User → Bool
  is_active user = user.status == "active"

  -- The part on the claims and the account.
  pub verify_claims : List (String × Json) → Checked AccessAuthContext
  verify_claims claims = do
    require (is_json_text (lookup "token_type" claims) "access") invalid_token
    user_id ← parse_sub (lookup "sub" claims)
    sid ← require_str_claim claims "sid"
    jti ← require_str_claim claims "jti"
    iat ← or_raise (as_number (lookup "iat" claims)) invalid_token
    found ← or_raise (load_user user_id) database_unavailable
    user ← or_raise found user_not_active
    require (is_active user) user_not_active
    issued_at ← or_raise (fromtimestamp iat) value_error
    require (not (is_stale issued_at user)) token_stale
    ok (record {
      user_id = user.id;
      username = user.username;
      role = user.role;
      sid = sid;
      jti = jti;
    })

  pub verify_access_jwt : String → ℕ → Checked AccessAuthContext
  verify_access_jwt token now = do
    require (not (token == "")) invalid_token
    require (leb (byte_length token) 8192) invalid_token
    claims ← verify_signature token now
    verify_claims claims
