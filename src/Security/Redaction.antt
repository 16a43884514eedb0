-- ===== src/Security/Redaction.antt =====
-- backend/src/litemcp/security/redaction.py: the redaction of texts and of payloads. The methods of
-- `str` and the eight compiled patterns are parameters. Keys of a mapping that are not texts are left
-- out.
pub mod Hidden
pub mod Exceptions
pub mod Middleware
pub mod Logging
pub mod Secrets
pub mod Installed
mod Tests
use Prim.Native.Char.{Char, code}
use Prim.Native.String
use lite_mcp.Base.{
  ℕ, String, Bool, true, false, List, [], ◌∷◌, ◌&◌, ◌&&◌, ◌||◌, ◌==◌, eqb, member, if◌then◌else◌,
}

-- The patterns of the module, in the order in which a text goes through them.
pub data Pattern : Type 0 where
  url_password authorization sensitive_key assignment header_value fernet jwt litemcp_key : Pattern

pub record TextMethods : Type 0 where
  -- `value.replace(old, new)`
  pub replace : String → String → String → String
  pub lower : String → String
  -- `pattern.sub(replacement, value)`
  pub sub : Pattern → String → String → String

-- A payload: `str`; `None`, `bool`, `int` and `float`, by their text; mappings, lists and tuples;
-- sets, by their elements in some order; any other object, by what `str()` makes of it.
mutual
  pub data Value : Type 0 where
    text plain object : String → Value
    list tuple set : Items → Value
    mapping : Members → Value

  pub data Items : Type 0 where
    nil : Items
    item : Value → Items → Items

  pub data Members : Type 0 where
    end : Members
    entry : String → Value → Members → Members

abbrev pub redacted : String
redacted = "[REDACTED]"

-- `_SENSITIVE_NAMES`
abbrev sensitive_names : List String
sensitive_names =
    "password" ∷ "passwd" ∷ "token" ∷ "access_token" ∷ "refresh_token" ∷ "api_key" ∷ "apikey"
    ∷ "x_api_key" ∷ "api-key" ∷ "secret" ∷ "authorization" ∷ "cookie" ∷ "set_cookie"
    ∷ "database_url" ∷ "db_password" ∷ "connection_string" ∷ "client_secret" ∷ "private_key"
    ∷ "encryption_key" ∷ "jwt_secret" ∷ []

abbrev is_quote : Char → Bool
is_quote c = eqb (code c) 34 || eqb (code c) 39

-- `value.strip("\"'")`
strip_left : String → String
strip_left String.[] = ""
strip_left (String.◌∷◌ c s) = let rest = strip_left s in if is_quote c then rest else String.◌∷◌ c s

strip_right : String → String
strip_right String.[] = ""
strip_right (String.◌∷◌ c s) =
    let rest = strip_right s in if is_quote c && rest == "" then "" else String.◌∷◌ c rest

abbrev strip_quotes : String → String
strip_quotes s = strip_right (strip_left s)

-- `value.replace("-", "_")`
underscores : String → String
underscores String.[] = ""
underscores (String.◌∷◌ c s) =
    let rest = underscores s in if eqb (code c) 45 then String.◌∷◌ "_" rest else String.◌∷◌ c rest

-- `result[key] = value`
pub assign : String → Value → Members → Members
assign key value end = entry key value end
assign key value (entry k v ms) =
    let rest = assign key value ms in if k == key then entry k value ms else entry k v rest

module _ (m : TextMethods) where
  open m use {replace, lower, sub}

  replace_secrets : List String → String → String
  replace_secrets [] value = value
  replace_secrets (secret ∷ secrets) value = replace_secrets secrets (replace secret redacted value)

  -- `_redact_text`
  pub redact_text : List String → String → String
  redact_text secrets value =
      let v1 = replace_secrets secrets value in
      let v2 = sub url_password ("\\1" & redacted & "\\3") v1 in
      let v3 = sub authorization ("\\1\\2\\3" & redacted & "\\5") v2 in
      let v4 = sub sensitive_key ("\\1\\2" & redacted) v3 in
      let v5 = sub assignment ("\\1\\2" & redacted & "\\4") v4 in
      let v6 = sub header_value ("\\1" & redacted) v5 in
      sub litemcp_key redacted (sub jwt redacted (sub fernet redacted v6))

  pub is_sensitive : String → Bool
  is_sensitive key = member (underscores (lower (strip_quotes key))) sensitive_names

  module _ (secrets : List String) where
    mutual
      pub redact : Value → Value
      redact (text s) = text (redact_text secrets s)
      redact (plain s) = plain s
      redact (object s) = text (redact_text secrets s)
      redact (list xs) = list (redact_items xs)
      redact (tuple xs) = tuple (redact_items xs)
      redact (set xs) = set (redact_items xs)
      redact (mapping ms) = mapping (redact_members end ms)

      redact_items : Items → Items
      redact_items nil = nil
      redact_items (item x xs) = item (redact x) (redact_items xs)

      -- The loop over the members, with the `result` so far.
      redact_members : Members → Members → Members
      redact_members result end = result
      redact_members result (entry key v ms) =
          let safe = redact v in
          redact_members
            (assign (redact_text secrets key) (if is_sensitive key then text redacted else safe)
              result)
            ms
