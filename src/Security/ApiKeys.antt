-- ===== src/Security/ApiKeys.antt =====
-- backend/src/litemcp/security/api_keys.py. The table of keys is a parameter, with rows that are
-- dictionaries; so are `isalnum`, `int(s, 16)` and SHA-256. What `secrets` draws is an argument. The
-- log and the audit sink are a list of what they are handed; a sink that raises changes nothing else.
pub mod Format
pub mod Shape
pub mod Verified
pub mod Created
pub mod Raises
mod Tests
use lite_mcp.Base.{
  ℕ, suc, ◌-◌, String, Bool, true, false, Option, none, some, List, [], ◌∷◌, ◌++◌, ◌≡◌, ◌&◌, ◌&&◌,
  ◌||◌, not, ◌==◌, eqb, leb, is_nil, lookup, if◌then◌else◌,
}
use lite_mcp.Base.Length.{len}
use lite_mcp.Base.Slices.{starts_with, take, drop, all_codes, split_at_most}
use lite_mcp.Base.Checks.{◌>>=◌, ◌>>◌, require, or_raise}
use lite_mcp.Base.Exec
use lite_mcp.Base.Exec.{Result, ok, err, Exec}
use lite_mcp.Security.Redaction.{TextMethods, Value, text, mapping, Members, end, entry, redact}
use lite_mcp.Platform.Python
use lite_mcp.Platform.Python.{Member}

abbrev pub Row : Type 0
Row = List (String × Member)

-- What the code calls: of Python's text and digests, and the repository of keys.
pub record KeyPlatform : Type 1 where
  pub isalnum : String → Bool
  -- `int(s, 16)` does not raise
  pub parses_hex : String → Bool
  -- `hashlib.sha256(s.encode("utf-8")).hexdigest()`
  pub sha256 : String → String
  pub methods : TextMethods
  pub State : Type 0
  -- `none` where the call raises
  pub insert : State → Row → Option State
  pub get_by_public_id : State → String → Option (Option Row)

-- What escapes from the parsing of a key: the errors of `encode("ascii")` and of `compare_digest`.
pub data KeyError : Type 0 where
  unicode_encode_error type_error : KeyError

abbrev pub is_ascii : String → Bool
is_ascii s = all_codes (λ n. leb n 127) s

-- `re.fullmatch(r"[0-9a-f]{64}", s)`
abbrev pub hex_code : ℕ → Bool
hex_code n = leb b'0' n && leb n b'9' || leb b'a' n && leb n b'f'

abbrev pub is_hex64 : String → Bool
is_hex64 s = all_codes hex_code s && eqb (len s) 64

-- `s.endswith("A")`, for a text of 73 characters
abbrev pub ends_with_marker : String → Bool
ends_with_marker s = drop 72 s == "A"

pub record CreatedApiKey : Type 0 where
  pub plaintext : String
  pub secret : String
  pub display_prefix : String

-- What a sink is handed: `logger.info`, `logger.error`, and `audit.write`, whose record is redacted.
pub data Event : Type 0 where
  logged_info logged_error : List (String × String) → Event
  audited : Value → Event

abbrev members : List (String × String) → Members
members [] = end
members ((k, v) ∷ d) = entry k (text v) (members d)

-- `redact_audit_payload(record)`, without secrets of the environment
abbrev pub redact_audit_payload : TextMethods → List (String × String) → Value
redact_audit_payload m d = redact m [] (mapping (members d))

pub data CreateError : Type 0 where
  persistence_failed : CreateError
  key_error : KeyError → CreateError

-- `row.get("status", "active") != "active"`
abbrev pub has_status : Option Member → Bool
has_status none = true
has_status (some (Python.text s)) = s == "active"
has_status (some (Python.value s)) = false

module _ (k : KeyPlatform) where
  open k use {isalnum, parses_hex, sha256, methods, State, insert, get_by_public_id}

  -- `_integrity_tag`
  pub integrity_tag : String → String → Result KeyError String
  integrity_tag public_id payload =
      if is_ascii (public_id & ":" & payload)
      then ok (take 8 (sha256 (public_id & ":" & payload)))
      else err unicode_encode_error

  -- `hmac.compare_digest` of two texts
  abbrev compare_digest : String → String → Result KeyError Bool
  compare_digest a b = if is_ascii a && is_ascii b then ok (a == b) else err type_error

  abbrev kept : String → Bool → Result KeyError (Option String)
  kept public_id same = ok (if same then some public_id else none)

  -- The checks on a secret of the shape with a tag.
  pub tagged : String → String → Result KeyError (Option String)
  tagged public_id secret =
      if not (eqb (len secret) 73) || not (ends_with_marker secret)
      then ok none
      else if not (is_hex64 (take 64 secret))
      then ok none
      else (integrity_tag public_id (take 64 secret) >>= λ tag.
          compare_digest (take 8 (drop 64 secret)) tag >>= kept public_id)

  -- The checks behind the shape of the public id.
  pub from_parts : String → String → Result KeyError (Option String)
  from_parts public_id secret =
      if not (isalnum public_id)
      then ok none
      else if eqb (len secret) 64
      then ok (if parses_hex secret then some public_id else none)
      else tagged public_id secret

  abbrev of_parts : List String → Result KeyError (Option String)
  of_parts (prefix ∷ public_id ∷ secret ∷ []) =
      if not (eqb (len public_id) 24) then ok none else from_parts public_id secret
  of_parts _ = ok none

  -- `_public_id_from_secret`
  pub public_id_from_secret : String → Result KeyError (Option String)
  public_id_from_secret plaintext =
      if not (starts_with "litemcp_" plaintext)
      then ok none
      else of_parts (split_at_most 2 b'_' plaintext)

  -- A stored digest of 64 characters that is that of the plaintext; a text that is not ASCII raises,
  -- which is caught.
  abbrev has_digest : String → Option Member → Bool
  has_digest plaintext (some (Python.text expected)) =
      if not (eqb (len expected) 64)
      then false
      else if not (is_ascii expected)
      then false
      else sha256 plaintext == expected
  has_digest plaintext _ = false

  abbrev matches_row : String → Option (Option Row) → Bool
  matches_row plaintext none = false
  matches_row plaintext (some none) = false
  matches_row plaintext (some (some row)) =
      if is_nil row || not (has_status (lookup "status" row))
      then false
      else has_digest plaintext (lookup "secret_hash" row)

  abbrev check_id : State → String → Option String → Bool
  check_id s plaintext none = false
  check_id s plaintext (some public_id) = matches_row plaintext (get_by_public_id s public_id)

  pub verify : State → String → Result KeyError Bool
  verify s plaintext = public_id_from_secret plaintext >>= λ found. ok (check_id s plaintext found)

  -- `generate_secret`, of the two drawn texts.
  pub generate_secret : String → String → Result KeyError String
  generate_secret public_id payload = integrity_tag public_id payload >>= λ tag.
      ok ("litemcp_" & public_id & "_" & payload & tag & "A")

  pub record KeyWorld : Type 0 where
    pub table : State
    pub events : List Event

  abbrev pub key_row : String → String → String → String → Row
  key_row service_id name public_id plaintext =
      ("service_id", Python.text service_id)
      ∷ ("name", Python.text name)
      ∷ ("public_id", Python.text public_id)
      ∷ ("display_prefix", Python.text (take 12 plaintext))
      ∷ ("secret_hash", Python.text (sha256 plaintext))
      ∷ ("hash_algorithm", Python.text "sha256-v1")
      ∷ ("status", Python.text "active")
      ∷ []

  -- The records of `_record_success` and `_record_failure`.
  abbrev success_record : String → String → String → String → List (String × String)
  success_record public_id service_id name display_prefix =
      ("action", "api_key.created")
      ∷ ("public_id", public_id)
      ∷ ("display_prefix", display_prefix)
      ∷ ("service_id", service_id)
      ∷ ("name", name)
      ∷ []

  abbrev failure_record : String → String → String → List (String × String)
  failure_record public_id service_id name =
      ("action", "api_key.create_failed")
      ∷ ("public_id", public_id)
      ∷ ("service_id", service_id)
      ∷ ("name", name)
      ∷ []

  -- `public_id or self._new_public_id()`
  abbrev or_new : Option String → String → String
  or_new none fresh = fresh
  or_new (some public_id) fresh = if public_id == "" then fresh else public_id

  abbrev Outcome : Type 0
  Outcome = Result CreateError CreatedApiKey × KeyWorld

  -- The part behind the generated key.
  abbrev persist : String → String → String → String → KeyWorld → Option State → Outcome
  persist service_id name public_id plaintext w none = (
    err persistence_failed,
    record w {
      events =
          w.events
          ++ logged_error (failure_record public_id service_id name)
            ∷ audited (redact_audit_payload methods (failure_record public_id service_id name))
            ∷ [];
    },
  )
  persist service_id name public_id plaintext w (some table) = (
    ok (record { plaintext = plaintext; secret = plaintext; display_prefix = take 12 plaintext }),
    record {
      table = table;
      events =
          w.events
          ++ logged_info (success_record public_id service_id name (take 12 plaintext))
            ∷ audited (
                redact_audit_payload methods
                  (success_record public_id service_id name (take 12 plaintext)))
            ∷ [];
    },
  )

  abbrev with_id :
      String → String → String → String → KeyWorld → Result KeyError (Option String) → Outcome
  with_id service_id name fresh plaintext w (err e) = (err (key_error e), w)
  with_id service_id name fresh plaintext w (ok found) =
      persist service_id name (or_new found fresh) plaintext w
        (insert w.table (key_row service_id name (or_new found fresh) plaintext))

  abbrev with_secret : String → String → String → KeyWorld → Result KeyError String → Outcome
  with_secret service_id name fresh w (err e) = (err (key_error e), w)
  with_secret service_id name fresh w (ok plaintext) =
      with_id service_id name fresh plaintext w (public_id_from_secret plaintext)

  -- `public_id` and `payload` are drawn for the key; `fresh` is what `_new_public_id` would draw.
  pub create : String → String → String → String → String → KeyWorld → Outcome
  create public_id payload fresh service_id name w =
      with_secret service_id name fresh w (generate_secret public_id payload)
