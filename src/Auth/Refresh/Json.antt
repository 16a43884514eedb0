-- ===== src/Auth/Refresh/Json.antt =====
-- backend/src/litemcp/auth/refresh.py: `refresh_session`, which confirms a session that is stored as a
-- JSON text. The answer of `GET` as bytes is left out.
use text.Mathlib.TextPositions.{eq_refl}
use lite_mcp.Base.{
  String, Option, none, some, List, ◌≡◌, ◌↔◌, refl, arith, eq_iff, lookup, Option-cases, inl, inr,
  if◌then◌else◌,
}
use lite_mcp.Base.Exec.{Result, ok, err}
use lite_mcp.Platform.Python
use lite_mcp.Platform.Python.{Stdlib}
use lite_mcp.Platform.Redis.{Redis, RedisError}
use lite_mcp.Auth.Session.{admin_session_key}
use lite_mcp.Auth.Refresh.{parse_refresh_token, compare_member}
use lite_mcp.Auth.Refresh.{RefreshError, malformed_refresh_token, session_missing, secret_mismatch}

-- A subclass of `RefreshRejected`, or the error of Redis.
pub data ConfirmError : Type 0 where
  rejected : RefreshError → ConfirmError
  redis_error : RedisError → ConfirmError

module _ (py : Stdlib) (R : Redis) where
  open py use {sha256, json_loads}
  open R use {State, get}

  abbrev check_hash : String → Option Python.Member → Result ConfirmError (Unit {0})
  check_hash secret none = err (rejected session_missing)
  check_hash secret (some stored_hash) =
      if compare_member py stored_hash secret then ok tt else err (rejected secret_mismatch)

  abbrev check_payload :
      String → Option (List (String × Python.Member)) → Result ConfirmError (Unit {0})
  check_payload secret none = err (rejected session_missing)
  check_payload secret (some payload) = check_hash secret (lookup "current_secret_hash" payload)

  abbrev check_raw : String → Result RedisError (Option String) → Result ConfirmError (Unit {0})
  check_raw secret (err e) = err (redis_error e)
  check_raw secret (ok none) = err (rejected session_missing)
  check_raw secret (ok (some raw)) = check_payload secret (json_loads raw)

  abbrev check_token : String → State → Option (String × String) → Result ConfirmError (Unit {0})
  check_token environment s none = err (rejected malformed_refresh_token)
  check_token environment s (some (session_id, secret)) =
      check_raw secret (get s (admin_session_key environment session_id))

  pub refresh_session : String → String → State → Result ConfirmError (Unit {0})
  refresh_session opaque_token environment s =
      check_token environment s (parse_refresh_token opaque_token)

  -- The text under the session's key is an object with the digest of the secret.
  pub record Confirms (environment : String) (s : State) (session_id secret : String) : Type 0 where
    pub raw : String
    pub payload : List (String × Python.Member)
    pub found : get s (admin_session_key environment session_id) ≡ ok (some raw)
    pub parses : json_loads raw ≡ some payload
    pub matches : lookup "current_secret_hash" payload ≡ some (Python.Member.text (sha256 secret))

  hash-check :
      (secret : String) (h : Option Python.Member)
      → check_hash secret h ≡ ok tt
      → h ≡ some (Python.Member.text (sha256 secret))
  hash-check secret none e = cc
  hash-check secret (some (Python.Member.text h)) e = ground (arith, eq_iff h (sha256 secret))
  hash-check secret (some (Python.Member.value v)) e = cc

  raw-check :
      (environment session_id secret : String) (s : State) (r : Result RedisError (Option String))
      → get s (admin_session_key environment session_id) ≡ r
      → check_raw secret r ≡ ok tt
      → Confirms environment s session_id secret
  raw-check environment session_id secret s (err e) g h = absurd cc
  raw-check environment session_id secret s (ok none) g h = absurd cc
  raw-check environment session_id secret s (ok (some raw)) g h =
      elim (Option-cases (json_loads raw)) [
        | inl n ↦ ground arith
        | inr (payload, p) ↦ record {
          raw = raw;
          payload = payload;
          found = g;
          parses = p;
          matches = hash-check secret (lookup "current_secret_hash" payload) (ground arith);
        }
      ]

  -- A token of a session id and a secret is confirmed exactly if the text under the session's key is an
  -- object whose `current_secret_hash` is the digest of the secret.
  refresh_session_iff :
      (opaque_token environment session_id secret : String) (s : State)
      → parse_refresh_token opaque_token ≡ some (session_id, secret)
      → (refresh_session opaque_token environment s ≡ ok tt)
        ↔ Confirms environment s session_id secret
  unfolding refresh_session
  refresh_session_iff opaque_token environment session_id secret s t = rw t (
    λ h.
        raw-check environment session_id secret s (get s (admin_session_key environment session_id))
          refl h,
    λ c. rw (c.found, c.parses, c.matches, eq_refl (sha256 secret)) refl,
  )
