-- ===== src/Security/Redaction/Middleware.antt =====
-- backend/src/litemcp/security/redaction.py: `SecretRedactionMiddleware`. The drawn
-- `secrets.token_urlsafe(16)` is an argument; the redaction of the fixed text does not raise.
use lite_mcp.Base.{String, Bool, Option, none, some, List, [], ◌∷◌, ◌++◌, if◌then◌else◌}
use lite_mcp.Base.Exec.{Result, ok, err, Exec}
use lite_mcp.Platform.Python.{Exception}
use lite_mcp.Platform.Asgi.{Message, start, body, Scope}
use lite_mcp.Correlation.{is_valid_request_id}
use lite_mcp.Security.Redaction.{TextMethods, redact_text}

-- `request_id`: the state's, where it is valid.
abbrev pub id_or_token : Option String → String → String
id_or_token none token = token
id_or_token (some candidate) token = if is_valid_request_id candidate then candidate else token

module _ (m : TextMethods) (secrets : List String) where
  -- What is sent in place of an exception.
  abbrev pub error_response : String → List Message
  error_response request_id =
      start 500 (("content-type", "text/plain; charset=utf-8") ∷ ("x-request-id", request_id) ∷ [])
      ∷ body (redact_text m secrets "Internal server error")
      ∷ []

  module _ {S : Type 0} where
    abbrev rescue : Bool → String → Exception → Exec (Scope S) Exception (Unit {0})
    rescue is_http token e s =
        if is_http
        then (ok tt, record s { sent = s.sent ++ error_response (id_or_token s.state token) })
        else (err e, s)

    abbrev rescued :
        Bool → String → Result Exception (Unit {0}) → Exec (Scope S) Exception (Unit {0})
    rescued is_http token (ok u) s = (ok u, s)
    rescued is_http token (err e) s = rescue is_http token e s

    -- `__call__`
    unfoldable pub call_redacted :
        Bool → String → Exec (Scope S) Exception (Unit {0}) → Exec (Scope S) Exception (Unit {0})
    call_redacted is_http token app s = let (r, s1) = app s in rescued is_http token r s1
