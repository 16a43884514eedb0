-- ===== src/Main/Routes.antt =====
-- The routes of backend/src/litemcp/main.py, behind the checks of security/csrf.py, and the stack of
-- middleware around them. FastAPI, which turns the HTTPException of the checks into a response, hands
-- the reason on as `detail`. `urlsplit` and Starlette's responses are parameters.
use lite_mcp.Base.{
  ℕ, String, true, Option, none, some, List, [], ◌∷◌, ◌++◌, ◌≡◌, refl, All, lookup, inl, inr,
}
use lite_mcp.Base.Length.{len}
use lite_mcp.Base.Exec.{Result, ok, err, Exec, ◌>>=◌, lift, pure, Run-cases}
use lite_mcp.Platform.Python.{Exception, exception}
use lite_mcp.Platform.Asgi.{Message, start, body, Scope, Responses}
use lite_mcp.Correlation.{dispatch, request_id, is_valid_request_id, request_id_valid, all_hex}
use lite_mcp.Security.Csrf.{
  Request, Rejection, origin_denied, fetch_metadata, csrf_header, value_error,
  require_cookie_write_csrf,
}
use lite_mcp.Security.Redaction.{TextMethods}
use lite_mcp.Security.Redaction.Middleware.{call_redacted, error_response}
use lite_mcp.Platform.Resources.{State, on_world}
use lite_mcp.Main.{Drivers, Readiness, readyz}

-- The JSON of a response: `{"reason": ...}`, `{"detail": {"reason": ...}}`, `{"status": ...}` and
-- that of readyz.
pub data Content : Type 0 where
  reason detail status : String → Content
  components : Readiness → Content

pub record JsonResponse : Type 0 where
  pub status_code : ℕ
  pub headers : List (String × String)
  pub content : Content

abbrev pub response : ℕ → Content → JsonResponse
response code content = record { status_code = code; headers = []; content = content }

abbrev pub unauthenticated_auth_stub : JsonResponse
unauthenticated_auth_stub = response 401 (reason "authentication_required")

-- What follows on the checks.
abbrev pub behind_checks : Result Rejection (Unit {0}) → Result Exception JsonResponse
behind_checks (ok u) = ok unauthenticated_auth_stub
behind_checks (err origin_denied) = ok (response 403 (detail "origin_denied"))
behind_checks (err fetch_metadata) = ok (response 403 (detail "fetch_metadata"))
behind_checks (err csrf_header) = ok (response 403 (detail "csrf_header"))
behind_checks (err value_error) = err (exception "ValueError")

pub data Route : Type 0 where
  post_login post_refresh post_logout get_livez get_readyz : Route

-- `request.headers.get("x-request-id")`, and what `secrets` gives for a new id in the two kinds of
-- middleware.
pub record Draws : Type 0 where
  pub inbound : Option String
  pub hex : String
  pub token : String

module _ {W : Type 0} (d : Drivers W) (urlsplit : String → Option (String × String)) where
  open d use {get_settings, lower}

  unfoldable pub auth_write : Request → Exec (State W) Exception JsonResponse
  auth_write request = on_world get_settings >>= λ settings.
      lift
        (behind_checks (require_cookie_write_csrf urlsplit lower settings.allowed_origins request))

  abbrev login : Request → Exec (State W) Exception JsonResponse
  login = auth_write

  abbrev refresh : Request → Exec (State W) Exception JsonResponse
  refresh = auth_write

  abbrev logout : Request → Exec (State W) Exception JsonResponse
  logout = auth_write

  abbrev livez : Exec (State W) Exception JsonResponse
  livez = pure (response 200 (status "ok"))

  abbrev readiness_response : Readiness → JsonResponse
  readiness_response r = response r.status_code (components r)

  abbrev answer_readyz : Exec (State W) Exception JsonResponse
  answer_readyz s = let (r, s1) = readyz d s in (ok (readiness_response r), s1)

  unfoldable pub handle : Route → Request → Exec (State W) Exception JsonResponse
  handle post_login request = login request
  handle post_refresh request = refresh request
  handle post_logout request = logout request
  handle get_livez request = livez
  handle get_readyz request = answer_readyz

  module _ (m : TextMethods) (secrets : List String) (responses : Responses JsonResponse) where
    open responses use {set_header, messages}

    -- A handler sees nothing of the scope that the middleware shares.
    abbrev on_inner :
        Exec (State W) Exception JsonResponse → Exec (Scope (State W)) Exception JsonResponse
    on_inner f s = let (r, w) = f s.inner in (r, record s { inner = w })

    abbrev send : JsonResponse → Exec (Scope (State W)) Exception (Unit {0})
    send r s = (ok tt, record s { sent = s.sent ++ messages r })

    -- The redaction is the outer middleware, since it is added last.
    pub serve : Route → Request → Draws → Exec (Scope (State W)) Exception (Unit {0})
    serve route request draws = call_redacted m secrets true draws.token (
        dispatch set_header draws.inbound draws.hex (on_inner (handle route request)) >>= λ r.
        send r)

    abbrev pub fresh : State W → Scope (State W)
    fresh w = record { inner = w; state = none; sent = [] }

    abbrev pub IsBody : Message → Type 0
    IsBody (start code headers) = ⊥
    IsBody (body text) = Unit

    -- One response: its start, with the id in a header, and then its body.
    abbrev pub IsResponse : String → List Message → Type 0
    IsResponse id sent =
        (code : ℕ) × (headers : List (String × String)) × (rest : List Message) × (sent
          ≡ start code headers ∷ rest)
        × (lookup "x-request-id" headers ≡ some id)
        × All IsBody rest

    run-ok :
        (route : Route) (request : Request) (draws : Draws) (w w' : State W) (r : JsonResponse)
        → handle route request w ≡ (ok r, w')
        → serve route request draws (fresh w) ≡ (
          ok tt,
          record {
            inner = w';
            state = some (request_id draws.inbound draws.hex);
            sent = messages (set_header "X-Request-Id" (request_id draws.inbound draws.hex) r);
          },
        )
    unfolding serve call_redacted dispatch
    run-ok route request draws w w' r h = rw h refl

    run-err :
        (route : Route) (request : Request) (draws : Draws) (w w' : State W) (e : Exception)
        → is_valid_request_id (request_id draws.inbound draws.hex) ≡ true
        → handle route request w ≡ (err e, w')
        → serve route request draws (fresh w) ≡ (
          ok tt,
          record {
            inner = w';
            state = some (request_id draws.inbound draws.hex);
            sent = error_response m secrets (request_id draws.inbound draws.hex);
          },
        )
    unfolding serve call_redacted dispatch
    run-err route request draws w w' e v h = rw (h, v) refl

    error-IsResponse : (id : String) → IsResponse id (error_response m secrets id)
    unfolding lookup
    error-IsResponse id = (_, _, _, refl, refl, (tt, tt))

    -- Every request is answered by one response, with the request's id in a header, also where the
    -- handler raises; and that id is valid. The text drawn for a new id is 32 hexadecimal digits.
    pub answered_once :
        ((id : String) (r : JsonResponse)
          → IsResponse id (messages (set_header "X-Request-Id" id r)))
        → (route : Route) (request : Request) (draws : Draws) (w : State W)
        → all_hex draws.hex ≡ true
        → len draws.hex ≡ 32
        → ((serve route request draws (fresh w)).0 ≡ ok tt)
          × IsResponse
              (request_id draws.inbound draws.hex)
              (serve route request draws (fresh w)).1.sent
          × (is_valid_request_id (request_id draws.inbound draws.hex) ≡ true)
    answered_once law route request draws w hex hex32 =
        let v = request_id_valid draws.inbound draws.hex hex hex32 in
        elim (Run-cases (handle route request w)) [
          | inl (r, w', h) ↦ rw (run-ok route request draws w w' r h) (refl, law _ r, v)
          | inr (e, w', h) ↦
              rw (run-err route request draws w w' e v h) (refl, error-IsResponse _, v)
        ]

    -- What is sent for a request whose handler raises is the same for every exception, handler and
    -- request with the same id.
    pub errors_look_alike :
        (route route' : Route) (request request' : Request) (draws : Draws) (w w' v v' : State W)
        (e e' : Exception)
        → all_hex draws.hex ≡ true
        → len draws.hex ≡ 32
        → handle route request w ≡ (err e, v)
        → handle route' request' w' ≡ (err e', v')
        → (serve route request draws (fresh w)).1.sent
          ≡ (serve route' request' draws (fresh w')).1.sent
    errors_look_alike route route' request request' draws w w' v v' e e' hex hex32 h h' =
        let valid = request_id_valid draws.inbound draws.hex hex hex32 in
        rw
          (
            run-err route request draws w v e valid h,
            run-err route' request' draws w' v' e' valid h',
          )
          refl
