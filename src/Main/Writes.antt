-- ===== src/Main/Writes.antt =====
-- When a write of the authentication passes its checks, with the settings that hold at the request.
use lite_mcp.Base.{
  ℕ, String, true, Option, some, ◌≡◌, ◌≢◌, ◌↔◌, refl, ap, sym, ◌∙◌, member, arith, inl, inr,
}
use lite_mcp.Base.Exec.{Result, ok, err, Run-cases}
use lite_mcp.Config.{Settings}
use lite_mcp.Platform.Python.{Exception}
use lite_mcp.Platform.Resources.{State}
use lite_mcp.Security.Csrf.{
  Request, Rejection, origin_denied, fetch_metadata, csrf_header, value_error, States, lowered,
  require_cookie_write_csrf, require_cookie_write_csrf_iff,
}
use lite_mcp.Main.{Drivers}
use lite_mcp.Main.Routes.{JsonResponse, unauthenticated_auth_stub, behind_checks, auth_write}

abbrev code_of : Result Exception JsonResponse → ℕ
code_of (ok r) = r.status_code
code_of (err e) = 0

accepted :
    (r : Result Rejection (Unit {0})) → behind_checks r ≡ ok unauthenticated_auth_stub → r ≡ ok tt
accepted (ok u) h = refl
accepted (err origin_denied) h = absurd (omega (arith, ap code_of h))
accepted (err fetch_metadata) h = absurd (omega (arith, ap code_of h))
accepted (err csrf_header) h = absurd (omega (arith, ap code_of h))
accepted (err value_error) h = absurd (omega (arith, ap code_of h))

module _ {W : Type 0} (d : Drivers W) (urlsplit : String → Option (String × String)) where
  open d use {get_settings, lower}

  -- The settings load, and the request states an origin that they allow, is not cross-site for the
  -- browser, and has the header of the client.
  abbrev pub Passes : Request → W → Type 0
  Passes request w =
      (settings : Settings) × (w' : W) × (get_settings w ≡ (ok settings, w'))
      × ((origin : String) × States urlsplit lower request origin
          × (member origin settings.allowed_origins ≡ true)
          × (lowered urlsplit lower request.sec_fetch_site ≢ "cross-site")
          × (request.x_litemcp_request ≡ some "1"))

  checks :
      (request : Request) (s : State W) (settings : Settings) (w' : W)
      → get_settings s.world ≡ (ok settings, w')
      → (auth_write d urlsplit request s).0
        ≡ behind_checks (require_cookie_write_csrf urlsplit lower settings.allowed_origins request)
  unfolding auth_write
  checks request s settings w' q = rw q refl

  raises :
      (request : Request) (s : State W) (e : Exception) (w' : W)
      → get_settings s.world ≡ (err e, w')
      → (auth_write d urlsplit request s).0 ≡ err e
  unfolding auth_write
  raises request s e w' q = rw q refl

  to-Passes :
      (request : Request) (s : State W)
      → (auth_write d urlsplit request s).0 ≡ ok unauthenticated_auth_stub
      → Passes request s.world
  to-Passes request s h = elim (Run-cases (get_settings s.world)) [
    | inr (e, w', q) ↦ absurd (omega (arith, ap code_of (sym (raises request s e w' q) ∙ h)))
    | inl (settings, w', q) ↦ (
      settings,
      w',
      q,
      (require_cookie_write_csrf_iff urlsplit lower settings.allowed_origins request).0
          (accepted _ (sym (checks request s settings w' q) ∙ h)),
    )
  ]

  -- A login, a refresh or a logout reaches its handler exactly if the request passes the checks under
  -- the settings that hold.
  pub auth_write_iff :
      (request : Request) (s : State W)
      → ((auth_write d urlsplit request s).0 ≡ ok unauthenticated_auth_stub)
        ↔ Passes request s.world
  auth_write_iff request s = (
    to-Passes request s,
    λ (settings, w', q, p).
        checks request s settings w' q
        ∙ ap behind_checks
            ((require_cookie_write_csrf_iff urlsplit lower settings.allowed_origins request).1 p),
  )
