-- ===== src/Security/Csrf/Origins.antt =====
-- The allowed origins of the settings and the checks of a write.
use lite_mcp.Base.{
  String, Bool, true, false, List, [], ◌∷◌, map, ◌≡◌, inl, inr, ◌∙◌, sym, ap, refl, ◌||◌, ◌==◌,
  arith, eq_iff, eq_refl, member, Bool-cases, false≢true, Option,
}
use lite_mcp.Base.Text.{split}
use lite_mcp.Base.Exec.{ok}
use lite_mcp.Config.Lists.{allowed_origins, allowed_origins_iff}
use lite_mcp.Security.Csrf.{
  Request, States, require_cookie_write_csrf, require_cookie_write_csrf_iff,
}

member-map :
    (f : String → String) (x : String) (ps : List String)
    → member x (map f ps) ≡ true
    → (p : String) × (member p ps ≡ true) × (x ≡ f p)
unfolding member
member-map f x [] h = absurd (false≢true h)
member-map f x (p ∷ ps) h = elim (Bool-cases (f p == x)) [
  | inl e ↦ (p, rw (eq_refl p) refl, sym ((eq_iff (f p) x).0 e))
  | inr e ↦
      let (q, inside, same) = member-map f x ps (rest (f p == x) _ e h) in
      (q, later (p == q) _ inside, same)
]
  where
    rest : (a b : Bool) → a ≡ false → (a || b) ≡ true → b ≡ true
    rest a b e h = ground arith

    later : (a b : Bool) → b ≡ true → (a || b) ≡ true
    later a b h = ground arith

-- Where the setting of the allowed origins is a text that is accepted, a write is accepted only if
-- the origin that the request states is a piece of that text between commas, stripped.
accepted_origin :
    (urlsplit : String → Option (String × String)) (lower strip : String → String)
    (strip-strip : (s : String) → strip (strip s) ≡ strip s) (value : String)
    (origins : List String) (request : Request)
    → allowed_origins strip value ≡ ok origins
    → require_cookie_write_csrf urlsplit lower origins request ≡ ok tt
    → (origin : String) × States urlsplit lower request origin
      × ((piece : String) × (member piece (split b',' value) ≡ true) × (origin ≡ strip piece))
accepted_origin urlsplit lower strip strip-strip value origins request given passes =
    let (same, _) = (allowed_origins_iff strip strip-strip value origins).0 given in
    let (origin, states, allowed, _, _) =
      (require_cookie_write_csrf_iff urlsplit lower origins request).0 passes in
    (
      origin,
      states,
      member-map strip origin (split b',' value) (ap (λ os. member origin os) (sym same) ∙ allowed),
    )
