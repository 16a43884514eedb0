-- ===== src/Security/Csrf.antt =====
-- backend/src/litemcp/security/csrf.py. A request is the four headers that the checks read, `none`
-- where a header is absent. `urlsplit` and `str.lower` are parameters; `urlsplit` gives the scheme and
-- the netloc, or `none` where it raises.
pub mod Origins
use lite_mcp.Base.{
  str_ne, String, Bool, true, false, Option, none, some, List, [], ◌∷◌, ◌≡◌, ◌≢◌, ◌↔◌, ◌⊎◌, inl,
  inr, refl, ap, ◌==◌, ◌||◌, ◌&◌, not, is_text, member, arith, eq_iff, if◌then◌else◌, Option-cases,
  Bool-cases, sym, ◌∙◌,
}
use lite_mcp.Base.Exec.{Result, ok, err}

pub record Request : Type 0 where
  pub origin : Option String
  pub referer : Option String
  pub sec_fetch_site : Option String
  pub x_litemcp_request : Option String

-- The reasons of a 403, and the ValueError of `urlsplit`.
pub data Rejection : Type 0 where
  origin_denied fetch_metadata csrf_header : Rejection
  value_error : Rejection

one : (header : Option String) → is_text header "1" ≡ true → header ≡ some "1"
one none h = cc
one (some v) h = ap some ((eq_iff v "1").0 h)

module _ (urlsplit : String → Option (String × String)) (lower : String → String) where
  abbrev origin_of : Option (String × String) → Result Rejection (Option String)
  origin_of none = err value_error
  origin_of (some (scheme, netloc)) =
      if not (scheme == "http" || scheme == "https") || netloc == ""
      then ok none
      else ok (some (scheme & "://" & netloc))

  unfoldable pub origin_from_referer : String → Result Rejection (Option String)
  origin_from_referer referer = origin_of (urlsplit referer)

  -- `request.headers.get("referer")`, where the origin is absent or empty.
  abbrev fall_back : Option String → Result Rejection (Option String)
  fall_back none = ok none
  fall_back (some referer) = if referer == "" then ok none else origin_from_referer referer

  abbrev or_referer : Option String → Option String → Result Rejection (Option String)
  or_referer none referer = fall_back referer
  or_referer (some origin) referer = if origin == "" then fall_back referer else ok (some origin)

  unfoldable pub effective_origin : Request → Result Rejection (Option String)
  effective_origin request = or_referer request.origin request.referer

  -- `(value or "").lower()`
  abbrev pub lowered : Option String → String
  lowered none = lower ""
  lowered (some s) = lower s

  abbrev in_allowed : Option String → List String → Bool
  in_allowed none allowed = false
  in_allowed (some origin) allowed = member origin allowed

  abbrev check :
      List String → Request → Result Rejection (Option String) → Result Rejection (Unit {0})
  check allowed request (err e) = err e
  check allowed request (ok candidate) =
      if not (in_allowed candidate allowed)
      then err origin_denied
      else if lowered request.sec_fetch_site == "cross-site"
      then err fetch_metadata
      else if not (is_text request.x_litemcp_request "1")
      then err csrf_header
      else ok tt

  unfoldable pub require_cookie_write_csrf : List String → Request → Result Rejection (Unit {0})
  require_cookie_write_csrf allowed request = check allowed request (effective_origin request)

  -- The origin that a request states: its own, or that of the page it names.
  abbrev pub States : Request → String → Type 0
  States request origin =
      ((request.origin ≡ some origin) × (origin ≢ ""))
      ⊎ (((request.origin ≡ none) ⊎ (request.origin ≡ some ""))
          × ((referer : String) × (scheme : String) × (netloc : String) × (request.referer
                ≡ some referer)
              × (referer ≢ "")
              × (urlsplit referer ≡ some (scheme, netloc))
              × ((scheme ≡ "http") ⊎ (scheme ≡ "https"))
              × (netloc ≢ "")
              × (origin ≡ scheme & "://" & netloc)))

  accepts-check :
      (allowed : List String) (request : Request) (r : Result Rejection (Option String))
      → check allowed request r ≡ ok tt
      → (origin : String) × (r ≡ ok (some origin))
        × (member origin allowed ≡ true)
        × (lowered request.sec_fetch_site ≢ "cross-site")
        × (request.x_litemcp_request ≡ some "1")
  accepts-check allowed request (err e) h = cc
  accepts-check allowed request (ok none) h = cc
  accepts-check allowed request (ok (some origin)) h = (
    origin,
    refl,
    ground arith,
    ground (arith, eq_iff (lowered request.sec_fetch_site) "cross-site"),
    one request.x_litemcp_request (ground arith),
  )

  falls :
      (origin referer : Option String)
      → (origin ≡ none) ⊎ (origin ≡ some "")
      → or_referer origin referer ≡ fall_back referer
  falls none referer a = refl
  falls (some origin) referer a = ground (arith, eq_iff origin "")

  -- A page of http or https with a host.
  origin-http :
      (scheme netloc : String)
      → (scheme ≡ "http") ⊎ (scheme ≡ "https")
      → netloc ≢ ""
      → origin_of (some (scheme, netloc)) ≡ ok (some (scheme & "://" & netloc))
  origin-http scheme netloc s n =
      ground (arith, eq_iff scheme "http", eq_iff scheme "https", eq_iff netloc "")

  from-States :
      (request : Request) (origin : String)
      → States request origin
      → effective_origin request ≡ ok (some origin)
  unfolding effective_origin origin_from_referer
  from-States request origin (inl (e, ne)) = rw e (rw (str_ne origin "" ne) refl)
  from-States request origin (inr (a, (referer, scheme, netloc, r, ne, u, s, n, e))) =
      falls request.origin request.referer a
      ∙ rw (r, str_ne referer "" ne, u, e) (origin-http scheme netloc s n)

  -- What is read from a referer.
  abbrev IsReferred : Option String → String → Type 0
  IsReferred header origin =
      (referer : String) × (scheme : String) × (netloc : String) × (header ≡ some referer)
      × (referer ≢ "")
      × (urlsplit referer ≡ some (scheme, netloc))
      × ((scheme ≡ "http") ⊎ (scheme ≡ "https"))
      × (netloc ≢ "")
      × (origin ≡ scheme & "://" & netloc)

  to-IsReferred :
      (header : Option String) (origin : String)
      → fall_back header ≡ ok (some origin)
      → IsReferred header origin
  unfolding origin_from_referer
  to-IsReferred none origin h = cc
  to-IsReferred (some referer) origin h = elim (Option-cases (urlsplit referer)) [
    | inl u ↦ ground arith
    | inr ((scheme, netloc), u) ↦ (
      referer,
      scheme,
      netloc,
      refl,
      ground (arith, eq_iff referer ""),
      u,
      ground (arith, eq_iff scheme "http", eq_iff scheme "https"),
      ground (arith, eq_iff netloc ""),
      ground arith,
    )
  ]

  to-States :
      (request : Request) (origin : String)
      → effective_origin request ≡ ok (some origin)
      → States request origin
  unfolding effective_origin
  to-States request origin h = elim (Option-cases request.origin) [
    | inl e ↦ inr (
      inl e,
      to-IsReferred request.referer origin (sym (falls request.origin request.referer (inl e)) ∙ h),
    )
    | inr (o, e) ↦ elim (Bool-cases (o == "")) [
      | inl q ↦ inr (
        inr (e ∙ ap some ((eq_iff o "").0 q)),
        to-IsReferred request.referer origin (
            sym (falls request.origin request.referer (inr (e ∙ ap some ((eq_iff o "").0 q)))) ∙ h),
      )
      | inr q ↦ ground (arith, eq_iff o "")
    ]
  ]

  -- A write is accepted exactly if the origin that the request states is one of the allowed, the
  -- browser does not call it cross-site, and the header of the client is there.
  pub require_cookie_write_csrf_iff :
      (allowed : List String) (request : Request)
      → (require_cookie_write_csrf allowed request ≡ ok tt) ↔ (
          (origin : String) × States request origin
          × (member origin allowed ≡ true)
          × (lowered request.sec_fetch_site ≢ "cross-site")
          × (request.x_litemcp_request ≡ some "1"))
  unfolding require_cookie_write_csrf
  require_cookie_write_csrf_iff allowed request = (
    λ h.
        let (origin, e, m, f, x) = accepts-check allowed request (effective_origin request) h in
        (origin, to-States request origin e, m, f, x),
    λ (origin, s, m, f, x).
        rw
          (
            from-States request origin s,
            m,
            str_ne (lowered request.sec_fetch_site) "cross-site" f,
            x,
          )
          refl,
  )
