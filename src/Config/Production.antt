-- ===== src/Config/Production.antt =====
-- backend/src/litemcp/core/config.py: `_refuse_unsafe_production`. `str.lower` is a parameter.
mod Tests
use lite_mcp.Base.{
  ℕ, String, Bool, true, false, List, [], ◌∷◌, ◌≡◌, ◌≢◌, ◌↔◌, ◌⊎◌, inl, inr, ap, false≢true, refl,
  ◌==◌, ◌||◌, ◌&&◌, not, ltb, any, all, All, ◌≤◌, member, arith, eq_iff, if◌then◌else◌,
}
use lite_mcp.Base.Exec.{Result, ok, err}
use lite_mcp.Config.{Settings, Environment, dev, test, prod}
use lite_mcp.Base.Length.{len}
use lite_mcp.Base.Slices.{contains}
use lite_mcp.Config.Fernet.{matches_fernet_key}

abbrev pub sample_key_markers : List String
sample_key_markers = "example" ∷ "changeme" ∷ "replace-me" ∷ "change-me" ∷ "sample" ∷ "your-" ∷ []

abbrev pub placeholder_markers : List String
placeholder_markers =
    "example" ∷ "changeme" ∷ "replace-me" ∷ "change-me" ∷ "sample" ∷ "your-" ∷ "insecure"
    ∷ "placeholder" ∷ "dev-only" ∷ []

-- The texts of the ValueErrors.
pub data Refusal : Type 0 where
  debug_forbidden origins_forbidden sample_keys weak_jwt_secret placeholder_issuer : Refusal

abbrev is_prod : Environment → Bool
is_prod dev = false
is_prod test = false
is_prod prod = true

dev-ne-prod : dev ≢ prod
dev-ne-prod e = false≢true (ap is_prod e)

test-ne-prod : test ≢ prod
test-ne-prod e = false≢true (ap is_prod e)

prod_cases : (e : Environment) → (e ≡ prod) ⊎ (e ≢ prod)
prod_cases dev = inr dev-ne-prod
prod_cases test = inr test-ne-prod
prod_cases prod = inl refl

not_prod : (e : Environment) → e ≢ prod → is_prod e ≡ false
not_prod dev n = refl
not_prod test n = refl
not_prod prod n = absurd (n refl)

one_real :
    (a b c : Bool) (P : Type 0)
    → (c ≡ true) ↔ P
    → (not (not a || b) && c ≡ true) ↔ (((a ≡ true) × (b ≡ false)) × P)
one_real a b c P (f, g) = ground arith

module _ (lower : String → String) where
  abbrev pub marked : List String → String → Bool
  marked markers s = any (λ marker. contains marker (lower s)) markers

  -- A round of the loop over the keys finds nothing wrong.
  abbrev real_key : String → Bool
  real_key key = not (not (matches_fernet_key key) || marked sample_key_markers key)

  unfoldable pub refuse_unsafe_production : Settings → Result Refusal Settings
  refuse_unsafe_production s =
      if not (is_prod s.environment)
      then ok s
      else if s.debug
      then err debug_forbidden
      else if member "*" s.allowed_origins || member "" s.allowed_origins
      then err origins_forbidden
      else if not (all real_key s.encryption_keys)
      then err sample_keys
      else if ltb (len s.admin_jwt_secret) 32 || marked placeholder_markers s.admin_jwt_secret
      then err weak_jwt_secret
      else if s.admin_jwt_issuer == "" || marked placeholder_markers s.admin_jwt_issuer
      then err placeholder_issuer
      else ok s

  -- What production asks of the settings.
  pub record IsSafe (s : Settings) : Type 0 where
    pub no_debug : s.debug ≡ false
    pub no_wildcard : member "*" s.allowed_origins ≡ false
    pub no_blank : member "" s.allowed_origins ≡ false
    pub real_keys :
        All
          (λ key. (matches_fernet_key key ≡ true) × (marked sample_key_markers key ≡ false))
          s.encryption_keys
    pub long_secret : 32 ≤ len s.admin_jwt_secret
    pub own_secret : marked placeholder_markers s.admin_jwt_secret ≡ false
    pub issuer : s.admin_jwt_issuer ≢ ""
    pub own_issuer : marked placeholder_markers s.admin_jwt_issuer ≡ false

  all_real :
      (keys : List String)
      → (all real_key keys ≡ true)
        ↔ All
            (λ key. (matches_fernet_key key ≡ true) × (marked sample_key_markers key ≡ false))
            keys
  all_real [] = ((λ h. tt), λ h. refl)
  all_real (key ∷ keys) =
      one_real (matches_fernet_key key) (marked sample_key_markers key) (all real_key keys) _
        (all_real keys)

  production-IsSafe :
      (s : Settings) → refuse_unsafe_production s ≡ ok s → s.environment ≡ prod → IsSafe s
  unfolding refuse_unsafe_production
  production-IsSafe s h e = record {
    no_debug = ground arith;
    no_wildcard = ground arith;
    no_blank = ground arith;
    real_keys = (all_real s.encryption_keys).0 (ground arith);
    long_secret = ground arith;
    own_secret = ground arith;
    issuer = ground (arith, eq_iff s.admin_jwt_issuer "");
    own_issuer = ground arith;
  }

  production_of_safe : (s : Settings) → IsSafe s → refuse_unsafe_production s ≡ ok s
  unfolding refuse_unsafe_production
  production_of_safe s safe = ground (
    arith,
    safe.no_debug,
    safe.no_wildcard,
    safe.no_blank,
    safe.long_secret,
    safe.own_secret,
    safe.issuer,
    safe.own_issuer,
    (all_real s.encryption_keys).1 safe.real_keys,
    eq_iff s.admin_jwt_issuer "",
  )

  elsewhere : (s : Settings) → s.environment ≢ prod → refuse_unsafe_production s ≡ ok s
  unfolding refuse_unsafe_production
  elsewhere s n = rw (not_prod s.environment n) refl

  -- What is accepted is handed on as it is.
  pub refuse-eq-ok : (s t : Settings) → refuse_unsafe_production s ≡ ok t → s ≡ t
  unfolding refuse_unsafe_production
  refuse-eq-ok s t h = ground arith

  -- Settings are accepted exactly outside production, or where they are safe: no debug mode, neither a
  -- wildcard nor a blank among the allowed origins, keys that all have the form of a Fernet key and
  -- bear no mark of a sample, a secret of 32 characters or more, an issuer, and no mark of a
  -- placeholder in either.
  pub refuse_unsafe_production_iff :
      (s : Settings) → (refuse_unsafe_production s ≡ ok s) ↔ ((s.environment ≢ prod) ⊎ IsSafe s)
  refuse_unsafe_production_iff s = (
    λ h. elim (prod_cases s.environment) [ inl e ↦ inr (production-IsSafe s h e) | inr n ↦ inl n ],
    λ c. elim c [ inl n ↦ elsewhere s n | inr safe ↦ production_of_safe s safe ],
  )
