-- ===== src/Config/Load.antt =====
-- backend/src/litemcp/core/config.py: the settings from the environment, through the validators, and
-- `get_settings` with its cache. pydantic is represented by the order of the validators and by the
-- other fields, which it parses; of the errors of several fields the first stands for all of them.
-- `json.loads`, `str` of a JSON value and the methods of texts are parameters.
mod Tests
use lite_mcp.Base.{
  String, Bool, true, false, Option, none, some, List, [], ◌∷◌, ◌≡◌, ◌≢◌, ◌⊎◌, inl, inr, refl, ap,
  sym, ◌∙◌, ◌==◌, arith, IsIn, All, if◌then◌else◌,
}
use lite_mcp.Base.Exec.{Result, ok, err, rename, Result-cases}
use lite_mcp.Base.Checks.{◌>>=◌, >>=-eq-ok}
use lite_mcp.Platform.Jwt.{Json, null, bool, int, float, text, array, object, Members, end, field}
use lite_mcp.Config.{Settings, prod}
use lite_mcp.Config.Lists.{ListError, split_csv, not_blank}
use lite_mcp.Config.Production.{
  Refusal, refuse_unsafe_production, refuse_unsafe_production_iff, refuse-eq-ok, IsSafe,
}

-- The value of `admin_jwt_previous_keys`: none, a text, or a dictionary.
pub data PreviousKeys : Type 0 where
  absent : PreviousKeys
  raw : String → PreviousKeys
  mapping : List (String × String) → PreviousKeys

-- What the environment says of the lists and of the keys, `none` where it says nothing; `others` has the fields that no validator of the file changes.
pub record Environ : Type 0 where
  pub others : Settings
  pub encryption_keys : Option String
  pub allowed_origins : Option String
  pub trusted_proxies : Option String
  pub admin_jwt_previous_keys : PreviousKeys

pub data SettingsError : Type 0 where
  missing_keys : SettingsError
  list_error : ListError → SettingsError
  not_json not_an_object : SettingsError
  refused : Refusal → SettingsError

-- `result[kid] = secret`
unfoldable put_key : String → String → List (String × String) → List (String × String)
put_key kid secret [] = (kid, secret) ∷ []
put_key kid secret ((k, v) ∷ keys) =
    let rest = put_key kid secret keys in if k == kid then (k, secret) ∷ keys else (k, v) ∷ rest

module _ (strip lower : String → String) (json_loads : String → Option Json)
    (str : Json → String) where
  -- `{str(kid): str(secret) for kid, secret in parsed.items()}`
  unfoldable as_keys : List (String × String) → Members → List (String × String)
  as_keys keys end = keys
  as_keys keys (field kid secret ms) = as_keys (put_key kid (str secret) keys) ms

  abbrev parsed_keys : Option Json → Result SettingsError (List (String × String))
  parsed_keys none = err not_json
  parsed_keys (some (object ms)) = ok (as_keys [] ms)
  parsed_keys (some _) = err not_an_object

  -- `_parse_previous_jwt_keys`
  pub parse_previous_jwt_keys : PreviousKeys → Result SettingsError (List (String × String))
  parse_previous_jwt_keys absent = ok []
  parse_previous_jwt_keys (raw s) = if s == "" then ok [] else parsed_keys (json_loads s)
  parse_previous_jwt_keys (mapping keys) = ok keys

  abbrev checked_list : String → Result SettingsError (List String)
  checked_list value = rename list_error (not_blank strip (split_csv strip value))

  -- The keys are required.
  abbrev required_keys : Option String → Result SettingsError (List String)
  required_keys none = err missing_keys
  required_keys (some value) = checked_list value

  -- A default is not validated.
  abbrev origins_of : Option String → Result SettingsError (List String)
  origins_of none = ok []
  origins_of (some value) = checked_list value

  abbrev proxies_of : Option String → List String
  proxies_of none = []
  proxies_of (some value) = split_csv strip value

  abbrev with_fields : Environ → List String → List String → List (String × String) → Settings
  with_fields env keys origins previous = record env.others {
    encryption_keys = keys;
    allowed_origins = origins;
    trusted_proxies = proxies_of env.trusted_proxies;
    admin_jwt_previous_keys = previous;
  }

  -- `Settings()`
  pub load : Environ → Result SettingsError Settings
  load env = required_keys env.encryption_keys >>= λ keys.
      origins_of env.allowed_origins >>= λ origins.
      parse_previous_jwt_keys env.admin_jwt_previous_keys >>= λ previous.
      rename refused (refuse_unsafe_production lower (with_fields env keys origins previous))

  abbrev remembered : Result SettingsError Settings → Option Settings
  remembered (ok s) = some s
  remembered (err e) = none

  -- `get_settings`: the cache keeps a result and no error.
  pub get_settings : Environ → Option Settings → Result SettingsError Settings × Option Settings
  get_settings env none = (load env, remembered (load env))
  get_settings env (some s) = (ok s, some s)

  -- What calls give one after another, each in an environment of its own.
  unfoldable pub results : List Environ → Option Settings → List (Result SettingsError Settings)
  results [] cache = []
  results (env ∷ envs) cache = let (r, cache') = get_settings env cache in r ∷ results envs cache'

  ok-inj : (s t : Settings) → ◌≡◌ {A = Result SettingsError Settings} (ok s) (ok t) → s ≡ t
  ok-inj s t h = cc

  same-cached : (envs : List Environ) (c s : Settings) → IsIn (ok s) (results envs (some c)) → c ≡ s
  unfolding results get_settings
  same-cached [] c s i = absurd i
  same-cached (env ∷ envs) c s (inl e) = cc
  same-cached (env ∷ envs) c s (inr i) = same-cached envs c s i

  after-ok :
      (r : Result SettingsError Settings) (c s : Settings) (envs : List Environ)
      → r ≡ ok c
      → IsIn (ok s) (r ∷ results envs (remembered r))
      → c ≡ s
  after-ok (ok d) c s envs e (inl q) = cc
  after-ok (ok d) c s envs e (inr i) = sym (ok-inj d c e) ∙ same-cached envs d s i
  after-ok (err x) c s envs e i = cc

  after-err :
      (r : Result SettingsError Settings) (x : SettingsError) (s : Settings) (envs : List Environ)
      → r ≡ err x
      → IsIn (ok s) (r ∷ results envs (remembered r))
      → IsIn (ok s) (results envs none)
  after-err (ok d) x s envs e i = absurd cc
  after-err (err y) x s envs e (inl q) = absurd cc
  after-err (err y) x s envs e (inr i) = i

  -- What the calls return is what one of the environments gives.
  IsIn-loaded :
      (envs : List Environ) (s : Settings)
      → IsIn (ok s) (results envs none)
      → (env : Environ) × IsIn env envs × (load env ≡ ok s)
  unfolding results get_settings
  IsIn-loaded [] s i = absurd i
  IsIn-loaded (env ∷ envs) s i = elim (Result-cases (load env)) [
    | inl (c, e) ↦ (env, inl refl, e ∙ ap ok (after-ok (load env) c s envs e i))
    | inr (x, e) ↦
        let (later, inside, given) = IsIn-loaded envs s (after-err (load env) x s envs e i) in
        (later, inr inside, given)
  ]

  same-results :
      (envs : List Environ) (s t : Settings)
      → IsIn (ok s) (results envs none)
      → IsIn (ok t) (results envs none)
      → s ≡ t
  unfolding results get_settings
  same-results [] s t i j = absurd i
  same-results (env ∷ envs) s t i j = elim (Result-cases (load env)) [
    | inl (c, e) ↦ sym (after-ok (load env) c s envs e i) ∙ after-ok (load env) c t envs e j
    | inr (x, e) ↦
        same-results envs s t (after-err (load env) x s envs e i)
          (after-err (load env) x t envs e j)
  ]

  renamed-ok : (r : Result Refusal Settings) (t : Settings) → rename refused r ≡ ok t → r ≡ ok t
  renamed-ok (ok s) t h = cc
  renamed-ok (err e) t h = cc

  load-IsSafe :
      (env : Environ) (s : Settings) → load env ≡ ok s → (s.environment ≢ prod) ⊎ IsSafe lower s
  unfolding load
  load-IsSafe env s h =
      let (keys, _, h1) = >>=-eq-ok (required_keys env.encryption_keys) _ s h in
      let (origins, _, h2) = >>=-eq-ok (origins_of env.allowed_origins) _ s h1 in
      let (previous, _, h3) =
        >>=-eq-ok (parse_previous_jwt_keys env.admin_jwt_previous_keys) _ s h2 in
      let given = with_fields env keys origins previous in
      let passes = renamed-ok (refuse_unsafe_production lower given) s h3 in
      let same = refuse-eq-ok lower given s passes in
      (refuse_unsafe_production_iff lower s).0
        (ap (refuse_unsafe_production lower) (sym same) ∙ passes)

  -- Any number of calls, each in an environment of its own, return the same settings where they
  -- return any; these are what one of the environments gives, and outside production or safe.
  pub one_configuration :
      (envs : List Environ) (s t : Settings)
      → IsIn (ok s) (results envs none)
      → IsIn (ok t) (results envs none)
      → (s ≡ t)
        × ((env : Environ) × IsIn env envs × (load env ≡ ok s))
        × ((s.environment ≢ prod) ⊎ IsSafe lower s)
  one_configuration envs s t i j =
      let (env, inside, given) = IsIn-loaded envs s i in
      (same-results envs s t i j, (env, inside, given), load-IsSafe env s given)
