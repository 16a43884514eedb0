-- ===== src/Config/Load/Tests.antt =====
-- The theorem on the settings at three calls: the first fails, and the third finds another environment.
use lite_mcp.Base.{String, none, some, List, [], ◌∷◌, ◌≡◌, ◌≢◌, ◌⊎◌, inl, inr, refl, IsIn}
use lite_mcp.Base.Text.{split}
use lite_mcp.Base.Exec.{ok}
use lite_mcp.Platform.Jwt.{Json}
use lite_mcp.Platform.Memory.Sample.{sample_settings}
use lite_mcp.Config.{Settings, prod}
use lite_mcp.Config.Lists.{not_blank, find_blank}
use lite_mcp.Config.Production.{IsSafe, refuse_unsafe_production}
use lite_mcp.Config.Load.{
  Environ, absent, raw, load, results, get_settings, parse_previous_jwt_keys, one_configuration,
}

abbrev environ : Environ
environ = record {
  others = sample_settings;
  encryption_keys = some "k2,k1";
  allowed_origins = none;
  trusted_proxies = none;
  admin_jwt_previous_keys = absent;
}

abbrev malformed : Environ
malformed = record environ { admin_jwt_previous_keys = raw "{" }

abbrev other_origin : Environ
other_origin = record environ { allowed_origins = some "https://b" }

abbrev loaded : Settings
loaded = record sample_settings {
  encryption_keys = "k2" ∷ "k1" ∷ [];
  allowed_origins = [];
  trusted_proxies = [];
  admin_jwt_previous_keys = [];
}

abbrev three_calls : List Environ
three_calls = malformed ∷ environ ∷ other_origin ∷ []

abbrev str : Json → String
str json = ""

one_configuration_example :
    (loaded ≡ loaded)
    × ((env : Environ) × IsIn env three_calls
        × (load (λ s. s) (λ s. s) (λ s. none) str env ≡ ok loaded))
    × ((loaded.environment ≢ prod) ⊎ IsSafe (λ s. s) loaded)
unfolding results get_settings load parse_previous_jwt_keys not_blank find_blank split
    refuse_unsafe_production
one_configuration_example =
    one_configuration (λ s. s) (λ s. s) (λ s. none) str three_calls loaded loaded (inr (inl refl))
      (inr (inr (inl refl)))
