-- ===== src/Config/Production/Tests.antt =====
-- The theorem on production at concrete settings.
use lite_mcp.Base.{◌≡◌, ◌≢◌, ◌↔◌, ◌⊎◌}
use lite_mcp.Base.Exec.{ok}
use lite_mcp.Platform.Memory.Sample.{sample_settings}
use lite_mcp.Config.{Settings, prod}
use lite_mcp.Config.Production.{refuse_unsafe_production, IsSafe, refuse_unsafe_production_iff}

abbrev production : Settings
production = record sample_settings { environment = prod }

refuse_unsafe_production_iff_example :
    (refuse_unsafe_production (λ s. s) production ≡ ok production)
    ↔ ((production.environment ≢ prod) ⊎ IsSafe (λ s. s) production)
refuse_unsafe_production_iff_example = refuse_unsafe_production_iff (λ s. s) production
