-- ===== src/Db/Service.antt =====
-- backend/src/litemcp/db/models.py: the table `mcp_service`. JSON documents are their text,
-- and a `Numeric(10, 2)` is a number of hundredths.
use lite_mcp.Base.{String, ℕ, Bool, Option, member, ◌&&◌, ◌||◌, ◌==◌, not, is_none, [], ◌∷◌}
use lite_mcp.Base.Integer.{ℤ, leb}
use lite_mcp.Platform.Time.{Datetime}

pub record Service : Type 0 where
  pub id : ℕ
  pub namespace_key : String
  pub team_id : ℕ
  pub type : String
  pub name : String
  pub name_normalized : String
  pub uniqueness_scope : String
  pub tags : String
  pub description : Option String
  pub icon_object_key : Option String
  pub desired_status : String
  pub generation : ℤ
  pub observed_generation : ℤ
  pub runtime_status : String
  pub active_config_revision_id : Option ℕ
  pub active_toolset_id : Option ℕ
  pub agent_auth_mode : String
  pub rate_limit_qps : Option ℤ
  pub rate_limit_burst : Option ℤ
  pub queue_max_depth : Option ℤ
  pub queue_timeout_ms : Option ℤ
  pub stdio_instance_max : Option ℤ
  pub stdio_concurrency_per_instance : Option ℤ
  pub created_at : Datetime
  pub created_by : String
  pub updated_at : Datetime
  pub updated_by : String
  pub row_version : ℤ
  pub deleted_at : Option Datetime
  pub deleted_by : Option String

-- The CHECK constraints of the table.
unfoldable pub check_mcp_service : Service → Bool
check_mcp_service s =
    member s.type ("http_api" ∷ "stdio" ∷ "mcp_http" ∷ [])
    && member s.desired_status ("enabled" ∷ "disabled" ∷ [])
    && member s.runtime_status ("pending" ∷ "ready" ∷ "degraded" ∷ "unhealthy" ∷ "failed" ∷ [])
    && member s.agent_auth_mode ("api_key" ∷ "none" ∷ "oauth2" ∷ [])
    && leb s.observed_generation s.generation
    && (s.type == "stdio"
        || is_none s.queue_max_depth
          && is_none s.queue_timeout_ms
          && is_none s.stdio_instance_max
          && is_none s.stdio_concurrency_per_instance)
    && (is_none s.deleted_at && s.uniqueness_scope == "LIVE"
        || not (is_none s.deleted_at) && not (s.uniqueness_scope == "LIVE"))
