-- ===== src/Db/ServiceCondition.antt =====
-- backend/src/litemcp/db/models.py: the table `service_condition`. JSON documents are their text,
-- and a `Numeric(10, 2)` is a number of hundredths.
use lite_mcp.Base.{String, ℕ, Bool, Option, member, ◌&&◌, [], ◌∷◌}
use lite_mcp.Base.Integer.{ℤ}
use lite_mcp.Platform.Time.{Datetime}

pub record ServiceCondition : Type 0 where
  pub id : ℕ
  pub service_id : ℕ
  pub type : String
  pub status : String
  pub reason : String
  pub message : Option String
  pub observed_generation : ℤ
  pub last_transition_at : Datetime
  pub last_probe_at : Option Datetime
  pub created_at : Datetime
  pub created_by : String
  pub updated_at : Datetime
  pub updated_by : String
  pub row_version : ℤ

-- The CHECK constraints of the table.
unfoldable pub check_service_condition : ServiceCondition → Bool
check_service_condition c =
    member c.type
      ("ConfigReady" ∷ "BuildReady" ∷ "ToolsReady" ∷ "RuntimeHealthy" ∷ "UpstreamReachable" ∷ [])
    && member c.status ("true" ∷ "false" ∷ "unknown" ∷ [])
