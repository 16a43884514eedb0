-- ===== src/Db/McpServicePermission.antt =====
-- backend/src/litemcp/db/models.py: the table `mcp_service_permission`. JSON documents are their text,
-- and a `Numeric(10, 2)` is a number of hundredths.
use lite_mcp.Base.{String, ℕ, Bool, Option, member, ◌&&◌, ◌||◌, ◌==◌, not, is_none, [], ◌∷◌}
use lite_mcp.Base.Integer.{ℤ}
use lite_mcp.Platform.Time.{Datetime}

pub record McpServicePermission : Type 0 where
  pub id : ℕ
  pub service_id : ℕ
  pub principal_type : String
  pub user_id : Option ℕ
  pub team_id : Option ℕ
  pub role : String
  pub principal_key : String
  pub created_at : Datetime
  pub created_by : String
  pub updated_at : Datetime
  pub updated_by : String
  pub row_version : ℤ

-- The CHECK constraints of the table.
unfoldable pub check_mcp_service_permission : McpServicePermission → Bool
check_mcp_service_permission p =
    member p.principal_type ("user" ∷ "team" ∷ "everyone" ∷ [])
    && member p.role ("editor" ∷ "viewer" ∷ [])
    && (p.principal_type == "user" && not (is_none p.user_id)
        || not (p.principal_type == "user") && is_none p.user_id)
    && (p.principal_type == "team" && not (is_none p.team_id)
        || not (p.principal_type == "team") && is_none p.team_id)
    && (p.principal_type == "user" || p.role == "viewer")
