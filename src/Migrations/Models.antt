-- ===== src/Migrations/Models.antt =====
-- backend/src/litemcp/db/models.py: the metadata, as the tables that the classes declare. The defaults
-- that Python gives to a new object are left out.
pub mod Accounts
pub mod Services
pub mod Tools
pub mod Artifacts
pub mod Tasks
pub mod Access
pub mod Events
use lite_mcp.Base.{List, [], ◌∷◌}
use lite_mcp.Migrations.{Table}
use lite_mcp.Migrations.Models.Accounts.{user_model, team_model, team_membership_model}
use lite_mcp.Migrations.Models.Services.{mcp_service_model, service_config_revision_model}
use lite_mcp.Migrations.Models.Tools.{toolset_model, mcp_tool_model}
use lite_mcp.Migrations.Models.Artifacts.{service_artifact_model, build_run_model}
use lite_mcp.Migrations.Models.Tasks.{service_condition_model, mcp_task_model}
use lite_mcp.Migrations.Models.Access.{mcp_service_permission_model, api_key_model}
use lite_mcp.Migrations.Models.Events.{audit_event_model, outbox_model}

-- `Base.metadata`
abbrev pub metadata : List Table
metadata =
    user_model ∷ team_model ∷ team_membership_model ∷ mcp_service_model
    ∷ service_config_revision_model ∷ toolset_model ∷ mcp_tool_model ∷ service_artifact_model
    ∷ build_run_model ∷ service_condition_model ∷ mcp_task_model ∷ mcp_service_permission_model
    ∷ api_key_model ∷ audit_event_model ∷ outbox_model ∷ []
