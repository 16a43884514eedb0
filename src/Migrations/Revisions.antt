-- ===== src/Migrations/Revisions.antt =====
-- backend/migrations/versions: the revisions, and what each does and undoes.
pub mod BootstrapRoot
pub mod UserTeam
pub mod Service
pub mod ConfigRevision
pub mod Toolset
pub mod ArtifactBuild
pub mod ConditionTask
pub mod PermissionKey
pub mod AuditOutbox
pub mod SoftDelete
pub mod BootstrapLock
use lite_mcp.Base.{Option, none, some, List, [], ◌∷◌}
use lite_mcp.Migrations.{Op}
use lite_mcp.Migrations.Revisions.BootstrapRoot.{upgrade_bootstrap_root, downgrade_bootstrap_root}
use lite_mcp.Migrations.Revisions.UserTeam.{upgrade_user_team, downgrade_user_team}
use lite_mcp.Migrations.Revisions.Service.{upgrade_service, downgrade_service}
use lite_mcp.Migrations.Revisions.ConfigRevision.{
  upgrade_config_revision, downgrade_config_revision,
}
use lite_mcp.Migrations.Revisions.Toolset.{upgrade_toolset, downgrade_toolset}
use lite_mcp.Migrations.Revisions.ArtifactBuild.{upgrade_artifact_build, downgrade_artifact_build}
use lite_mcp.Migrations.Revisions.ConditionTask.{upgrade_condition_task, downgrade_condition_task}
use lite_mcp.Migrations.Revisions.PermissionKey.{upgrade_permission_key, downgrade_permission_key}
use lite_mcp.Migrations.Revisions.AuditOutbox.{upgrade_audit_outbox, downgrade_audit_outbox}
use lite_mcp.Migrations.Revisions.SoftDelete.{upgrade_soft_delete, downgrade_soft_delete}
use lite_mcp.Migrations.Revisions.BootstrapLock.{upgrade_bootstrap_lock, downgrade_bootstrap_lock}

pub data Revision : Type 0 where
  bootstrap_root user_team service config_revision toolset artifact_build condition_task
        permission_key audit_outbox soft_delete bootstrap_lock :
      Revision

-- `upgrade`
abbrev pub upgrade : Revision → List Op
upgrade bootstrap_root = upgrade_bootstrap_root
upgrade user_team = upgrade_user_team
upgrade service = upgrade_service
upgrade config_revision = upgrade_config_revision
upgrade toolset = upgrade_toolset
upgrade artifact_build = upgrade_artifact_build
upgrade condition_task = upgrade_condition_task
upgrade permission_key = upgrade_permission_key
upgrade audit_outbox = upgrade_audit_outbox
upgrade soft_delete = upgrade_soft_delete
upgrade bootstrap_lock = upgrade_bootstrap_lock

-- `downgrade`
abbrev pub downgrade : Revision → List Op
downgrade bootstrap_root = downgrade_bootstrap_root
downgrade user_team = downgrade_user_team
downgrade service = downgrade_service
downgrade config_revision = downgrade_config_revision
downgrade toolset = downgrade_toolset
downgrade artifact_build = downgrade_artifact_build
downgrade condition_task = downgrade_condition_task
downgrade permission_key = downgrade_permission_key
downgrade audit_outbox = downgrade_audit_outbox
downgrade soft_delete = downgrade_soft_delete
downgrade bootstrap_lock = downgrade_bootstrap_lock

-- `down_revision`
abbrev pub down_revision : Revision → Option Revision
down_revision bootstrap_root = none
down_revision user_team = some bootstrap_root
down_revision service = some user_team
down_revision config_revision = some service
down_revision toolset = some config_revision
down_revision artifact_build = some toolset
down_revision condition_task = some artifact_build
down_revision permission_key = some condition_task
down_revision audit_outbox = some permission_key
down_revision soft_delete = some audit_outbox
down_revision bootstrap_lock = some soft_delete

-- The revisions from the first to the head.
abbrev pub history : List Revision
history =
    bootstrap_root ∷ user_team ∷ service ∷ config_revision ∷ toolset ∷ artifact_build
    ∷ condition_task ∷ permission_key ∷ audit_outbox ∷ soft_delete ∷ bootstrap_lock ∷ []
