-- ===== src/Migrations/Tests.antt =====
-- The revisions from the empty schema to the head, and back.
use lite_mcp.Base.{true, false, all, Option, none, some, List, [], ◌∷◌, ◌≡◌, refl}
use lite_mcp.Migrations.{Schema, apply, run, has_table, targets_of}
use lite_mcp.Migrations.Revisions.{
  Revision, history, down_revision, bootstrap_root, user_team, service, config_revision, toolset,
  artifact_build, condition_task, permission_key, audit_outbox, soft_delete, bootstrap_lock,
}
use lite_mcp.Migrations.Revisions.UserTeam.{user_table, team_table, team_membership_table}
use lite_mcp.Migrations.Altered.{IsClosed}
use lite_mcp.Migrations.Head.{history_applies}
use lite_mcp.Migrations.Limits.{table_fits, row_size, bytes_of, key_size, within_limits}
use lite_mcp.Migrations.Models.Artifacts.{service_artifact_model}
use lite_mcp.Db.Types.{enum_length, longest}
use lite_mcp.Base.Length.{len}
use lite_mcp.Migrations.Undone.{migrate, rollback, rollback_undoes}

abbrev IsChain : Option Revision → List Revision → Type 0
IsChain before [] = Unit
IsChain before (r ∷ rs) = (down_revision r ≡ before) × IsChain (some r) rs

history-IsChain : IsChain none history
history-IsChain =
    (refl, (refl, (refl, (refl, (refl, (refl, (refl, (refl, (refl, (refl, (refl, tt)))))))))))

history_applies_example :
    (s : Schema) × (migrate (bootstrap_root ∷ user_team ∷ []) [] ≡ some s)
    × IsClosed s
    × (rollback (bootstrap_root ∷ user_team ∷ []) s ≡ some [])
history_applies_example =
    history_applies (bootstrap_root ∷ user_team ∷ [])
      (service ∷ config_revision ∷ toolset ∷ artifact_build ∷ condition_task ∷ permission_key
        ∷ audit_outbox ∷ soft_delete ∷ bootstrap_lock ∷ [])
      refl

abbrev accounts : Schema
accounts = team_membership_table ∷ team_table ∷ user_table ∷ []

rollback_undoes_example : rollback (bootstrap_root ∷ user_team ∷ []) accounts ≡ some []
unfolding migrate run apply has_table targets_of
rollback_undoes_example = rollback_undoes (bootstrap_root ∷ user_team ∷ []) [] accounts tt refl

within_limits_example : all table_fits accounts ≡ true
unfolding migrate run apply has_table targets_of
within_limits_example =
    within_limits (bootstrap_root ∷ user_team ∷ [])
      (service ∷ config_revision ∷ toolset ∷ artifact_build ∷ condition_task ∷ permission_key
        ∷ audit_outbox ∷ soft_delete ∷ bootstrap_lock ∷ [])
      accounts refl refl

-- The table of the metadata, which does not give the object key the single-byte character set, has a
-- key that MySQL refuses.
wide_key : table_fits service_artifact_model ≡ false
unfolding row_size bytes_of key_size enum_length longest len
wide_key = refl
