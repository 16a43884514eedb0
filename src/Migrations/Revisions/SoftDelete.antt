-- ===== src/Migrations/Revisions/SoftDelete.antt =====
-- backend/migrations/versions/m1_delete_001_soft_delete.py
use lite_mcp.Base.{List, [], ◌∷◌}
use lite_mcp.Migrations.{Op, create_check_constraint, drop_constraint}

abbrev pub upgrade_soft_delete : List Op
upgrade_soft_delete =
    create_check_constraint "ck_mcp_service_deleted_scope_consistency" "mcp_service"
      "(deleted_at IS NULL AND uniqueness_scope = 'LIVE') OR (deleted_at IS NOT NULL AND uniqueness_scope <> 'LIVE')"
    ∷ []

abbrev pub downgrade_soft_delete : List Op
downgrade_soft_delete =
    drop_constraint "ck_mcp_service_deleted_scope_consistency" "mcp_service" ∷ []
