-- ===== src/Migrations/Revisions/BootstrapLock.antt =====
-- backend/migrations/versions/m2_auth_001_bootstrap_lock.py
use lite_mcp.Base.{List, [], ◌∷◌}
use lite_mcp.Migrations.{Table, Op, integer, create_table, drop_table, bulk_insert}
use lite_mcp.Migrations.Columns.{primary}

abbrev pub bootstrap_lock_table : Table
bootstrap_lock_table = record {
  name = "bootstrap_lock";
  columns = (primary "id" integer ∷ []);
  constraints = [];
}

abbrev pub upgrade_bootstrap_lock : List Op
upgrade_bootstrap_lock = create_table bootstrap_lock_table ∷ bulk_insert "bootstrap_lock" ∷ []

abbrev pub downgrade_bootstrap_lock : List Op
downgrade_bootstrap_lock = drop_table "bootstrap_lock" ∷ []
