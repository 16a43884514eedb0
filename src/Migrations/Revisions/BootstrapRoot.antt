-- ===== src/Migrations/Revisions/BootstrapRoot.antt =====
-- backend/migrations/versions/m1_db_003_bootstrap_root.py
use lite_mcp.Base.{List, []}
use lite_mcp.Migrations.{Op}

abbrev pub upgrade_bootstrap_root : List Op
upgrade_bootstrap_root = []

abbrev pub downgrade_bootstrap_root : List Op
downgrade_bootstrap_root = []
