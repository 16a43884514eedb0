-- ===== src/Migrations/Revisions/ConfigRevision.antt =====
-- backend/migrations/versions/m1_model_003_config_revision.py
use lite_mcp.Base.{List, [], ◌∷◌}
use lite_mcp.Migrations.{
  Table, Op, uuid, utc_ts, json_doc, enum_code, varchar, integer, big_integer, unique_constraint,
  check_constraint, foreign_key, create_table, drop_table,
}
use lite_mcp.Migrations.Columns.{required, nullable, primary}

abbrev pub service_config_revision_table : Table
service_config_revision_table = record {
  name = "service_config_revision";
  columns =
      (primary "id" uuid
        ∷ required "service_id" uuid
        ∷ required "generation" big_integer
        ∷ required "schema_version" integer
        ∷ required "config_kind" (enum_code ("http_api" ∷ "stdio" ∷ "mcp_http" ∷ []))
        ∷ required "public_config" json_doc
        ∷ nullable "secret_blob_id" uuid
        ∷ nullable "source_descriptor" json_doc
        ∷ required "source_mode"
            (enum_code ("fastmcp_introspection" ∷ "descriptor" ∷ "manual" ∷ "remote_sync" ∷ []))
        ∷ required "config_digest" (varchar 64)
        ∷ required "state" (
            enum_code
              ("draft" ∷ "validating" ∷ "validated" ∷ "active" ∷ "rejected" ∷ "superseded" ∷ []))
        ∷ nullable "validation_report" json_doc
        ∷ nullable "activated_at" utc_ts
        ∷ nullable "superseded_at" utc_ts
        ∷ required "created_at" utc_ts
        ∷ required "created_by" (varchar 128)
        ∷ []);
  constraints =
      foreign_key "" ("service_id" ∷ []) "mcp_service" ("id" ∷ []) "RESTRICT"
      ∷ check_constraint "ck_service_config_revision_config_kind"
          "config_kind IN ('http_api', 'stdio', 'mcp_http')"
      ∷ check_constraint "ck_service_config_revision_source_mode"
          "source_mode IN ('fastmcp_introspection', 'descriptor', 'manual', 'remote_sync')"
      ∷ check_constraint "ck_service_config_revision_state"
          "state IN ('draft', 'validating', 'validated', 'active', 'rejected', 'superseded')"
      ∷ unique_constraint "uq_service_config_revision_service_generation"
          ("service_id" ∷ "generation" ∷ [])
      ∷ unique_constraint "uq_service_config_revision_id_service" ("id" ∷ "service_id" ∷ [])
      ∷ [];
}

abbrev pub upgrade_config_revision : List Op
upgrade_config_revision = create_table service_config_revision_table ∷ []

abbrev pub downgrade_config_revision : List Op
downgrade_config_revision = drop_table "service_config_revision" ∷ []
