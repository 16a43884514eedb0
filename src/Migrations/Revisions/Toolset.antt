-- ===== src/Migrations/Revisions/Toolset.antt =====
-- backend/migrations/versions/m1_model_004_toolset.py
use lite_mcp.Base.{List, [], ◌∷◌, ◌++◌}
use lite_mcp.Migrations.{
  Table, Op, uuid, utc_ts, json_doc, long_text, enum_code, varchar, integer, big_integer, boolean,
  default_text, default_true, unique_constraint, check_constraint, foreign_key, create_table,
  drop_table,
}
use lite_mcp.Migrations.Columns.{required, nullable, primary, defaulted, audit_columns}

abbrev pub toolset_table : Table
toolset_table = record {
  name = "toolset";
  columns =
      (primary "id" uuid
        ∷ required "service_id" uuid
        ∷ nullable "config_revision_id" uuid
        ∷ required "version_no" big_integer
        ∷ required "source_kind"
            (enum_code ("manual" ∷ "fastmcp" ∷ "descriptor" ∷ "remote_mcp" ∷ []))
        ∷ required "source_digest" (varchar 64)
        ∷ required "mcp_protocol_version" (varchar 16)
        ∷ defaulted (default_text "https://json-schema.org/draft/2020-12/schema")
            (required "json_schema_dialect" (varchar 128))
        ∷ nullable "server_capabilities" json_doc
        ∷ nullable "server_info" json_doc
        ∷ nullable "instructions" long_text
        ∷ required "state" (
            enum_code
              ("staging" ∷ "validating" ∷ "validated" ∷ "active" ∷ "rejected" ∷ "retired" ∷ []))
        ∷ nullable "validation_report" json_doc
        ∷ required "tool_count" integer
        ∷ nullable "activated_at" utc_ts
        ∷ nullable "retired_at" utc_ts
        ∷ [])
      ++ audit_columns;
  constraints =
      foreign_key "" ("service_id" ∷ []) "mcp_service" ("id" ∷ []) "RESTRICT"
      ∷ foreign_key "" ("config_revision_id" ∷ []) "service_config_revision" ("id" ∷ []) ""
      ∷ check_constraint "ck_toolset_source_kind"
          "source_kind IN ('manual', 'fastmcp', 'descriptor', 'remote_mcp')"
      ∷ check_constraint "ck_toolset_state"
          "state IN ('staging', 'validating', 'validated', 'active', 'rejected', 'retired')"
      ∷ check_constraint "ck_toolset_tool_count" "tool_count >= 0"
      ∷ unique_constraint "uq_toolset_service_version" ("service_id" ∷ "version_no" ∷ [])
      ∷ unique_constraint "uq_toolset_id_service" ("id" ∷ "service_id" ∷ [])
      ∷ [];
}

abbrev pub mcp_tool_table : Table
mcp_tool_table = record {
  name = "mcp_tool";
  columns =
      (primary "id" uuid
        ∷ required "toolset_id" uuid
        ∷ required "service_id" uuid
        ∷ required "name" (varchar 128)
        ∷ nullable "title" (varchar 256)
        ∷ nullable "description" long_text
        ∷ required "input_schema" json_doc
        ∷ nullable "output_schema" json_doc
        ∷ nullable "annotations" json_doc
        ∷ nullable "execution" json_doc
        ∷ nullable "icons" json_doc
        ∷ nullable "meta" json_doc
        ∷ required "raw_definition" json_doc
        ∷ required "definition_digest" (varchar 64)
        ∷ required "source" (enum_code ("manual" ∷ "synced" ∷ []))
        ∷ nullable "http_binding" json_doc
        ∷ defaulted default_true (required "enabled" boolean)
        ∷ [])
      ++ audit_columns;
  constraints =
      foreign_key "" ("toolset_id" ∷ []) "toolset" ("id" ∷ []) "CASCADE"
      ∷ foreign_key "" ("service_id" ∷ []) "mcp_service" ("id" ∷ []) ""
      ∷ check_constraint "ck_mcp_tool_source" "source IN ('manual', 'synced')"
      ∷ unique_constraint "uq_mcp_tool_toolset_name" ("toolset_id" ∷ "name" ∷ [])
      ∷ foreign_key "fk_mcp_tool_toolset_service" ("toolset_id" ∷ "service_id" ∷ []) "toolset"
          ("id" ∷ "service_id" ∷ []) "CASCADE"
      ∷ [];
}

abbrev pub upgrade_toolset : List Op
upgrade_toolset = create_table toolset_table ∷ create_table mcp_tool_table ∷ []

abbrev pub downgrade_toolset : List Op
downgrade_toolset = drop_table "mcp_tool" ∷ drop_table "toolset" ∷ []
