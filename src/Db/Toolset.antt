-- ===== src/Db/Toolset.antt =====
-- backend/src/litemcp/db/models.py: the table `toolset`. JSON documents are their text,
-- and a `Numeric(10, 2)` is a number of hundredths.
use lite_mcp.Base.{String, ℕ, Bool, Option, member, ◌&&◌, [], ◌∷◌}
use lite_mcp.Base.Integer.{ℤ, pos, leb}
use lite_mcp.Platform.Time.{Datetime}

pub record Toolset : Type 0 where
  pub id : ℕ
  pub service_id : ℕ
  pub config_revision_id : Option ℕ
  pub version_no : ℤ
  pub source_kind : String
  pub source_digest : String
  pub mcp_protocol_version : String
  pub json_schema_dialect : String
  pub server_capabilities : Option String
  pub server_info : Option String
  pub instructions : Option String
  pub state : String
  pub validation_report : Option String
  pub tool_count : ℤ
  pub activated_at : Option Datetime
  pub retired_at : Option Datetime
  pub created_at : Datetime
  pub created_by : String
  pub updated_at : Datetime
  pub updated_by : String
  pub row_version : ℤ

-- The CHECK constraints of the table.
unfoldable pub check_toolset : Toolset → Bool
check_toolset t =
    member t.source_kind ("manual" ∷ "fastmcp" ∷ "descriptor" ∷ "remote_mcp" ∷ [])
    && member t.state
        ("staging" ∷ "validating" ∷ "validated" ∷ "active" ∷ "rejected" ∷ "retired" ∷ [])
    && leb (pos 0) t.tool_count
