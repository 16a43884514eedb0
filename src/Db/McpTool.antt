-- ===== src/Db/McpTool.antt =====
-- backend/src/litemcp/db/models.py: the table `mcp_tool`. JSON documents are their text,
-- and a `Numeric(10, 2)` is a number of hundredths.
use lite_mcp.Base.{String, ℕ, Bool, Option, member, [], ◌∷◌}
use lite_mcp.Base.Integer.{ℤ}
use lite_mcp.Platform.Time.{Datetime}

pub record McpTool : Type 0 where
  pub id : ℕ
  pub toolset_id : ℕ
  pub service_id : ℕ
  pub name : String
  pub title : Option String
  pub description : Option String
  pub input_schema : String
  pub output_schema : Option String
  pub annotations : Option String
  pub execution : Option String
  pub icons : Option String
  pub meta : Option String
  pub raw_definition : String
  pub definition_digest : String
  pub source : String
  pub http_binding : Option String
  pub enabled : Bool
  pub created_at : Datetime
  pub created_by : String
  pub updated_at : Datetime
  pub updated_by : String
  pub row_version : ℤ

-- The CHECK constraints of the table.
unfoldable pub check_mcp_tool : McpTool → Bool
check_mcp_tool t = member t.source ("manual" ∷ "synced" ∷ [])
