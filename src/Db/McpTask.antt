-- ===== src/Db/McpTask.antt =====
-- backend/src/litemcp/db/models.py: the table `mcp_task`. JSON documents are their text,
-- and a `Numeric(10, 2)` is a number of hundredths.
use lite_mcp.Base.{String, ℕ, Bool, Option, member, ◌&&◌, [], ◌∷◌}
use lite_mcp.Base.Integer.{ℤ, pos, leb}
use lite_mcp.Base.Maybe.{null_or}
use lite_mcp.Platform.Time.{Datetime}

pub record McpTask : Type 0 where
  pub id : ℕ
  pub service_id : ℕ
  pub tool_id : ℕ
  pub session_id_hash : Option String
  pub downstream_task_id : Option String
  pub status : String
  pub status_message : Option String
  pub result_artifact_id : Option ℕ
  pub created_at : Datetime
  pub last_updated_at : Datetime
  pub expires_at : Option Datetime
  pub poll_interval_ms : Option ℤ

-- The CHECK constraints of the table.
unfoldable pub check_mcp_task : McpTask → Bool
check_mcp_task t =
    member t.status ("working" ∷ "input_required" ∷ "completed" ∷ "failed" ∷ "cancelled" ∷ [])
    && null_or (leb (pos 1)) t.poll_interval_ms
