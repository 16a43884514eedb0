-- ===== src/Db/Outbox.antt =====
-- backend/src/litemcp/db/models.py: the table `outbox`. JSON documents are their text,
-- and a `Numeric(10, 2)` is a number of hundredths.
use lite_mcp.Base.{String, ℕ, Bool, Option, member, ◌&&◌, [], ◌∷◌}
use lite_mcp.Base.Integer.{ℤ, pos, leb}
use lite_mcp.Platform.Time.{Datetime}

pub record Outbox : Type 0 where
  pub id : ℕ
  pub event_type : String
  pub service_id : Option ℕ
  pub requested_generation : Option ℤ
  pub operation_kind : Option String
  pub payload : Option String
  pub status : String
  pub attempt_count : ℤ
  pub next_attempt_at : Option Datetime
  pub last_error : Option String
  pub created_at : Datetime
  pub processed_at : Option Datetime

-- The CHECK constraints of the table.
unfoldable pub check_outbox : Outbox → Bool
check_outbox o =
    member o.status ("pending" ∷ "in_flight" ∷ "done" ∷ "failed" ∷ [])
    && leb (pos 0) o.attempt_count
