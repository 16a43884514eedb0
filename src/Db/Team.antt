-- ===== src/Db/Team.antt =====
-- backend/src/litemcp/db/models.py: the table `team`. JSON documents are their text,
-- and a `Numeric(10, 2)` is a number of hundredths.
use lite_mcp.Base.{String, ℕ, Bool, Option, member, [], ◌∷◌}
use lite_mcp.Base.Integer.{ℤ}
use lite_mcp.Platform.Time.{Datetime}

pub record Team : Type 0 where
  pub id : ℕ
  pub key : String
  pub key_normalized : String
  pub name : String
  pub description : Option String
  pub status : String
  pub created_at : Datetime
  pub created_by : String
  pub updated_at : Datetime
  pub updated_by : String
  pub row_version : ℤ

-- The CHECK constraints of the table.
unfoldable pub check_team : Team → Bool
check_team t = member t.status ("active" ∷ "archived" ∷ [])
