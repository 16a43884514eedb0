-- ===== src/Db/TeamMembership.antt =====
-- backend/src/litemcp/db/models.py: the table `team_membership`. JSON documents are their text,
-- and a `Numeric(10, 2)` is a number of hundredths.
use lite_mcp.Base.{String, ℕ, Bool, member, [], ◌∷◌}
use lite_mcp.Base.Integer.{ℤ}
use lite_mcp.Platform.Time.{Datetime}

pub record TeamMembership : Type 0 where
  pub id : ℕ
  pub team_id : ℕ
  pub user_id : ℕ
  pub team_role : String
  pub created_at : Datetime
  pub created_by : String
  pub updated_at : Datetime
  pub updated_by : String
  pub row_version : ℤ

-- The CHECK constraints of the table.
unfoldable pub check_team_membership : TeamMembership → Bool
check_team_membership m = member m.team_role ("admin" ∷ "member" ∷ [])
