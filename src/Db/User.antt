-- ===== src/Db/User.antt =====
-- backend/src/litemcp/db/models.py: the table `user`.
use lite_mcp.Base.{ℕ, String, Bool, Option, ◌∷◌, [], ◌&&◌, member}
use lite_mcp.Platform.Time.{Datetime}

pub record User : Type 0 where
  pub id : ℕ
  pub username : String
  pub username_normalized : String
  pub password_hash : String
  pub role : String
  pub status : String
  pub password_changed_at : Datetime
  pub last_login_at : Option Datetime
  pub failed_login_count : ℕ
  pub failed_login_window_started_at : Option Datetime
  pub locked_until : Option Datetime
  pub created_at : Datetime
  pub created_by : String
  pub updated_at : Datetime
  pub updated_by : String
  pub row_version : ℕ

-- ck_user_role and ck_user_status
unfoldable pub check_user : User → Bool
check_user u =
    member u.role ("admin" ∷ "user" ∷ []) && member u.status ("active" ∷ "disabled" ∷ "locked" ∷ [])
