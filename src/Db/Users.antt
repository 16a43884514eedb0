-- ===== src/Db/Users.antt =====
-- The rows of the table `user` as a transaction sees them. SQLAlchemy and the database are not part
-- of the repository: what the code asks of them is a record of operations, with its laws.
use lite_mcp.Base.{ℕ, Option, some, ◌≡◌, eqb, if◌then◌else◌}
use lite_mcp.Db.User.{User}

pub record Users : Type 1 where
  pub State : Type 0
  -- `select(User).where(User.id == i)`, `session.get(User, i)`
  pub get_user : State → ℕ → Option User
  -- The flush of a changed object.
  pub save_user : State → User → State
  pub get-save :
      (s : State) (u : User) (i : ℕ)
      → get_user (save_user s u) i ≡ (if eqb u.id i then some u else get_user s i)
  pub id-get : (s : State) (i : ℕ) (u : User) → get_user s i ≡ some u → u.id ≡ i
