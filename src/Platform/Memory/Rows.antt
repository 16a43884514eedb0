-- ===== src/Platform/Memory/Rows.antt =====
-- A user table as a list of rows, the newest version of a row first.
use lite_mcp.Base.{ℕ, Option, none, some, List, [], ◌∷◌, ◌≡◌, refl, eqb, arith, if◌then◌else◌}
use lite_mcp.Db.User.{User}
use lite_mcp.Db.Users.{Users}

abbrev pub find_row : List User → ℕ → Option User
find_row [] i = none
find_row (u ∷ us) i = if eqb u.id i then some u else find_row us i

pub id-find : (us : List User) (i : ℕ) (u : User) → find_row us i ≡ some u → u.id ≡ i
id-find [] i u h = cc
id-find (v ∷ us) i u h = ground (arith, id-find us i u)

abbrev pub memory_users : Users
memory_users = record {
  State = List User;
  get_user = find_row;
  save_user = λ s u. u ∷ s;
  get-save = λ s u i. refl;
  id-get = id-find;
}
