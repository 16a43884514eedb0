-- ===== src/Auth/Bootstrap.antt =====
-- backend/src/litemcp/auth/bootstrap.py. The table is the list of its rows. The lock on
-- `bootstrap_lock` makes one call wait for the other, so that calls follow one another. The
-- normalization of `unicodedata` and the hasher are parameters.
pub mod Lock
mod Tests
use lite_mcp.Base.{
  ℕ, suc, String, true, false, none, List, [], ◌∷◌, ◌++◌, map, length, eqb, ◌≡◌, refl, arith,
}
use lite_mcp.Base.Exec.{Result, ok, err, Exec, ◌>>=◌, ◌>>◌, pure, modify, gets, guard}
use lite_mcp.Platform.Time.{aware, as_utc}
use lite_mcp.Db.User.{User}

-- AlreadyInitializedError
pub data BootstrapError : Type 0 where
  already_initialized : BootstrapError

-- A call: what it is given, the id it draws and the time.
pub record Attempt : Type 0 where
  pub username : String
  pub password : String
  pub id : ℕ
  pub now : ℕ

not_empty : (n : ℕ) → eqb (suc n) 0 ≡ false
not_empty n = ground arith

module _ (normalize_username hash : String → String) where
  unfoldable pub first_admin : Attempt → User
  first_admin a = record {
    id = a.id;
    username = a.username;
    username_normalized = normalize_username a.username;
    password_hash = hash a.password;
    role = "admin";
    status = "active";
    password_changed_at = aware a.now;
    last_login_at = none;
    failed_login_count = 0;
    failed_login_window_started_at = none;
    locked_until = none;
    created_at = aware a.now;
    created_by = "system:bootstrap";
    updated_at = aware a.now;
    updated_by = "system:bootstrap";
    row_version = 1;
  }

  pub bootstrap_first_admin : Attempt → Exec (List User) BootstrapError User
  bootstrap_first_admin a = do
    existing_count ← gets length
    guard (eqb existing_count 0) already_initialized
    let user = first_admin a
    modify (λ rows. rows ++ user ∷ [])
    pure user

  abbrev prepend :
      Result BootstrapError User
      → List (Result BootstrapError User) × List User
      → List (Result BootstrapError User) × List User
  prepend r (rs, rows) = (r ∷ rs, rows)

  -- The calls one after the other, with their results.
  pub bootstrap_all : List Attempt → List User → List (Result BootstrapError User) × List User
  bootstrap_all [] rows = ([], rows)
  bootstrap_all (a ∷ attempts) rows =
      let (r, rows') = bootstrap_first_admin a rows in prepend r (bootstrap_all attempts rows')

  refused_one :
      (a : Attempt) (u : User) (rows : List User)
      → bootstrap_first_admin a (u ∷ rows) ≡ (err already_initialized, u ∷ rows)
  unfolding bootstrap_first_admin
  refused_one a u rows = rw (not_empty (length rows)) refl

  refused :
      (attempts : List Attempt) (u : User) (rows : List User)
      → bootstrap_all attempts (u ∷ rows) ≡ (map (λ a. err already_initialized) attempts, u ∷ rows)
  unfolding bootstrap_all
  refused [] u rows = refl
  refused (a ∷ attempts) u rows = rw (refused_one a u rows, refused attempts u rows) refl

  -- An active admin with the name and the password of a call, whose sign-in is not locked.
  pub record IsAdminOf (a : Attempt) (user : User) : Type 0 where
    pub id : user.id ≡ a.id
    pub name : user.username ≡ a.username
    pub normalized : user.username_normalized ≡ normalize_username a.username
    pub hashed : user.password_hash ≡ hash a.password
    pub admin : user.role ≡ "admin"
    pub active : user.status ≡ "active"
    pub unlocked : user.locked_until ≡ none
    pub changed : as_utc user.password_changed_at ≡ a.now

  -- Of any number of calls that follow one another on an empty table, the first one returns an active
  -- admin with its name, the normalized name and the hash of its password; every other one is
  -- refused; and this admin is the only row.
  pub bootstrap_once :
      (a : Attempt) (attempts : List Attempt)
      → (user : User) × IsAdminOf a user
        × (bootstrap_all (a ∷ attempts) []
            ≡ (ok user ∷ map (λ b. err already_initialized) attempts, user ∷ []))
  unfolding bootstrap_all bootstrap_first_admin first_admin
  bootstrap_once a attempts = (
    first_admin a,
    record {
      id = refl;
      name = refl;
      normalized = refl;
      hashed = refl;
      admin = refl;
      active = refl;
      unlocked = refl;
      changed = refl;
    },
    rw (refused attempts (first_admin a) []) refl,
  )
