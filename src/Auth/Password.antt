-- ===== src/Auth/Password.antt =====
-- backend/src/litemcp/auth/password.py and auth/password_migration.py. The libraries argon2 and bcrypt
-- are parameters; the salt that a hash draws is an argument.
pub mod Migrated
mod Tests
use lite_mcp.Base.{ℕ, String, Bool, true, false, Option, none, some, ◌||◌, if◌then◌else◌}
use lite_mcp.Base.Slices.{starts_with}
use lite_mcp.Base.Exec.{Result, ok, err}
use lite_mcp.Config.{Settings}
use lite_mcp.Db.User.{User}

pub record Argon2Parameters : Type 0 where
  pub memory_cost_kib : ℕ
  pub time_cost : ℕ
  pub parallelism : ℕ

-- The errors of argon2's `verify`: the three classes that are caught (two of them are one), and any
-- other; and what escapes from the functions here.
pub data Argon2Error : Type 0 where
  verification_error invalid_hash other_error : Argon2Error

pub data PasswordError : Type 0 where
  verification_failed : PasswordError
  -- what `hasher.hash`, `hasher.verify` and `bcrypt.checkpw` raise and nothing here catches
  hashing_error uncaught value_error : PasswordError

pub record Hashers : Type 0 where
  -- `PasswordHasher(...).hash(password)`, with a salt
  pub argon2_hash : Argon2Parameters → String → String → Option String
  -- `PasswordHasher().verify(hashed, password)`
  pub argon2_verify : String → String → Result Argon2Error Bool
  -- `bcrypt.checkpw(password.encode(), hashed.encode())`, `none` where it raises `ValueError`
  pub checkpw : String → String → Option Bool

-- `_default_parameters`; the settings are absent where their validation fails.
pub default_parameters : Option Settings → Argon2Parameters
default_parameters none = record { memory_cost_kib = 19456; time_cost = 2; parallelism = 1 }
default_parameters (some settings) = record {
  memory_cost_kib = settings.argon2_memory_cost_kib;
  time_cost = settings.argon2_time_cost;
  parallelism = settings.argon2_parallelism;
}

abbrev or_default : Option Settings → Option Argon2Parameters → Argon2Parameters
or_default settings none = default_parameters settings
or_default settings (some parameters) = parameters

-- `password_hash.startswith(("$2a$", "$2b$", "$2y$"))`
abbrev pub is_bcrypt : String → Bool
is_bcrypt h = starts_with "$2a$" h || (starts_with "$2b$" h || starts_with "$2y$" h)

module _ (k : Hashers) where
  open k use {argon2_hash, argon2_verify, checkpw}

  abbrev hashed_or : Option String → Result PasswordError String
  hashed_or none = err hashing_error
  hashed_or (some h) = ok h

  pub hash_password :
      Option Settings → Option Argon2Parameters → String → String → Result PasswordError String
  hash_password settings parameters salt password =
      hashed_or (argon2_hash (or_default settings parameters) salt password)

  abbrev uniform : Result Argon2Error Bool → Result PasswordError Bool
  uniform (ok b) = ok b
  uniform (err verification_error) = err verification_failed
  uniform (err invalid_hash) = err verification_failed
  uniform (err other_error) = err uncaught

  pub verify_password : String → String → Result PasswordError Bool
  verify_password hashed password = uniform (argon2_verify hashed password)

  abbrev store_hash : User → Result PasswordError String → Result PasswordError Bool × User
  store_hash u (err e) = (err e, u)
  store_hash u (ok h) = (ok true, record u { password_hash = h })

  abbrev after_check :
      User → Result PasswordError String → Option Bool → Result PasswordError Bool × User
  after_check u hashed none = (err value_error, u)
  after_check u hashed (some false) = (err verification_failed, u)
  after_check u hashed (some true) = store_hash u hashed

  -- The result, and the account as the session holds it.
  pub verify_and_migrate_password :
      Option Settings → String → User → String → Result PasswordError Bool × User
  verify_and_migrate_password settings salt u password =
      if is_bcrypt u.password_hash
      then after_check u (hash_password settings none salt password)
          (checkpw password u.password_hash)
      else (verify_password u.password_hash password, u)
