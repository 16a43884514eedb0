-- ===== src/Auth/Password/Migrated.antt =====
-- An account whose hash is of bcrypt, before and after a login.
use lite_mcp.Base.{String, true, false, Option, some, ◌≡◌, refl, arith}
use lite_mcp.Base.Slices.{starts_with}
use lite_mcp.Base.Exec.{ok}
use lite_mcp.Config.{Settings}
use lite_mcp.Db.User.{User}
use lite_mcp.Auth.Password.{
  Argon2Parameters, Hashers, is_bcrypt, default_parameters, hash_password, verify_password,
  verify_and_migrate_password,
}

-- What the documentation of argon2 says: a hash is a PHC text, and the password that it was made of
-- verifies against it.
pub record HashersLaws (k : Hashers) : Type 0 where
  pub hash_phc :
      (p : Argon2Parameters) (salt password h : String)
      → k.argon2_hash p salt password ≡ some h
      → starts_with "$argon2id$" h ≡ true
  pub verify-hash :
      (p : Argon2Parameters) (salt password h : String)
      → k.argon2_hash p salt password ≡ some h
      → k.argon2_verify h password ≡ ok true

argon2-bcrypt : (h : String) → starts_with "$argon2id$" h ≡ true → is_bcrypt h ≡ false
unfolding starts_with
argon2-bcrypt String.[] e = refl
argon2-bcrypt (String.◌∷◌ c String.[]) e = ground (arith, e)
argon2-bcrypt (String.◌∷◌ c (String.◌∷◌ d h)) e = ground (arith, e)

module _ (k : Hashers) (laws : HashersLaws k) where
  -- An account with a hash of bcrypt that the password matches gets a hash of argon2 and changes in
  -- nothing else, and from then on the same password is accepted without another change.
  pub migrated_verifies :
      (settings later : Option Settings) (salt next_salt password h : String) (u : User)
      → is_bcrypt u.password_hash ≡ true
      → k.checkpw password u.password_hash ≡ some true
      → k.argon2_hash (default_parameters settings) salt password ≡ some h
      → let migrated : User = record u { password_hash = h } in
        (verify_and_migrate_password k settings salt u password ≡ (ok true, migrated))
        × (starts_with "$argon2id$" h ≡ true)
        × (verify_and_migrate_password k later next_salt migrated password ≡ (ok true, migrated))
  unfolding verify_and_migrate_password hash_password verify_password
  migrated_verifies settings later salt next_salt password h u old matches hashed =
      let phc = laws.hash_phc _ salt password h hashed in
      (
        rw (old, matches, hashed) refl,
        phc,
        rw (argon2-bcrypt h phc, laws.verify-hash _ salt password h hashed) refl,
      )
