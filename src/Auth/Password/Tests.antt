-- ===== src/Auth/Password/Tests.antt =====
-- The theorem on migrated hashes at a concrete account, with hashes that spell the password out.
use lite_mcp.Base.{
  String, Option, true, none, some, ◌≡◌, ◌∙◌, sym, ap, refl, ◌==◌, ◌&◌, eq_refl, if◌then◌else◌,
}
use lite_mcp.Base.Slices.{starts_with, starts_with-append}
use lite_mcp.Base.Exec.{ok, err}
use lite_mcp.Platform.Memory.Sample.{ann, sample_settings}
use lite_mcp.Db.User.{User}
use lite_mcp.Auth.Password.{Hashers, verification_error, verify_and_migrate_password}
use lite_mcp.Auth.Password.Migrated.{HashersLaws, migrated_verifies}

abbrev plain : String → String
plain password = "$argon2id$" & password

abbrev hashers : Hashers
hashers = record {
  argon2_hash = λ p salt password. some (plain password);
  argon2_verify = λ h password. if h == plain password then ok true else err verification_error;
  checkpw = λ password h. some (password == "pw");
}

abbrev or_empty : Option String → String
or_empty none = ""
or_empty (some h) = h

abbrev hashers-laws : HashersLaws hashers
hashers-laws = record {
  hash_phc = λ p salt password h e.
      ap (starts_with "$argon2id$") (sym (ap or_empty e))
      ∙ starts_with-append "$argon2id$" password;
  verify-hash = λ p salt password h e. rw (sym (ap or_empty e), eq_refl (plain password)) refl;
}

abbrev legacy : User
legacy = record ann { password_hash = "$2b$12$abcdefghijklmnopqrstuv" }

abbrev migrated : User
migrated = record ann { password_hash = "$argon2id$pw" }

migrated_verifies_example :
    (verify_and_migrate_password hashers none "s" legacy "pw" ≡ (ok true, migrated))
    × (starts_with "$argon2id$" "$argon2id$pw" ≡ true)
    × (verify_and_migrate_password hashers (some sample_settings) "t" migrated "pw"
        ≡ (ok true, migrated))
unfolding starts_with
migrated_verifies_example =
    migrated_verifies hashers hashers-laws none (some sample_settings) "s" "t" "pw" "$argon2id$pw"
      legacy refl refl refl
