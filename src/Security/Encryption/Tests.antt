-- ===== src/Security/Encryption/Tests.antt =====
-- The theorems on keys, with encryptions that name their key in front of the text.
use lite_mcp.Base.{none, some, [], ◌∷◌, ◌≡◌, inl, inr, refl, ◌==◌, if◌then◌else◌}
use lite_mcp.Base.Exec.{ok}
use lite_mcp.Security.Encryption.Rotated.{rotated_decrypts}
use lite_mcp.Security.Encryption.{
  Key, bytes, str, Cryptography, Config, from_config, encrypt, decrypt, init, fernets,
}

-- A token is the plaintext, and a list of keys that is not empty reads it.
abbrev plain : Cryptography Key
plain = record {
  fernet = λ key. some key;
  encrypt_with = λ fs draw plaintext. plaintext;
  decrypt_with = λ fs ciphertext. some ciphertext;
  strip_str = λ s. if s == "  " then "" else s;
  strip_bytes = λ s. s;
}

abbrev first_config : Config
first_config = record {
  current_key = none;
  old_keys = none;
  encryption_keys = some (str "k1" ∷ []);
}

abbrev second_config : Config
second_config = record {
  current_key = some (bytes "k2");
  old_keys = some (str "k1" ∷ []);
  encryption_keys = none;
}

first_keys : from_config plain first_config ≡ ok (str "k1" ∷ [])
unfolding from_config init fernets
first_keys = refl

second_keys : from_config plain second_config ≡ ok (bytes "k2" ∷ str "k1" ∷ [])
unfolding from_config init fernets
second_keys = refl

rotated_decrypts_example :
    decrypt plain (bytes "k2" ∷ str "k1" ∷ []) (encrypt plain (str "k1" ∷ []) 0 "secret")
    ≡ some "secret"
rotated_decrypts_example =
    rotated_decrypts plain (λ f fs gs draw plaintext i. refl) first_config second_config (str "k1")
      (bytes "k2") [] (str "k1" ∷ []) (str "k1" ∷ []) (bytes "k2" ∷ str "k1" ∷ []) 0 "secret"
      (inr (refl, refl)) (inl (refl, refl)) (inr (inl refl)) first_keys second_keys
