-- ===== src/Security/Encryption.antt =====
-- backend/src/litemcp/security/encryption.py. `Fernet` and `MultiFernet` of the package cryptography
-- and the two methods `strip` are parameters; what an encryption draws (its time and its initial
-- vector) is an argument. The members of a configuration are keys or lists of keys.
pub mod Rotated
pub mod Refused
mod Tests
use lite_mcp.Base.{
  IsIn, ℕ, String, Bool, true, false, Option, none, some, List, [], ◌∷◌, ◌≡◌, ◌≢◌, ◌⊎◌, ◌↔◌, inl,
  inr, ◌==◌, sym, ap, refl, ◌∙◌, arith, if◌then◌else◌, Bool-cases, Option-cases,
}
use lite_mcp.Base.Exec.{Result, ok, err, Result-cases}
use lite_mcp.Base.Checks.{◌>>=◌, >>=-eq-ok}

pub data Key : Type 0 where
  bytes str : String → Key

-- `InvalidToken` of a decryption is `none`.
pub record Cryptography (F : Type 0) : Type 0 where
  -- `Fernet(key)`, `none` where it raises
  pub fernet : Key → Option F
  pub encrypt_with : List F → ℕ → String → String
  pub decrypt_with : List F → String → Option String
  pub strip_str : String → String
  pub strip_bytes : String → String

-- A MultiFernet encrypts with its first key and decrypts what any of its keys encrypted.
abbrev pub ReadsAnyKey : {F : Type 0} → Cryptography F → Type 0
ReadsAnyKey {F} c =
    (f : F) (fs gs : List F) (draw : ℕ) (plaintext : String)
    → IsIn f gs
    → c.decrypt_with gs (c.encrypt_with (f ∷ fs) draw plaintext) ≡ some plaintext

pub data EncryptionError : Type 0 where
  missing_current_key invalid_key : EncryptionError

-- `config.get(...)` of the three keys.
pub record Config : Type 0 where
  pub current_key : Option Key
  pub old_keys : Option (List Key)
  pub encryption_keys : Option (List Key)

-- `old_keys or ()`
abbrev or_empty : Option (List Key) → List Key
or_empty none = []
or_empty (some keys) = keys

module _ {F : Type 0} (c : Cryptography F) where
  open c use {fernet, encrypt_with, decrypt_with, strip_str, strip_bytes}

  abbrev pub is_blank : Key → Bool
  is_blank (bytes s) = strip_bytes s == ""
  is_blank (str s) = strip_str s == ""

  abbrev made : Option F → Result EncryptionError F
  made none = err invalid_key
  made (some f) = ok f

  -- `[self._fernet(key) for key in keys]`
  fernets : List Key → Result EncryptionError (List F)
  fernets [] = ok []
  fernets (key ∷ keys) = made (fernet key) >>= λ f. fernets keys >>= λ fs. ok (f ∷ fs)

  -- `SecretEncryption.__init__`, which gives the keys of its MultiFernet
  pub init : Option Key → Option (List Key) → Result EncryptionError (List F)
  init none old_keys = err missing_current_key
  init (some key) old_keys =
      if is_blank key then err missing_current_key else fernets (key ∷ or_empty old_keys)

  abbrev with_list : Option (List Key) → Option (List Key) → Result EncryptionError (List F)
  with_list old_keys none = init none old_keys
  with_list old_keys (some []) = init none old_keys
  with_list old_keys (some (key ∷ keys)) = init (some key) (some keys)

  abbrev with_current :
      Option Key → Option (List Key) → Option (List Key) → Result EncryptionError (List F)
  with_current none old_keys encryption_keys = with_list old_keys encryption_keys
  with_current (some key) old_keys encryption_keys = init (some key) old_keys

  pub from_config : Config → Result EncryptionError (List F)
  from_config config = with_current config.current_key config.old_keys config.encryption_keys

  pub encrypt : List F → ℕ → String → String
  encrypt fernet draw plaintext = encrypt_with fernet draw plaintext

  pub decrypt : List F → String → Option String
  decrypt fernet ciphertext = decrypt_with fernet ciphertext

  -- The keys of a configuration: the current one and the old ones.
  abbrev pub Keys : Config → Key → List Key → Type 0
  Keys config key old =
      ((config.current_key ≡ some key) × (or_empty config.old_keys ≡ old))
      ⊎ ((config.current_key ≡ none) × (config.encryption_keys ≡ some (key ∷ old)))
