-- ===== src/Security/Encryption/Refused.antt =====
-- When a configuration is refused for its current key.
use lite_mcp.Base.{
  Bool, true, false, Option, none, some, List, [], ◌∷◌, ◌≡◌, ◌≢◌, ◌↔◌, inl, inr, sym, ap, refl, ◌∙◌,
  arith, if◌then◌else◌, Option-cases,
}
use lite_mcp.Base.Exec.{Result, err, Result-cases}
use lite_mcp.Security.Encryption.{
  Key, Cryptography, EncryptionError, missing_current_key, Config, Keys, or_empty, is_blank,
  fernets, init, with_current, from_config,
}

module _ {F : Type 0} (c : Cryptography F) where
  open c use {fernet, encrypt_with, decrypt_with}

  fernets-ne : (keys : List Key) → fernets c keys ≢ err missing_current_key
  unfolding fernets
  fernets-ne [] h = cc
  fernets-ne (key ∷ keys) h = elim (Option-cases (fernet key)) [
    | inl e ↦ ground (arith, h, e)
    | inr (f, e) ↦ elim (Result-cases (fernets c keys)) [
      | inl (fs, e') ↦ ground (arith, h, e, e')
      | inr (error, e') ↦ fernets-ne keys (e' ∙ ground (arith, h, e, e'))
    ]
  ]

  blank-missing :
      (b : Bool) (keys : List Key)
      → ◌≡◌ {A = Result EncryptionError (List F)}
          (if b then err missing_current_key else fernets c keys)
          (err missing_current_key)
      → b ≡ true
  blank-missing true keys h = refl
  blank-missing false keys h = absurd (fernets-ne keys h)

  missing-blank :
      (config : Config) (key : Key) (old : List Key)
      → from_config c config ≡ err missing_current_key
      → Keys c config key old
      → is_blank c key ≡ true
  unfolding from_config init
  missing-blank config key old h (inl (e, o)) =
      blank-missing (is_blank c key) (key ∷ or_empty config.old_keys)
        (ap (λ x. with_current c x config.old_keys config.encryption_keys) (sym e) ∙ h)
  missing-blank config key old h (inr (e, o)) = blank-missing (is_blank c key) (key ∷ old) (
      ap (λ x. with_current c none config.old_keys x) (sym o)
      ∙ ap (λ x. with_current c x config.old_keys config.encryption_keys) (sym e)
      ∙ h)

  AllBlank : Config → Type 0
  AllBlank config = (key : Key) (old : List Key) → Keys c config key old → is_blank c key ≡ true

  blank-missing_list :
      (config : Config) (keys : Option (List Key))
      → config.current_key ≡ none
      → config.encryption_keys ≡ keys
      → AllBlank config
      → from_config c config ≡ err missing_current_key
  unfolding from_config init AllBlank
  blank-missing_list config none e k g = rw (e, k) refl
  blank-missing_list config (some []) e k g = rw (e, k) refl
  blank-missing_list config (some (key ∷ old)) e k g = rw (e, k, g key old (inr (e, k))) refl

  -- A configuration is refused for its current key exactly if it has none or a blank one.
  missing_current_key_iff :
      (config : Config)
      → (from_config c config ≡ err missing_current_key)
        ↔ ((key : Key) (old : List Key) → Keys c config key old → is_blank c key ≡ true)
  unfolding from_config init AllBlank
  missing_current_key_iff config = (
    λ h key old k. missing-blank config key old h k,
    λ g. elim (Option-cases config.current_key) [
      | inl e ↦ blank-missing_list config config.encryption_keys e refl g
      | inr (key, e) ↦ rw (e, g key (or_empty config.old_keys) (inl (e, refl))) refl
    ],
  )
