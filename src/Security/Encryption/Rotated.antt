-- ===== src/Security/Encryption/Rotated.antt =====
-- What one configuration encrypted and another one decrypts.
use lite_mcp.Base.{
  ℕ, String, Bool, true, false, Option, none, some, List, [], ◌∷◌, ◌≡◌, inl, inr, sym, ap, ◌∙◌,
  if◌then◌else◌, IsIn,
}
use lite_mcp.Base.Exec.{Result, ok, err}
use lite_mcp.Base.Checks.{>>=-eq-ok}
use lite_mcp.Security.Encryption.{
  Key, Cryptography, ReadsAnyKey, EncryptionError, missing_current_key, Config, Keys, or_empty,
  is_blank, made, fernets, init, with_current, from_config, encrypt, decrypt,
}

module _ {F : Type 0} (c : Cryptography F) where
  open c use {fernet, encrypt_with, decrypt_with}

  made-eq-ok : (o : Option F) (f : F) → made c o ≡ ok f → o ≡ some f
  made-eq-ok none f h = cc
  made-eq-ok (some g) f h = cc

  fernets-cons :
      (key : Key) (keys : List Key) (fs : List F)
      → fernets c (key ∷ keys) ≡ ok fs
      → (f : F) × (rest : List F) × (fernet key ≡ some f)
        × (fernets c keys ≡ ok rest)
        × (f ∷ rest ≡ fs)
  unfolding fernets
  fernets-cons key keys fs h =
      let (f, here, made_rest) = >>=-eq-ok (made c (fernet key)) _ fs h in
      let (rest, later, e) = >>=-eq-ok (fernets c keys) _ fs made_rest in
      (f, rest, made-eq-ok (fernet key) f here, later, ok-inj (f ∷ rest) fs e)
    where
      ok-inj : (x y : List F) → ◌≡◌ {A = Result EncryptionError (List F)} (ok x) (ok y) → x ≡ y
      ok-inj x y h = cc

  fernets-IsIn :
      (keys : List Key) (fs : List F) (key : Key) (f : F)
      → fernets c keys ≡ ok fs
      → fernet key ≡ some f
      → IsIn key keys
      → IsIn f fs
  fernets-IsIn [] fs key f h e i = absurd i
  fernets-IsIn (k ∷ keys) fs key f h e i =
      let (g, rest, here, later, same) = fernets-cons k keys fs h in
      rw (sym same)
        (elim i [ inl e' ↦ inl cc | inr i ↦ inr (fernets-IsIn keys rest key f later e i) ])

  passed :
      (b : Bool) (r : Result EncryptionError (List F)) (fs : List F)
      → (if b then err missing_current_key else r) ≡ ok fs
      → r ≡ ok fs
  passed true r fs h = cc
  passed false r fs h = h

  init-eq-ok :
      (key : Key) (old_keys : Option (List Key)) (fs : List F)
      → init c (some key) old_keys ≡ ok fs
      → fernets c (key ∷ or_empty old_keys) ≡ ok fs
  unfolding init
  init-eq-ok key old_keys fs h = passed (is_blank c key) _ fs h

  keys-from :
      (config : Config) (key : Key) (old : List Key) (fs : List F)
      → Keys c config key old
      → from_config c config ≡ ok fs
      → fernets c (key ∷ old) ≡ ok fs
  unfolding from_config
  keys-from config key old fs (inl (e, o)) h =
      ap (λ x. fernets c (key ∷ x)) (sym o)
      ∙ init-eq-ok key config.old_keys fs
          (ap (λ x. with_current c x config.old_keys config.encryption_keys) (sym e) ∙ h)
  keys-from config key old fs (inr (e, o)) h = init-eq-ok key (some old) fs (
      ap (λ x. with_current c none config.old_keys x) (sym o)
      ∙ ap (λ x. with_current c x config.old_keys config.encryption_keys) (sym e)
      ∙ h)

  -- What was encrypted under one configuration is decrypted under every other one that has its
  -- current key among its keys.
  pub rotated_decrypts :
      ReadsAnyKey c
      → (before after : Config) (key key' : Key) (old old' : List Key) (fs gs : List F) (draw : ℕ)
        (plaintext : String)
      → Keys c before key old
      → Keys c after key' old'
      → IsIn key (key' ∷ old')
      → from_config c before ≡ ok fs
      → from_config c after ≡ ok gs
      → decrypt c gs (encrypt c fs draw plaintext) ≡ some plaintext
  unfolding encrypt decrypt
  rotated_decrypts law before after key key' old old' fs gs draw plaintext b a i hb ha =
      let (f, rest, here, _, same) = fernets-cons key old fs (keys-from before key old fs b hb) in
      let inside = fernets-IsIn (key' ∷ old') gs key f (keys-from after key' old' gs a ha) here i in
      ap (λ x. decrypt_with gs (encrypt_with x draw plaintext)) (sym same)
      ∙ law f rest gs draw plaintext inside
