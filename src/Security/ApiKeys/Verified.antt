-- ===== src/Security/ApiKeys/Verified.antt =====
-- Exactly which keys are accepted.
use lite_mcp.Base.{
  String, Bool, true, false, Option, none, some, [], ◌∷◌, ◌≡◌, ◌≢◌, ◌↔◌, ◌⊎◌, inl, inr, ◌∙◌, sym,
  ap, refl, ◌||◌, not, ◌==◌, eqb, is_nil, false≢true, arith, eq_iff, eq_refl, lookup, if◌then◌else◌,
  Option-cases,
}
use lite_mcp.Base.Length.{len}
use lite_mcp.Base.Checks.{>>=-eq-ok}
use lite_mcp.Base.Exec.{Result, ok}
use lite_mcp.Platform.Python
use lite_mcp.Platform.Python.{Member}
use lite_mcp.Security.ApiKeys.Shape.{IsKeyOf, of_IsKeyOf, to_IsKeyOf}
use lite_mcp.Security.ApiKeys.{
  KeyPlatform, KeyError, Row, is_ascii, has_status, has_digest, matches_row, check_id,
  public_id_from_secret, verify,
}

parts :
    (a b c : Bool)
    → (if not a then false else if not b then false else c) ≡ true
    → (a ≡ true) × (b ≡ true) × (c ≡ true)
parts a b c h = ground arith

both :
    (a b c : Bool)
    → (if a || not b then false else c) ≡ true
    → (a ≡ false) × (b ≡ true) × (c ≡ true)
both a b c h = ground arith

module _ (k : KeyPlatform) where
  -- The row of the key's public id is active, or has no status, and holds the digest of the plaintext.
  pub record IsStored (s : k.State) (plaintext public_id : String) : Type 0 where
    pub row : Row
    pub found : k.get_by_public_id s public_id ≡ some (some row)
    pub filled : row ≢ []
    pub active : (lookup "status" row ≡ none) ⊎ (lookup "status" row ≡ some (Python.text "active"))
    pub digest : lookup "secret_hash" row ≡ some (Python.text (k.sha256 plaintext))
    pub size : len (k.sha256 plaintext) ≡ 64
    pub ascii : is_ascii (k.sha256 plaintext) ≡ true

  status_iff :
      (v : Option Member) → (has_status v ≡ true) ↔ ((v ≡ none) ⊎ (v ≡ some (Python.text "active")))
  status_iff none = (λ h. inl refl, λ h. refl)
  status_iff (some (Python.text s)) = ground (arith, eq_iff s "active")
  status_iff (some (Python.value s)) = ((λ h. cc), λ h. ground arith)

  digest-eq :
      (plaintext : String) (v : Option Member)
      → has_digest k plaintext v ≡ true
      → (v ≡ some (Python.text (k.sha256 plaintext)))
        × (len (k.sha256 plaintext) ≡ 64)
        × (is_ascii (k.sha256 plaintext) ≡ true)
  digest-eq plaintext none h = absurd cc
  digest-eq plaintext (some (Python.value v)) h = absurd cc
  digest-eq plaintext (some (Python.text e)) h =
      let (size, ascii, same) = parts (eqb (len e) 64) (is_ascii e) (k.sha256 plaintext == e) h in
      let eq = (eq_iff (k.sha256 plaintext) e).0 same in
      (ap (λ x. some (Python.text x)) (sym eq), ap len eq ∙ ground arith, ap is_ascii eq ∙ ascii)

  not_nil : (row : Row) → is_nil row ≡ false → row ≢ []
  not_nil row h e = cc

  row-eq :
      (s : k.State) (plaintext public_id : String)
      → matches_row k plaintext (k.get_by_public_id s public_id) ≡ true
      → IsStored s plaintext public_id
  row-eq s plaintext public_id h = elim (Option-cases (k.get_by_public_id s public_id)) [
    | inl e ↦ absurd (false≢true (sym (ap (matches_row k plaintext) e) ∙ h))
    | inr (none, e) ↦ absurd (false≢true (sym (ap (matches_row k plaintext) e) ∙ h))
    | inr (some row, e) ↦
        let h' : matches_row k plaintext (some (some row)) ≡ true =
          sym (ap (matches_row k plaintext) e) ∙ h in
        let (filled, status, found) =
          both (is_nil row) (has_status (lookup "status" row))
            (has_digest k plaintext (lookup "secret_hash" row)) h' in
        let (digest, size, ascii) = digest-eq plaintext (lookup "secret_hash" row) found in
        record {
          row = row;
          found = e;
          filled = not_nil row filled;
          active = (status_iff (lookup "status" row)).0 status;
          digest = digest;
          size = size;
          ascii = ascii;
        }
  ]

  is_nil-ne : (row : Row) → row ≢ [] → is_nil row ≡ false
  is_nil-ne [] h = absurd (h refl)
  is_nil-ne (x ∷ row) h = refl

  row-of :
      (s : k.State) (plaintext public_id : String)
      → IsStored s plaintext public_id
      → matches_row k plaintext (k.get_by_public_id s public_id) ≡ true
  row-of s plaintext public_id c =
      rw
        (
          c.found,
          is_nil-ne c.row c.filled,
          (status_iff (lookup "status" c.row)).1 c.active,
          c.digest,
          c.size,
          c.ascii,
          eq_refl (k.sha256 plaintext),
        )
        refl

  accepted :
      (s : k.State) (plaintext : String) (found : Option String)
      → public_id_from_secret k plaintext ≡ ok found
      → ◌≡◌ {A = Result KeyError Bool} (ok (check_id k s plaintext found)) (ok true)
      → (public_id : String) × (public_id_from_secret k plaintext ≡ ok (some public_id))
        × IsStored s plaintext public_id
  accepted s plaintext none parsed checked = absurd cc
  accepted s plaintext (some public_id) parsed checked =
      (public_id, parsed, row-eq s plaintext public_id (cc))

  pub verify-of_parsed :
      (s : k.State) (plaintext public_id : String)
      → public_id_from_secret k plaintext ≡ ok (some public_id)
      → IsStored s plaintext public_id
      → verify k s plaintext ≡ ok true
  unfolding verify
  verify-of_parsed s plaintext public_id parsed c =
      rw parsed (ap ok (row-of s plaintext public_id c))

  -- A presented key is accepted exactly if it is a key of some public id, with the prefix, a public id
  -- of 24 letters and digits and 64 characters that are a hexadecimal number, or 64 hexadecimal digits
  -- with their tag and the marker; and under the public id the table has a row that is active, or that
  -- has no status, with the digest of the key.
  pub verify_iff :
      (s : k.State) (plaintext : String)
      → (verify k s plaintext ≡ ok true)
        ↔ ((public_id : String) × IsKeyOf k plaintext public_id × IsStored s plaintext public_id)
  unfolding verify
  verify_iff s plaintext = (
    λ h.
        let (found, parsed, checked) = >>=-eq-ok (public_id_from_secret k plaintext) _ true h in
        let (public_id, read, c) = accepted s plaintext found parsed checked in
        (public_id, to_IsKeyOf k plaintext public_id read, c),
    λ (public_id, shape, c).
        verify-of_parsed s plaintext public_id (of_IsKeyOf k plaintext public_id shape) c,
  )
