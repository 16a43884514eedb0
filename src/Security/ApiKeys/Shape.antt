-- ===== src/Security/ApiKeys/Shape.antt =====
-- The texts that are keys, apart from the code that takes them to pieces.
use lite_mcp.Base.{
  ℕ, String, Bool, true, false, Option, none, some, List, [], ◌∷◌, ◌≡◌, ◌⊎◌, inl, inr, ◌∙◌, sym, ap,
  refl, ◌&◌, ◌&&◌, ◌||◌, not, ◌==◌, eqb, arith, eq_iff, if◌then◌else◌,
}
use mathlib.Core.Path.{subst}
use lite_mcp.Base.Text.{Lacks}
use lite_mcp.Base.Length.{len}
use lite_mcp.Base.Slices.{
  take, drop, starts_with, all_codes, split_at_most, len-append, starts_with-append,
  split_at_most-append,
}
use lite_mcp.Base.Cuts.{starts_with-eq, take-drop, drop-drop, split-IsCut}
use lite_mcp.Base.Checks.{>>=-eq-ok}
use lite_mcp.Base.Exec.{Result, ok, err}
use lite_mcp.Security.ApiKeys.{
  KeyPlatform, KeyError, is_ascii, is_hex64, hex_code, ends_with_marker, integrity_tag,
  compare_digest, kept, tagged, from_parts, of_parts, public_id_from_secret,
}
use lite_mcp.Security.ApiKeys.Format.{
  split-key, prefix-split, dash-cons, len-secret, marked, payload-secret, tag-secret, take-len,
}

module _ (k : KeyPlatform) where
  -- A payload of 64 hexadecimal digits, the first 8 digits of the digest of the public id and the
  -- payload, and the marker.
  pub record IsTagged (public_id secret : String) : Type 0 where
    pub payload : String
    pub tag : String
    pub form : secret ≡ payload & tag & "A"
    pub payload_length : len payload ≡ 64
    pub payload_hex : all_codes hex_code payload ≡ true
    pub material_ascii : is_ascii (public_id & ":" & payload) ≡ true
    pub tag_length : len tag ≡ 8
    pub tag_ascii : is_ascii tag ≡ true
    pub tag_right : tag ≡ take 8 (k.sha256 (public_id & ":" & payload))
    pub right_ascii : is_ascii (take 8 (k.sha256 (public_id & ":" & payload))) ≡ true

  -- The prefix, an alphanumeric public id of 24 characters and a secret: 64 characters that `int`
  -- reads as a hexadecimal number, or a tagged payload.
  pub record IsKeyOf (plaintext public_id : String) : Type 0 where
    pub secret : String
    pub form : plaintext ≡ "litemcp_" & public_id & "_" & secret
    pub id_length : len public_id ≡ 24
    pub id_piece : Lacks b'_' public_id
    pub id_alphanumeric : k.isalnum public_id ≡ true
    pub right : ((len secret ≡ 64) × (k.parses_hex secret ≡ true)) ⊎ IsTagged public_id secret

  tagged_read :
      (public_id secret : String)
      → IsTagged public_id secret
      → k.isalnum public_id ≡ true
      → from_parts k public_id secret ≡ ok (some public_id)
  unfolding from_parts tagged integrity_tag
  tagged_read public_id secret t alnum =
      rw
        (
          t.form,
          alnum,
          len-secret t.payload t.tag t.payload_length t.tag_length,
          marked t.payload t.tag t.payload_length t.tag_length,
          payload-secret t.payload t.tag t.payload_length t.tag_length,
          tag-secret t.payload t.tag t.payload_length t.tag_length,
          t.payload_hex,
          t.payload_length,
          t.material_ascii,
          t.tag_ascii,
          t.right_ascii,
          (eq_iff t.tag (take 8 (k.sha256 (public_id & ":" & t.payload)))).1 t.tag_right,
        )
        refl

  plain_read :
      (public_id secret : String)
      → len secret ≡ 64
      → k.parses_hex secret ≡ true
      → k.isalnum public_id ≡ true
      → from_parts k public_id secret ≡ ok (some public_id)
  unfolding from_parts
  plain_read public_id secret long parses alnum = rw (alnum, long, parses) refl

  parts_read :
      (public_id secret : String)
      → k.isalnum public_id ≡ true
      → ((len secret ≡ 64) × (k.parses_hex secret ≡ true)) ⊎ IsTagged public_id secret
      → from_parts k public_id secret ≡ ok (some public_id)
  parts_read public_id secret alnum (inl (long, parses)) =
      plain_read public_id secret long parses alnum
  parts_read public_id secret alnum (inr t) = tagged_read public_id secret t alnum

  pub of_IsKeyOf :
      (plaintext public_id : String)
      → IsKeyOf plaintext public_id
      → public_id_from_secret k plaintext ≡ ok (some public_id)
  unfolding public_id_from_secret
  of_IsKeyOf plaintext public_id s =
      rw
        (
          s.form,
          starts_with-append "litemcp_" (public_id & "_" & s.secret),
          split-key public_id s.secret s.id_piece,
          s.id_length,
          parts_read public_id s.secret s.id_alphanumeric s.right,
        )
        refl

  passed :
      (b : Bool) (r : Result KeyError (Option String)) (i : String)
      → (if not b then ok none else r) ≡ ok (some i)
      → (b ≡ true) × (r ≡ ok (some i))
  passed true r i h = (refl, h)
  passed false r i h = absurd cc

  passed_both :
      (a b : Bool) (r : Result KeyError (Option String)) (i : String)
      → (if not a || not b then ok none else r) ≡ ok (some i)
      → (a ≡ true) × (b ≡ true) × (r ≡ ok (some i))
  passed_both true true r i h = (refl, refl, h)
  passed_both true false r i h = absurd cc
  passed_both false b r i h = absurd cc

  eqb_to : (a b : ℕ) → eqb a b ≡ true → a ≡ b
  eqb_to a b h = ground arith

  and_parts : (a b : Bool) → (a && b) ≡ true → (a ≡ true) × (b ≡ true)
  and_parts a b h = ground arith

  chosen :
      (b : Bool) (r t : String) (e : KeyError)
      → ◌≡◌ {A = Result KeyError String} (if b then ok r else err e) (ok t)
      → (b ≡ true) × (t ≡ r)
  chosen true r t e h = (refl, cc)
  chosen false r t e h = absurd cc

  tag-eq-ok :
      (public_id payload tag : String)
      → integrity_tag k public_id payload ≡ ok tag
      → (is_ascii (public_id & ":" & payload) ≡ true)
        × (tag ≡ take 8 (k.sha256 (public_id & ":" & payload)))
  unfolding integrity_tag
  tag-eq-ok public_id payload tag h = chosen (is_ascii (public_id & ":" & payload)) _ tag _ h

  digests :
      (x y same found : Bool) (e : KeyError)
      → ◌≡◌ {A = Result KeyError Bool} (if x && y then ok same else err e) (ok found)
      → (x ≡ true) × (y ≡ true) × (same ≡ found)
  digests true true same found e h = (refl, refl, cc)
  digests true false same found e h = absurd cc
  digests false y same found e h = absurd cc

  kept-eq-ok :
      (found : Bool) (i j : String) → kept k i found ≡ ok (some j) → (found ≡ true) × (i ≡ j)
  kept-eq-ok true i j h = (refl, cc)
  kept-eq-ok false i j h = absurd cc

  -- The pieces of a secret of 73 characters.
  secret-form :
      (secret : String)
      → drop 72 secret ≡ "A"
      → secret ≡ take 64 secret & take 8 (drop 64 secret) & "A"
  secret-form secret marker =
      sym (take-drop 64 secret)
      ∙ ap (λ x. take 64 secret & x)
          (sym (take-drop 8 (drop 64 secret))
            ∙ ap (λ x. take 8 (drop 64 secret) & x) (drop-drop 8 64 secret ∙ marker))

  rest-length :
      (secret : String) → len secret ≡ 73 → len (take 64 secret) ≡ 64 → len (drop 64 secret) ≡ 9
  rest-length secret a b =
      omega
        (arith, ap len (take-drop 64 secret), len-append (take 64 secret) (drop 64 secret), a, b)

  tagged-eq-ok :
      (public_id secret i : String)
      → tagged k public_id secret ≡ ok (some i)
      → IsTagged public_id secret × (public_id ≡ i)
  unfolding tagged
  tagged-eq-ok public_id secret i h =
      let (long, marker, h₁) = passed_both (eqb (len secret) 73) (ends_with_marker secret) _ i h in
      let (hex, h₂) = passed (is_hex64 (take 64 secret)) _ i h₁ in
      let (digits, size) =
        and_parts (all_codes hex_code (take 64 secret)) (eqb (len (take 64 secret)) 64) hex in
      let (tag, made, h₃) = >>=-eq-ok (integrity_tag k public_id (take 64 secret)) _ (some i) h₂ in
      let (material, tag_is) = tag-eq-ok public_id (take 64 secret) tag made in
      let (found, compared, h₄) =
        >>=-eq-ok (compare_digest k (take 8 (drop 64 secret)) tag) _ (some i) h₃ in
      let (a, b, same) =
        digests (is_ascii (take 8 (drop 64 secret))) (is_ascii tag) (take 8 (drop 64 secret) == tag)
          found _ compared in
      let (yes_found, id_same) = kept-eq-ok found public_id i h₄ in
      (
        record {
          payload = take 64 secret;
          tag = take 8 (drop 64 secret);
          form = secret-form secret ((eq_iff (drop 72 secret) "A").0 marker);
          payload_length = eqb_to _ _ size;
          payload_hex = digits;
          material_ascii = material;
          tag_length =
              take-len 8 (drop 64 secret)
                (omega (arith, rest-length secret (eqb_to _ _ long) (eqb_to _ _ size)));
          tag_ascii = a;
          tag_right = (eq_iff (take 8 (drop 64 secret)) tag).0 (same ∙ yes_found) ∙ tag_is;
          right_ascii = ap is_ascii (sym tag_is) ∙ b;
        },
        id_same,
      )

  parsed-eq-ok :
      (b : Bool) (public_id i : String)
      → ◌≡◌ {A = Result KeyError (Option String)}
          (ok (if b then some public_id else none))
          (ok (some i))
      → (b ≡ true) × (public_id ≡ i)
  parsed-eq-ok true public_id i h = (refl, cc)
  parsed-eq-ok false public_id i h = absurd cc

  by_length :
      (public_id secret i : String) (b : Bool)
      → eqb (len secret) 64 ≡ b
      → (if b
          then ok (if k.parses_hex secret then some public_id else none)
          else tagged k public_id secret)
        ≡ ok (some i)
      → (((len secret ≡ 64) × (k.parses_hex secret ≡ true)) ⊎ IsTagged public_id secret)
        × (public_id ≡ i)
  by_length public_id secret i true e h =
      let (parses, same) = parsed-eq-ok (k.parses_hex secret) public_id i h in
      (inl (eqb_to (len secret) 64 e, parses), same)
  by_length public_id secret i false e h =
      let (t, same) = tagged-eq-ok public_id secret i h in (inr t, same)

  from_parts-eq-ok :
      (public_id secret i : String)
      → from_parts k public_id secret ≡ ok (some i)
      → (k.isalnum public_id ≡ true)
        × (((len secret ≡ 64) × (k.parses_hex secret ≡ true)) ⊎ IsTagged public_id secret)
        × (public_id ≡ i)
  unfolding from_parts
  from_parts-eq-ok public_id secret i h =
      let (alnum, h₁) = passed (k.isalnum public_id) _ i h in
      let (right, same) = by_length public_id secret i (eqb (len secret) 64) refl h₁ in
      (alnum, right, same)

  of_cut :
      (rest i : String) (pieces : List String)
      → split_at_most 1 b'_' rest ≡ pieces
      → of_parts k ("litemcp" ∷ split_at_most 1 b'_' rest) ≡ ok (some i)
      → of_parts k ("litemcp" ∷ pieces) ≡ ok (some i)
  of_cut rest i pieces e h = ap (λ ps. of_parts k ("litemcp" ∷ ps)) (sym e) ∙ h

  pieces-eq-ok :
      (plaintext rest i : String)
      → plaintext ≡ "litemcp_" & rest
      → of_parts k ("litemcp" ∷ split_at_most 1 b'_' rest) ≡ ok (some i)
      → IsKeyOf plaintext i
  pieces-eq-ok plaintext rest i form h = elim (split-IsCut "_" rest) [
    | inl e ↦ let q = of_cut rest i (rest ∷ []) e h in absurd cc
    | inr (a, b, cut, e) ↦
        let (size, h₁) = passed (eqb (len a) 24) _ i (of_cut rest i (a ∷ b ∷ []) e h) in
        let (alnum, right, same) = from_parts-eq-ok a b i h₁ in
        subst (IsKeyOf plaintext) same (record {
          secret = b;
          form = form ∙ ap (λ x. "litemcp_" & x) (cut.joined ∙ ap (λ x. a & x) (sym (dash-cons b)));
          id_length = eqb_to (len a) 24 size;
          id_piece = cut.before;
          id_alphanumeric = alnum;
          right = right;
        })
  ]

  split-prefix :
      (x : String) → split_at_most 2 b'_' ("litemcp_" & x) ≡ "litemcp" ∷ split_at_most 1 b'_' x
  split-prefix x =
      rw (prefix-split x, dash-cons x)
        (split_at_most-append 1 b'_' "litemcp" "_" x refl (omega arith))

  pub to_IsKeyOf :
      (plaintext public_id : String)
      → public_id_from_secret k plaintext ≡ ok (some public_id)
      → IsKeyOf plaintext public_id
  unfolding public_id_from_secret
  to_IsKeyOf plaintext public_id h =
      let (starts, h₁) = passed (starts_with "litemcp_" plaintext) _ public_id h in
      let form = starts_with-eq "litemcp_" plaintext starts in
      let rest = drop (len "litemcp_") plaintext in
      pieces-eq-ok plaintext rest public_id form
        (ap (of_parts k) (sym (split-prefix rest) ∙ sym (ap (split_at_most 2 b'_') form)) ∙ h₁)
