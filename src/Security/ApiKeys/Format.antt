-- ===== src/Security/ApiKeys/Format.antt =====
-- The format of a key: what `generate_secret` writes, `_public_id_from_secret` reads.
use Prim.Native.String
use text.Mathlib.TextLemmas.{nil-append, cons-append, append_assoc}
use lite_mcp.Base.{
  ℕ, suc, zero, ◌≤◌, String, Bool, true, some, [], ◌∷◌, ◌≡◌, ◌≢◌, ◌∙◌, sym, ap, refl, ◌&◌, eqb, leb,
  arith, eq_refl,
}
use lite_mcp.Base.Text.{Lacks}
use lite_mcp.Base.Length.{len}
use lite_mcp.Base.Slices.{
  take, drop, all_codes, split_at_most, len-append, take-append, drop-append, starts_with-append,
  all_codes-append, all_codes-Lacks, split_at_most-append,
}
use lite_mcp.Base.Exec.{ok}
use lite_mcp.Security.ApiKeys.{
  KeyPlatform, is_ascii, ends_with_marker, integrity_tag, tagged, from_parts, public_id_from_secret,
  generate_secret, hex_code,
}

eqb_of : (a b : ℕ) → a ≡ b → eqb a b ≡ true
eqb_of a b h = ground arith

pub prefix-split : (x : String) → "litemcp_" & x ≡ "litemcp" & ("_" & x)
prefix-split x = append_assoc "litemcp" "_" x

pub dash-cons : (x : String) → "_" & x ≡ String.◌∷◌ "_" x
dash-cons x = rw (cons-append, nil-append) refl

pub split-key :
    (p x : String)
    → Lacks b'_' p
    → split_at_most 2 b'_' ("litemcp_" & p & "_" & x) ≡ "litemcp" ∷ p ∷ x ∷ []
unfolding split_at_most
split-key p x h =
    rw (prefix-split (p & "_" & x), dash-cons (p & "_" & x), dash-cons x)
      (split_at_most-append 1 b'_' "litemcp" "_" (String.◌++◌ p (String.◌∷◌ "_" x)) refl
          (omega arith)
        ∙ ap (λ r. "litemcp" ∷ r) (split_at_most-append 0 b'_' p "_" x refl h))

-- The parts of a secret with a tag.
module _ (payload tag : String) (long : len payload ≡ 64) (short : len tag ≡ 8) where
  pub len-secret : len (payload & tag & "A") ≡ 73
  unfolding len
  len-secret = omega (arith, len-append payload (tag & "A"), len-append tag "A", long, short)

  pub marked : ends_with_marker (payload & tag & "A") ≡ true
  marked =
      rw
        (
          sym (append_assoc payload tag "A"),
          drop-append 72 (payload & tag) "A" (omega (arith, len-append payload tag, long, short)),
        )
        refl

  pub payload-secret : take 64 (payload & tag & "A") ≡ payload
  payload-secret = take-append 64 payload (tag & "A") long

  pub tag-secret : take 8 (drop 64 (payload & tag & "A")) ≡ tag
  tag-secret = rw (drop-append 64 payload (tag & "A") long) (take-append 8 tag "A" short)

pub take-len : (n : ℕ) (s : String) → n ≤ len s → len (take n s) ≡ n
unfolding take len
take-len zero s h = refl
take-len (suc n) String.[] h = absurd (omega (arith, h))
take-len (suc n) (String.◌∷◌ c s) h = omega (arith, take-len n s (omega (arith, h)))

take-all :
    (n : ℕ) (p : ℕ → Bool) (s : String) → all_codes p s ≡ true → all_codes p (take n s) ≡ true
unfolding take all_codes
take-all zero p s h = refl
take-all (suc n) p String.[] h = refl
take-all (suc n) p (String.◌∷◌ c s) h = ground (arith, take-all n p s)

pub hex_ascii : (s : String) → all_codes hex_code s ≡ true → is_ascii s ≡ true
unfolding all_codes
hex_ascii String.[] h = refl
hex_ascii (String.◌∷◌ c s) h = ground (arith, hex_ascii s)

-- What the documentation says of a hexadecimal digest, and of `isalnum` on digits and letters.
pub record KeyLaws (k : KeyPlatform) : Type 0 where
  pub len-sha256 : (s : String) → len (k.sha256 s) ≡ 64
  pub hex-sha256 : (s : String) → all_codes hex_code (k.sha256 s) ≡ true
  pub alnum-hex : (s : String) → s ≢ "" → all_codes hex_code s ≡ true → k.isalnum s ≡ true

-- The two texts that `secrets.token_hex` draws for a key.
pub record AreDrawn (public_id payload : String) : Type 0 where
  pub id_length : len public_id ≡ 24
  pub id_hex : all_codes hex_code public_id ≡ true
  pub payload_length : len payload ≡ 64
  pub payload_hex : all_codes hex_code payload ≡ true

hex-Lacks : (s : String) → all_codes hex_code s ≡ true → Lacks b'_' s
hex-Lacks s h = all_codes-Lacks hex_code b'_' s refl h

module _ (k : KeyPlatform) (laws : KeyLaws k) (public_id payload : String)
    (d : AreDrawn public_id payload) where
  abbrev tag : String
  tag = take 8 (k.sha256 (public_id & ":" & payload))

  abbrev pub plaintext_of : String
  plaintext_of = "litemcp_" & public_id & "_" & payload & tag & "A"

  pub not_empty : public_id ≢ ""
  unfolding len
  not_empty e = absurd (omega (arith, ap len e, d.id_length))

  tag-length : len tag ≡ 8
  tag-length =
      take-len 8 (k.sha256 (public_id & ":" & payload))
        (omega (arith, laws.len-sha256 (public_id & ":" & payload)))

  tag-ascii : is_ascii tag ≡ true
  tag-ascii = take-all 8 _ (k.sha256 (public_id & ":" & payload)) (
      hex_ascii (k.sha256 (public_id & ":" & payload))
        (laws.hex-sha256 (public_id & ":" & payload)))

  material-ascii : is_ascii (public_id & ":" & payload) ≡ true
  unfolding all_codes
  material-ascii =
      rw
        (
          all_codes-append (λ n. leb n 127) public_id (":" & payload),
          all_codes-append (λ n. leb n 127) ":" payload,
          hex_ascii public_id d.id_hex,
          hex_ascii payload d.payload_hex,
        )
        refl

  tag-eq-ok : integrity_tag k public_id payload ≡ ok tag
  unfolding integrity_tag
  tag-eq-ok = rw material-ascii refl

  pub generate-eq-ok : generate_secret k public_id payload ≡ ok plaintext_of
  unfolding generate_secret
  generate-eq-ok = rw tag-eq-ok refl

  compared : from_parts k public_id (payload & tag & "A") ≡ ok (some public_id)
  unfolding from_parts tagged
  compared =
      rw
        (
          laws.alnum-hex public_id not_empty d.id_hex,
          len-secret payload tag d.payload_length tag-length,
          marked payload tag d.payload_length tag-length,
          payload-secret payload tag d.payload_length tag-length,
          tag-secret payload tag d.payload_length tag-length,
          d.payload_hex,
          d.payload_length,
          tag-eq-ok,
          tag-ascii,
          eq_refl tag,
        )
        refl

  -- A generated key is read back as its public id.
  pub public_id-generated : public_id_from_secret k plaintext_of ≡ ok (some public_id)
  unfolding public_id_from_secret
  public_id-generated =
      rw
        (
          starts_with-append "litemcp_" (public_id & "_" & payload & tag & "A"),
          split-key public_id (payload & tag & "A") (hex-Lacks public_id d.id_hex),
          d.id_length,
          compared,
        )
        refl
