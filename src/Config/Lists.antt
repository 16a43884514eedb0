-- ===== src/Config/Lists.antt =====
-- backend/src/litemcp/core/config.py: the settings that the environment gives as text with commas, and
-- `csrf_allowed_origins` of main.py. `str.strip` is a parameter.
use lite_mcp.Base.{
  String, Bool, true, false, List, [], ◌∷◌, map, ◌≡◌, ◌≢◌, ◌↔◌, sym, ap, refl, ◌||◌, ◌==◌, arith,
  All, ne_str, str_ne, if◌then◌else◌,
}
use lite_mcp.Base.Text.{split}
use lite_mcp.Base.Exec.{Result, ok, err}

pub data ListError : Type 0 where
  blank_entry : ListError

module _ (strip : String → String) where
  -- `_split_encryption_keys` and `_split_csv_lists`, of a text
  abbrev pub split_csv : String → List String
  split_csv value = map strip (split b',' value)

  abbrev is_blank : String → Bool
  is_blank entry = entry == "" || strip entry == ""

  -- The loop of `_encryption_keys_not_blank` and `_no_blank_origins`.
  unfoldable pub find_blank : List String → Bool
  find_blank [] = false
  find_blank (entry ∷ entries) = is_blank entry || find_blank entries

  unfoldable pub not_blank : List String → Result ListError (List String)
  not_blank value = if find_blank value then err blank_entry else ok value

  -- `allowed_origins`, as `csrf_allowed_origins` hands it on.
  unfoldable pub allowed_origins : String → Result ListError (List String)
  allowed_origins value = not_blank (split_csv value)

  nor : (a b : Bool) → (a || b) ≡ false → (a ≡ false) × (b ≡ false)
  nor a b h = ground arith

  passed :
      (b : Bool) (x y : List String)
      → ◌≡◌ {A = Result ListError (List String)} (if b then err blank_entry else ok x) (ok y)
      → (b ≡ false) × (x ≡ y)
  passed true x y h = cc
  passed false x y h = (refl, cc)

  module _ (strip-strip : (s : String) → strip (strip s) ≡ strip s) where
    abbrev pub IsGiven : String → Type 0
    IsGiven piece = strip piece ≢ ""

    blank-false :
        (pieces : List String) → find_blank (map strip pieces) ≡ false → All IsGiven pieces
    unfolding find_blank
    blank-false [] h = tt
    blank-false (p ∷ ps) h =
        let (here, rest) = nor (is_blank (strip p)) (find_blank (map strip ps)) h in
        let (full, _) = nor (strip p == "") (strip (strip p) == "") here in
        (ne_str (strip p) "" full, blank-false ps rest)

    given-false :
        (pieces : List String) → All IsGiven pieces → find_blank (map strip pieces) ≡ false
    unfolding find_blank
    given-false [] h = refl
    given-false (p ∷ ps) (given, h) =
        rw (strip-strip p, str_ne (strip p) "" given, given-false ps h) refl

    -- A text is accepted exactly if none of its pieces between commas is blank, and the origins are
    -- these pieces, stripped.
    pub allowed_origins_iff :
        (value : String) (origins : List String)
        → (allowed_origins value ≡ ok origins)
          ↔ ((origins ≡ map strip (split b',' value)) × All IsGiven (split b',' value))
    unfolding allowed_origins not_blank
    allowed_origins_iff value origins = (
      λ h.
          let (e, same) = passed (find_blank (split_csv value)) (split_csv value) origins h in
          (sym same, blank-false (split b',' value) e),
      λ (same, given). rw (given-false (split b',' value) given) (ap ok (sym same)),
    )
