-- ===== src/Db/Types.antt =====
-- backend/src/litemcp/db/types.py: the physical type that each logical type has on a dialect, by the
-- dialect's name. Values is on what goes through the types.
pub mod Values
use lite_mcp.Base.{
  ℕ, String, Bool, true, false, List, [], ◌∷◌, ◌≡◌, ◌≤◌, ◌+◌, ◌==◌, max, map, member, arith, eq_iff,
  if◌then◌else◌, Bool-cases, inl, inr, ap,
}
use lite_mcp.Base.Length.{len}

-- SQLAlchemy's types.
pub data Physical : Type 0 where
  uuid_native : Physical
  char varchar : ℕ → Physical
  -- with its digits of a second
  datetime : ℕ → Physical
  datetime_tz : Physical
  -- with their `none_as_null`
  jsonb json : Bool → Physical
  longblob large_binary longtext text : Physical

module _ (dialect : String) where
  -- `ID.load_dialect_impl`, and that of the other types
  abbrev pub id_impl : Physical
  id_impl = if dialect == "postgresql" then uuid_native else char 36

  abbrev pub utc_ts_impl : Physical
  utc_ts_impl = if dialect == "mysql" then datetime 6 else datetime_tz

  abbrev pub json_doc_impl : Bool → Physical
  json_doc_impl none_as_null =
      if dialect == "postgresql" then jsonb none_as_null else json none_as_null

  abbrev pub ciphertext_impl : Physical
  ciphertext_impl = if dialect == "mysql" then longblob else large_binary

  abbrev pub long_text_impl : Physical
  long_text_impl = if dialect == "mysql" then longtext else text

-- `max((len(code) for code in codes))` behind a first code
unfoldable pub longest : ℕ → List String → ℕ
longest n [] = n
longest n (code ∷ codes) = longest (max n (len code)) codes

abbrev longest_or : ℕ → List String → ℕ
longest_or default [] = default
longest_or default (code ∷ codes) = longest (len code) codes

-- `ENUM_CODE._length`
unfoldable pub enum_length : List String → ℕ
unfolding longest
enum_length codes = longest_or 16 codes + 16

abbrev pub enum_code_impl : List String → Physical
enum_code_impl codes = varchar (enum_length codes)

longest-bounds : (n : ℕ) (codes : List String) → n ≤ longest n codes
unfolding longest
longest-bounds n [] = omega arith
longest-bounds n (code ∷ codes) = omega (arith, longest-bounds (max n (len code)) codes)

longest-member :
    (n : ℕ) (code : String) (codes : List String)
    → member code codes ≡ true
    → len code ≤ longest n codes
unfolding longest member
longest-member n code [] h = cc
longest-member n code (c ∷ codes) h = elim (Bool-cases (c == code)) [
  | inl e ↦
      let here = longest-bounds (max n (len c)) codes in
      omega (arith, here, ap len ((eq_iff c code).0 e))
  | inr e ↦ longest-member (max n (len c)) code codes (ground arith)
]

-- A code of the column fits in it, with 16 characters to spare.
code_fits :
    (code : String) (codes : List String)
    → member code codes ≡ true
    → len code + 16 ≤ enum_length codes
unfolding enum_length member
code_fits code [] h = cc
code_fits code (c ∷ codes) h = elim (Bool-cases (c == code)) [
  | inl e ↦
      let here = longest-bounds (len c) codes in omega (arith, here, ap len ((eq_iff c code).0 e))
  | inr e ↦ let later = longest-member (len c) code codes (ground arith) in omega (arith, later)
]
