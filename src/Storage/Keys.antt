-- ===== src/Storage/Keys.antt =====
-- The keys that pass the validation.
use text.Mathlib.TextLemmas.{nil-append, cons-append}
use lite_mcp.Base.{
  String, Bool, true, false, List, [], ◌∷◌, ◌≡◌, inl, inr, ◌∙◌, refl, sym, ap, ◌||◌, not, ◌==◌, ◌&◌,
  arith, eq_iff, Bool-cases, if◌then◌else◌, All, false≢true, str_ne,
}
use lite_mcp.Base.Text.{Lacks, split}
use lite_mcp.Base.Pieces.{join, split-join}
use lite_mcp.Base.Slices.{starts_with}
use lite_mcp.Base.Checks.{require-eq-ok, require-last}
use lite_mcp.Base.Exec.{ok}
use lite_mcp.Platform.Posix.{
  IsProper, normpath, normpath-components, components, components-IsProper, is_up,
}
use lite_mcp.Storage.{key_of, escapes, check_normalized, slashes}

neither : (a b c : Bool) → not (a || (b || c)) ≡ true → (a ≡ false) × (b ≡ false) × (c ≡ false)
neither a b c h = ground arith

-- The text of a path, by its components.
abbrev shown : List String → String
shown cs = if join "/" cs == "" then "." else join "/" cs

refused : (a b c : Bool) → c ≡ true → (a || (b || c)) ≡ true
refused a b c h = ground arith

-- A path that starts with `..` is refused.
parent-Escapes :
    (path : String)
    → starts_with "../" path ≡ true
    → escapes (if path == "" then "." else path) ≡ true
unfolding starts_with
parent-Escapes path h =
    rw (str_ne path "" (λ e. false≢true (sym (ap (starts_with "../") e) ∙ h)))
      (refused (path == ".") (path == "..") (starts_with "../" path) h)

up-Escapes : (cs : List String) → is_up cs ≡ true → escapes (shown cs) ≡ true
unfolding join starts_with
up-Escapes [] h = absurd (false≢true h)
up-Escapes (c ∷ []) h = rw ((eq_iff c "..").0 h) refl
up-Escapes (c ∷ d ∷ cs) h = rw ((eq_iff c "..").0 h) (
    parent-Escapes (".." & String.◌∷◌ "/" (join "/" (d ∷ cs)))
      (rw (cons-append, cons-append, nil-append) refl))

split-shown :
    (cs : List String)
    → All (Lacks b'/') cs
    → escapes (shown cs) ≡ false
    → split b'/' (shown cs) ≡ cs
unfolding join
split-shown [] h inside = absurd (false≢true (sym inside))
split-shown (c ∷ cs) h inside = elim (Bool-cases (join "/" (c ∷ cs) == "")) [
  | inl e ↦ absurd (false≢true (sym inside ∙ rw e refl))
  | inr e ↦ rw e (split-join "/" c cs h)
]

proper-Lacks : (cs : List String) → All IsProper cs → All (Lacks b'/') cs
proper-Lacks [] h = tt
proper-Lacks (c ∷ cs) ((_, _, _, lacks), h) = (lacks, proper-Lacks cs h)

inside-IsProper :
    (path : String) → escapes (normpath path) ≡ false → All IsProper (split b'/' (normpath path))
inside-IsProper path inside = elim (Bool-cases (is_up (components path))) [
  | inl up ↦ absurd (
      false≢true
        (sym inside ∙ ap escapes (normpath-components path) ∙ up-Escapes (components path) up))
  | inr down ↦
      let names = components-IsProper path down in
      rw
        (
          normpath-components path,
          split-shown (components path) (proper-Lacks (components path) names)
              (ap escapes (sym (normpath-components path)) ∙ inside),
        )
        names
]

not-false : (b : Bool) → not b ≡ true → b ≡ false
not-false b h = ground arith

-- The components of a key that passes the validation are names: none is empty, `.` or `..`, and so
-- the key does not start with a slash and no `..` leads out of the root.
pub key_of-IsProper :
    (object_key key : String) → key_of object_key ≡ ok key → All IsProper (split b'/' key)
unfolding key_of
key_of-IsProper object_key key h =
    let (_, h1) = require-eq-ok (not (object_key == "")) _ _ key h in
    let (_, h2) = require-eq-ok _ _ (check_normalized (normpath (slashes object_key))) key h1 in
    let (inside, e) = require-last (not (escapes (normpath (slashes object_key)))) _ _ key h2 in
    rw (sym e) (inside-IsProper (slashes object_key) (not-false _ inside))
