-- ===== src/Platform/Posix.antt =====
-- Python's `posixpath.normpath` of a text that does not start with a slash, by the algorithm of the
-- standard library: its list `new_comps`, which grows and shrinks at the end, is a stack here.
use lite_mcp.Base.{
  String, Bool, true, false, List, [], ◌∷◌, ◌≡◌, ◌≢◌, inl, inr, ◌∙◌, refl, sym, ◌||◌, ◌==◌, arith,
  eq_iff, Bool-cases, if◌then◌else◌, All, false≢true, ne_str, str_ne, ap, ◌++◌,
}
use lite_mcp.Base.Text.{Lacks, split}
use lite_mcp.Base.Pieces.{join, split-Lacks}

unfoldable pub rev_onto : List String → List String → List String
rev_onto [] ys = ys
rev_onto (x ∷ xs) ys = rev_onto xs (x ∷ ys)

-- What `..` does to the components before it.
abbrev climb : List String → List String
climb [] = ".." ∷ []
climb (top ∷ rest) = if top == ".." then ".." ∷ top ∷ rest else rest

abbrev norm_step : List String → String → List String
norm_step acc comp =
    if comp == "" || comp == "." then acc else if comp == ".." then climb acc else comp ∷ acc

unfoldable pub norm_from : List String → List String → List String
norm_from acc [] = acc
norm_from acc (comp ∷ comps) = norm_from (norm_step acc comp) comps

unfoldable pub components : String → List String
components path = rev_onto (norm_from [] (split b'/' path)) []

-- `path or "."`
abbrev or_dot : String → String
or_dot path = if path == "" then "." else path

unfoldable pub normpath : String → String
normpath path = or_dot (join "/" (components path))

pub normpath-components :
    (path : String)
    → normpath path ≡ (if join "/" (components path) == "" then "." else join "/" (components path))
unfolding normpath
normpath-components path = refl

-- A name of a path below the one it starts from.
abbrev pub IsProper : String → Type 0
IsProper c = (c ≢ "") × (c ≢ ".") × (c ≢ "..") × Lacks b'/' c

abbrev IsUp : String → Type 0
IsUp c = c ≡ ".."

-- A stack in which only `..` is below a `..`.
abbrev IsStacked : List String → Type 0
IsStacked [] = Unit
IsStacked (c ∷ cs) = (c ≢ "") × (c ≢ ".") × Lacks b'/' c × (c ≡ ".." → All IsUp cs) × IsStacked cs

abbrev pub is_up : List String → Bool
is_up [] = false
is_up (c ∷ cs) = c == ".."

neither : (a b : Bool) → (a || b) ≡ false → (a ≡ false) × (b ≡ false)
neither a b h = ground arith

below_up : (cs : List String) → All IsUp cs → IsStacked cs → IsStacked (".." ∷ cs)
below_up cs ups h = (
  ne_str ".." "" refl,
  ne_str ".." "." refl,
  (λ e. omega (arith, e), (λ e. omega (arith, e), tt)),
  (λ _. ups),
  h,
)

climb-IsStacked : (acc : List String) → IsStacked acc → IsStacked (climb acc)
climb-IsStacked [] h = below_up [] tt tt
climb-IsStacked (top ∷ rest) (full, here, lacks, below, h) = elim (Bool-cases (top == "..")) [
  | inl e ↦
      let up = (eq_iff top "..").0 e in
      rw e (below_up (top ∷ rest) (up, below up) (full, here, lacks, below, h))
  | inr e ↦ rw e h
]

step-IsStacked :
    (acc : List String) (c : String) → Lacks b'/' c → IsStacked acc → IsStacked (norm_step acc c)
step-IsStacked acc c lacks h = elim (Bool-cases (c == "" || c == ".")) [
  | inl e ↦ rw e h
  | inr e ↦
      let (full, here) = neither (c == "") (c == ".") e in
      elim (Bool-cases (c == "..")) [
        | inl up ↦ rw (e, up) (climb-IsStacked acc h)
        | inr down ↦
            rw (e, down)
              (ne_str c "" full, ne_str c "." here, lacks, (λ q. absurd (ne_str c ".." down q)), h)
      ]
]

from-IsStacked :
    (acc comps : List String)
    → All (Lacks b'/') comps
    → IsStacked acc
    → IsStacked (norm_from acc comps)
unfolding norm_from
from-IsStacked acc [] hs h = h
from-IsStacked acc (c ∷ cs) (hc, hs) h =
    from-IsStacked (norm_step acc c) cs hs (step-IsStacked acc c hc h)

ups : (xs ys : List String) → All IsUp xs → is_up (rev_onto xs (".." ∷ ys)) ≡ true
unfolding rev_onto
ups [] ys h = refl
ups (x ∷ xs) ys (e, h) = rw e (ups xs (".." ∷ ys) h)

proper :
    (xs ys : List String)
    → IsStacked xs
    → All IsProper ys
    → is_up (rev_onto xs ys) ≡ false
    → All IsProper (rev_onto xs ys)
unfolding rev_onto
proper [] ys h hys down = hys
proper (x ∷ xs) ys (full, here, lacks, below, h) hys down =
    proper xs (x ∷ ys) h
      ((full, here, (λ e. false≢true (sym down ∙ rw e (ups xs ys (below e)))), lacks), hys) down

-- The components of a normalized path that does not start with `..` are proper names.
pub components-IsProper :
    (path : String) → is_up (components path) ≡ false → All IsProper (components path)
unfolding components
components-IsProper path down =
    proper (norm_from [] (split b'/' path)) []
      (from-IsStacked [] (split b'/' path) (split-Lacks b'/' path) tt) tt down

step-proper : (acc : List String) (c : String) → IsProper c → norm_step acc c ≡ (c ∷ acc)
step-proper acc c (full, here, down, _) =
    rw (str_ne c "" full, str_ne c "." here, str_ne c ".." down) refl

from-proper : (acc cs : List String) → All IsProper cs → norm_from acc cs ≡ rev_onto cs acc
unfolding norm_from rev_onto
from-proper acc [] h = refl
from-proper acc (c ∷ cs) (hc, hcs) =
    ap (λ a. norm_from a cs) (step-proper acc c hc) ∙ from-proper (c ∷ acc) cs hcs

rev_onto-rev_onto :
    (xs acc ys : List String) → rev_onto (rev_onto xs acc) ys ≡ rev_onto acc (xs ++ ys)
unfolding rev_onto
rev_onto-rev_onto [] acc ys = refl
rev_onto-rev_onto (x ∷ xs) acc ys = rev_onto-rev_onto xs (x ∷ acc) ys

append-nil : (xs : List String) → (xs ++ []) ≡ xs
append-nil [] = refl
append-nil (x ∷ xs) = ap (λ r. x ∷ r) (append-nil xs)

-- A path with `.` in front of proper names has those names.
pub components-dot :
    (path : String) (cs : List String)
    → split b'/' path ≡ "." ∷ cs
    → All IsProper cs
    → components path ≡ cs
unfolding components norm_from rev_onto
components-dot path cs e h =
    ap (λ s. rev_onto (norm_from [] s) []) e
    ∙ ap (λ s. rev_onto s []) (from-proper [] cs h)
    ∙ rev_onto-rev_onto cs [] []
    ∙ append-nil cs
