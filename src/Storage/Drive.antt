-- ===== src/Storage/Drive.antt =====
-- The test on a drive, which looks at the key before it is normalized.
use Prim.Native.Char.{Char, code}
use text.Mathlib.TextLemmas.{nil-append, cons-append}
use lite_mcp.Base.{
  ◌<◌, ◌≤◌, String, true, false, [], ◌∷◌, ◌≡◌, ◌∙◌, refl, ap, ◌||◌, ◌==◌, ◌&◌, arith, if◌then◌else◌,
  str_ne, eqb,
}
use lite_mcp.Base.Length.{len}
use lite_mcp.Base.Text.{Lacks, split, split_of_Lacks}
use lite_mcp.Base.Pieces.{join}
use lite_mcp.Base.Slices.{starts_with}
use lite_mcp.Base.Exec.{ok, err}
use lite_mcp.Platform.Posix.{IsProper, normpath, normpath-components, components, components-dot}
use lite_mcp.Storage.{key_of, slashes, is_letter, has_drive, absolute_key}

-- A drive with a name on it, such as `C:/x`.
abbrev pub on_drive : Char → String → String
on_drive c name = String.◌∷◌ c (String.◌∷◌ ":" (String.◌∷◌ "/" name))

slashes-Lacks : (s : String) → Lacks 92 s → slashes s ≡ s
unfolding slashes
slashes-Lacks String.[] h = refl
slashes-Lacks (String.◌∷◌ d s) (hd, hs) = ground (arith, slashes-Lacks s hs)

longer_ne : (s t : String) → len t < len s → (s == t) ≡ false
longer_ne s t h = str_ne s t (λ e. absurd (omega (arith, ap len e, h)))

module _ (c : Char) (name : String) (letter : is_letter (code c) ≡ true) (lacks : Lacks 92 name)
    (h : IsProper name) where
  abbrev drive : String
  drive = on_drive c name

  abbrev dotted : String
  dotted = String.◌∷◌ "." (String.◌∷◌ "/" drive)

  slashes-drive : slashes drive ≡ drive
  slashes-drive =
      slashes-Lacks drive
        (ground (arith, letter), ((λ e. omega (arith, e)), ((λ e. omega (arith, e)), lacks)))

  slashes-dotted : slashes dotted ≡ dotted
  unfolding slashes
  slashes-dotted = rw slashes-drive refl

  long : 3 ≤ len drive
  unfolding len
  long = omega arith

  pieces : split b'/' dotted ≡ "." ∷ String.◌∷◌ c ":" ∷ name ∷ []
  unfolding split
  pieces =
      let (_, _, _, name-Lacks) = h in
      let off : eqb (code c) b'/' ≡ false = ground (arith, letter) in
      rw (off, split_of_Lacks b'/' name name-Lacks) refl

  letter-IsProper : IsProper (String.◌∷◌ c ":")
  unfolding len starts_with
  letter-IsProper = (
    (λ e. omega (arith, ap len e)),
    (λ e. omega (arith, ap len e)),
    (λ e. ground (arith, letter, ap (starts_with ".") e)),
    (ground (arith, letter), ((λ e. omega (arith, e)), tt)),
  )

  components-dotted : components dotted ≡ String.◌∷◌ c ":" ∷ name ∷ []
  components-dotted = components-dot dotted _ pieces (letter-IsProper, (h, tt))

  normpath-dotted : normpath dotted ≡ drive
  unfolding join len
  normpath-dotted =
      normpath-components dotted
      ∙ ap (λ cs. if join "/" cs == "" then "." else join "/" cs) components-dotted
      ∙ rw (cons-append, cons-append, nil-append, longer_ne drive "" (omega (arith, long))) refl

  drive-IsAbsolute : (starts_with "/" drive || has_drive drive) ≡ true
  drive-IsAbsolute = ground (arith, letter)

  dotted-IsRelative : (starts_with "/" dotted || has_drive dotted) ≡ false
  unfolding starts_with
  dotted-IsRelative = refl

  drive-stays : starts_with "../" drive ≡ false
  unfolding starts_with
  drive-stays = ground (arith, letter)

  -- A key that names a drive is refused, and the same key behind `./` becomes the key with the drive.
  drive-IsKept :
      (key_of (on_drive c name) ≡ err absolute_key)
      × (key_of ("./" & on_drive c name) ≡ ok (on_drive c name))
  unfolding key_of len
  drive-IsKept =
      rw
        (
          cons-append,
          cons-append,
          nil-append,
          slashes-drive,
          slashes-dotted,
          normpath-dotted,
          longer_ne drive "" (omega (arith, long)),
          longer_ne dotted "" (omega (arith, long)),
          longer_ne drive "." (omega (arith, long)),
          longer_ne drive ".." (omega (arith, long)),
          drive-IsAbsolute,
          dotted-IsRelative,
          drive-stays,
        )
        (refl, refl)
