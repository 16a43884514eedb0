-- ===== src/Storage/Tests.antt =====
-- The theorems on storage at concrete keys, with a disk that is a function from paths.
use lite_mcp.Base.{
  String, Option, none, some, List, [], ◌∷◌, ◌≡◌, ◌≢◌, refl, ◌==◌, All, if◌then◌else◌, eq_refl,
  str_ne,
}
use lite_mcp.Base.Text.{split}
use lite_mcp.Base.Pieces.{join}
use lite_mcp.Base.Slices.{starts_with}
use lite_mcp.Base.Exec.{Result, ok, err}
use lite_mcp.Platform.Posix.{IsProper, normpath, components, norm_from, rev_onto}
use lite_mcp.Storage.{FsError, file_not_found, slashes, key_of}
use lite_mcp.Storage.Keys.{key_of-IsProper}
use lite_mcp.Storage.Backend.{FileSystem}
use lite_mcp.Storage.Backend.Refines.{
  FileLaws, Op, to_put, to_get, to_delete, Steps, calls, view, calls-Steps, content,
}

normalized : key_of "a\\.//b" ≡ ok "a/b"
unfolding key_of slashes normpath components norm_from rev_onto split join starts_with
normalized = refl

key_of-IsProper_example : All IsProper (split b'/' "a/b")
key_of-IsProper_example = key_of-IsProper "a\\.//b" "a/b" normalized

abbrev set : (String → Option String) → String → Option String → String → Option String
set s p v q = if p == q then v else s q

abbrev remove :
    (String → Option String) → String → Option String → Option FsError × (String → Option String)
remove s p none = (some file_not_found, s)
remove s p (some b) = (none, set s p none)

abbrev read : Option String → Result FsError String
read none = err file_not_found
read (some b) = ok b

abbrev disk : FileSystem
disk = record {
  FilePath = String;
  Bytes = String;
  Disk = String → Option String;
  join = λ root key. key;
  make_parent = λ p s. (none, s);
  write_bytes = λ p b s. (none, set s p (some b));
  read_bytes = λ p s. read (s p);
  unlink = λ p s. remove s p (s p);
  digest = λ b. b;
}

removes :
    (s : String → Option String) (p : String) (o : Option String)
    → (remove s p o).0 ≡ none
    → content disk (remove s p o).1 p ≡ none
removes s p none e = absurd cc
removes s p (some b) e = rw (eq_refl p) refl

keeps :
    (s : String → Option String) (p q : String) (o : Option String)
    → p ≢ q
    → content disk (remove s p o).1 q ≡ content disk s q
keeps s p q none ne = refl
keeps s p q (some b) ne = rw (str_ne p q ne) refl

raises :
    (s : String → Option String) (p q : String) (o : Option String) (e : FsError)
    → (remove s p o).0 ≡ some e
    → content disk (remove s p o).1 q ≡ content disk s q
raises s p q none e h = refl
raises s p q (some b) e h = absurd cc

abbrev disk-laws : FileLaws disk ""
disk-laws = record {
  distinct = λ a b ka kb ne. ne;
  make_parent_keeps = λ p q s. refl;
  write_stores = λ p b s e. rw (eq_refl p) refl;
  write_keeps = λ p q b s ne. rw (str_ne p q ne) refl;
  unlink_removes = λ p s. removes s p (s p);
  unlink_keeps = λ p q s. keeps s p q (s p);
  unlink_raises = λ p q s. raises s p q (s p);
}

abbrev empty : String → Option String
empty p = none

abbrev three : List (Op disk)
three = to_put "a//b" "x" ∷ to_get "./a/b" ∷ to_delete "../c" ∷ []

calls-Steps_example :
    Steps disk
      (view disk "" empty)
      three
      (calls disk "" three empty).0
      (view disk "" (calls disk "" three empty).1)
calls-Steps_example = calls-Steps disk "" disk-laws three empty
