-- ===== src/Storage.antt =====
-- backend/src/litemcp/storage.py: the keys of objects, which are texts, as the annotations say.
-- Backend is the class.
pub mod Backend
pub mod Keys
pub mod Drive
mod Tests
use Prim.Native.Char.{Char, code}
use Prim.Native.String
use lite_mcp.Base.{
  ℕ, String, Bool, true, false, Option, none, some, ◌≡◌, ◌||◌, ◌&&◌, not, ◌==◌, eqb, leb,
  if◌then◌else◌,
}
use lite_mcp.Base.Slices.{starts_with}
use lite_mcp.Base.Checks.{◌>>=◌, ◌>>◌, require}
use lite_mcp.Base.Exec.{Result, ok, err}
use lite_mcp.Platform.Posix.{normpath}

-- The errors of the file system, and the three `ValueError`s of a key.
pub data FsError : Type 0 where
  file_not_found os_error : FsError

pub data StorageError : Type 0 where
  empty_key absolute_key escaping_key : StorageError
  not_found : String → StorageError
  raised : FsError → StorageError

-- `object_key.replace("\\", "/")`
unfoldable slashes : String → String
slashes String.[] = ""
slashes (String.◌∷◌ c s) =
    let rest = slashes s in if eqb (code c) 92 then String.◌∷◌ "/" rest else String.◌∷◌ c rest

abbrev pub is_letter : ℕ → Bool
is_letter n = leb b'A' n && leb n b'Z' || leb b'a' n && leb n b'z'

-- `re.match(r"^[A-Za-z]:/", key)`
abbrev pub has_drive : String → Bool
has_drive (String.◌∷◌ c (String.◌∷◌ d (String.◌∷◌ e s))) =
    is_letter (code c) && (eqb (code d) b':' && eqb (code e) b'/')
has_drive s = false

abbrev pub escapes : String → Bool
escapes normalized = normalized == "." || (normalized == ".." || starts_with "../" normalized)

abbrev pub check_normalized : String → Result StorageError String
check_normalized normalized = require (not (escapes normalized)) escaping_key >>= λ _. ok normalized

-- `_key`
pub key_of : String → Result StorageError String
key_of object_key = require (not (object_key == "")) empty_key >>= λ _.
    require (not (starts_with "/" (slashes object_key) || has_drive (slashes object_key)))
      absolute_key
    >>= λ _. check_normalized (normpath (slashes object_key))
