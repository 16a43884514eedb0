-- ===== src/Base/Length.antt =====
-- The lengths of a text: its characters, and its bytes in UTF-8.
use Prim.Native.Nat.{ℕ, suc, ◌+◌}
use Prim.Native.Char.{code}
use Prim.Native.String.{String, [], ◌∷◌}
use package.lite_mcp.Base.Tests.{leb, if◌then◌else◌}

-- `len(s)`
unfoldable pub len : String → ℕ
len [] = 0
len (c ∷ s) = suc (len s)

-- The bytes of a character in UTF-8.
unfoldable pub width : ℕ → ℕ
width n = if leb n 127 then 1 else if leb n 2047 then 2 else if leb n 65535 then 3 else 4

-- `len(value.encode("utf-8"))`
unfoldable pub byte_length : String → ℕ
byte_length [] = 0
byte_length (c ∷ s) = width (code c) + byte_length s
