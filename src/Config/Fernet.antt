-- ===== src/Config/Fernet.antt =====
-- backend/src/litemcp/core/config.py: `_FERNET_KEY_RE`, written out, with the line break that Python's
-- `$` lets pass.
use Prim.Native.Char.{Char, code}
use Prim.Native.String.{String, [], ◌∷◌}
use lite_mcp.Base.{ℕ, suc, zero, Bool, false, ◌==◌, ◌||◌, ◌&&◌, eqb, leb}

-- `[A-Za-z0-9_-]`
urlsafe : Char → Bool
urlsafe c =
    leb b'A' (code c) && leb (code c) b'Z'
    || leb b'a' (code c) && leb (code c) b'z'
    || leb b'0' (code c) && leb (code c) b'9'
    || eqb (code c) b'_'
    || eqb (code c) b'-'

-- `$`: the end, or a line break before it.
at_end : String → Bool
at_end s = s == "" || s == "\n"

-- `n` characters of the class, and `close` behind them.
run : ℕ → (String → Bool) → String → Bool
run zero close s = close s
run (suc n) close [] = false
run (suc n) close (c ∷ s) = urlsafe c && run n close s

equals_sign : String → Bool
equals_sign [] = false
equals_sign (c ∷ s) = eqb (code c) b'=' && at_end s

-- `_FERNET_KEY_RE.match(key)`
pub matches_fernet_key : String → Bool
matches_fernet_key key = run 43 equals_sign key || run 44 at_end key
