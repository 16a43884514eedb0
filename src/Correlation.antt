-- ===== src/Correlation.antt =====
-- backend/src/litemcp/correlation.py: the id of a request. The 32 characters of `token_hex` are an
-- argument.
use Prim.Native.Char.{Char, code}
use Prim.Native.String.{[], ◌∷◌}
use text.Mathlib.TextLemmas.{nil-append, cons-append}
use lite_mcp.Base.Length.{len, width, byte_length}
use lite_mcp.Base.{
  ◌+◌, String, Bool, true, Option, none, some, ◌≡◌, refl, ◌&◌, ◌&&◌, ◌||◌, eqb, leb, arith,
  if◌then◌else◌, Bool-cases, inl, inr,
}
use lite_mcp.Base.Exec.{Exec, ◌>>=◌, ◌>>◌, modify, pure}
use lite_mcp.Platform.Asgi.{Scope}
use lite_mcp.Platform.Python.{Exception}

-- `[A-Za-z0-9._-]`
id_char : Char → Bool
id_char c =
    leb b'A' (code c) && leb (code c) b'Z'
    || leb b'a' (code c) && leb (code c) b'z'
    || leb b'0' (code c) && leb (code c) b'9'
    || eqb (code c) b'.'
    || eqb (code c) b'_'
    || eqb (code c) b'-'

-- `[A-Za-z0-9._-]*`
pub all_id_chars : String → Bool
all_id_chars [] = true
all_id_chars (c ∷ s) = id_char c && all_id_chars s

-- The pattern asks for one character or more, and the length for one byte or more.
pub is_valid_request_id : String → Bool
is_valid_request_id value =
    all_id_chars value && leb 1 (byte_length value) && leb (byte_length value) 128

abbrev pub generate_request_id : String → String
generate_request_id hex = "req_" & hex

-- The id that a request gets.
abbrev choose : Option String → String → String
choose none hex = generate_request_id hex
choose (some inbound) hex = if is_valid_request_id inbound then inbound else generate_request_id hex

unfoldable pub request_id : Option String → String → String
request_id inbound hex = choose inbound hex

-- `CorrelationIdMiddleware.dispatch`; `call_next` is the rest of the application.
unfoldable pub dispatch :
    {S R : Type 0}
    → (String → String → R → R)
    → Option String
    → String
    → Exec (Scope S) Exception R
    → Exec (Scope S) Exception R
dispatch set_header inbound hex call_next =
    modify (λ s. record s { state = some (request_id inbound hex) }) >> call_next >>= λ response.
    pure (set_header "X-Request-Id" (request_id inbound hex) response)

-- `0-9a-f`
unfoldable pub all_hex : String → Bool
all_hex [] = true
all_hex (c ∷ s) =
    (leb b'0' (code c) && leb (code c) b'9' || leb b'a' (code c) && leb (code c) b'f') && all_hex s

hex_chars : (s : String) → all_hex s ≡ true → all_id_chars s ≡ true
unfolding all_hex all_id_chars id_char
hex_chars [] h = refl
hex_chars (c ∷ s) h = ground (arith, hex_chars s)

hex_bytes : (s : String) → all_hex s ≡ true → byte_length s ≡ len s
unfolding all_hex byte_length width len
hex_bytes [] h = refl
hex_bytes (c ∷ s) h = ground (arith, hex_bytes s)

chars-req : (hex : String) → all_id_chars ("req_" & hex) ≡ all_id_chars hex
unfolding all_id_chars id_char
chars-req hex = rw (cons-append, cons-append, cons-append, cons-append, nil-append) refl

bytes-req : (hex : String) → byte_length ("req_" & hex) ≡ 4 + byte_length hex
unfolding byte_length width
bytes-req hex = rw (cons-append, cons-append, cons-append, cons-append, nil-append) (omega arith)

generated :
    (hex : String)
    → all_hex hex ≡ true
    → len hex ≡ 32
    → is_valid_request_id (generate_request_id hex) ≡ true
unfolding is_valid_request_id
generated hex h n = rw (chars-req hex, bytes-req hex, hex_chars hex h, hex_bytes hex h, n) refl

-- Whatever the header holds, the id of a request is valid, where the text drawn for a new one is 32
-- hexadecimal digits.
pub request_id_valid :
    (inbound : Option String) (hex : String)
    → all_hex hex ≡ true
    → len hex ≡ 32
    → is_valid_request_id (request_id inbound hex) ≡ true
unfolding request_id
request_id_valid none hex h n = generated hex h n
request_id_valid (some inbound) hex h n = elim (Bool-cases (is_valid_request_id inbound)) [
  | inl e ↦ rw e e
  | inr e ↦ rw e (generated hex h n)
]
