-- ===== src/Platform/Memory/Values.antt =====
-- Dates and ids in unary, and a digest that is the text itself.
use Prim.Native.Char.{Char}
use Prim.Native.String.{String, [], ◌∷◌}
use lite_mcp.Base.{ℕ, zero, suc, none, some, ◌≡◌, refl, ap}
use lite_mcp.Platform.Time.{aware}
use lite_mcp.Platform.Python.{Stdlib, StdlibLaws}

abbrev mark : Char
mark = "x"

pub unary : ℕ → String
unary zero = []
unary (suc n) = mark ∷ unary n

pub size : String → ℕ
size [] = 0
size (c ∷ s) = suc (size s)

size-unary : (n : ℕ) → size (unary n) ≡ n
unfolding size unary
size-unary zero = refl
size-unary (suc n) = ap suc (size-unary n)

abbrev pub memory_stdlib : Stdlib
memory_stdlib = record {
  sha256 = λ s. s;
  isoformat = unary;
  fromisoformat = λ s. some (aware (size s));
  uuid_str = unary;
  uuid_parse = λ s. some (size s);
  json_loads = λ s. none;
}

pub memory_stdlib-laws : StdlibLaws memory_stdlib
memory_stdlib-laws = record {
  fromisoformat-isoformat = λ t. ap (λ n. some (aware n)) (size-unary t);
  uuid_parse-str = λ i. ap some (size-unary i);
}
