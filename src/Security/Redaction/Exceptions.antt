-- ===== src/Security/Redaction/Exceptions.antt =====
-- backend/src/litemcp/security/redaction.py: `sanitize_exception`. Exceptions are found by their
-- `id()`; causes and contexts may lead back to an exception. The calls of `visit` are counted by fuel;
-- Python's own limit of nested calls is not modelled.
pub mod Ends
use lite_mcp.Base.{
  ℕ, zero, suc, ◌+◌, ◌≤◌, ◌<◌, String, Bool, true, false, Option, none, some, List, [], ◌∷◌, ◌++◌,
  ◌≡◌, ◌≢◌, ◌⊎◌, inl, inr, ◌∙◌, sym, ap, refl, ◌&◌, ◌||◌, ◌==◌, eqb, arith, if◌then◌else◌,
  Bool-cases,
}
use lite_mcp.Base.Maybe.{◌>>=◌}
use lite_mcp.Base.Pieces.{join}
use lite_mcp.Security.Redaction.{TextMethods, redact_text}

-- An exception: its type and message, and the ids of what it was raised from and while.
pub record Raised : Type 0 where
  pub label : String
  pub cause : Option ℕ
  pub context : Option ℕ

-- `seen` and `rendered`
pub record Trace : Type 0 where
  pub seen : List ℕ
  pub rendered : List String

unfoldable was_seen : ℕ → List ℕ → Bool
was_seen e [] = false
was_seen e (x ∷ xs) = eqb x e || was_seen e xs

-- The context, where it is not the cause.
abbrev other : Option ℕ → Option ℕ → Option ℕ
other cause none = none
other none (some context) = some context
other (some cause) (some context) = if eqb cause context then none else some context

-- `relation + ': ' if relation else ''`
abbrev prefix : String → String
prefix relation = if relation == "" then "" else relation & ": "

abbrev follow : (ℕ → String → Trace → Option Trace) → Option ℕ → String → Trace → Option Trace
follow f none relation t = some t
follow f (some e) relation t = f e relation t

module _ (m : TextMethods) (secrets : List String) (heap : ℕ → Raised) where
  abbrev enter : ℕ → String → Trace → Trace
  enter e relation t = record {
    seen = e ∷ t.seen;
    rendered = t.rendered ++ redact_text m secrets (prefix relation & (heap e).label) ∷ [];
  }

  pub visit : ℕ → ℕ → String → Trace → Option Trace
  visit zero e relation t = none
  visit (suc n) e relation t =
      let again = visit n in
      if was_seen e t.seen
      then some t
      else (follow again (heap e).cause "cause" (enter e relation t) >>= λ t'.
          follow again (other (heap e).cause (heap e).context) "context" t')

  -- `sanitize_exception`, `none` where the fuel is not enough.
  pub sanitize_exception : ℕ → ℕ → Option String
  sanitize_exception fuel exception =
      visit fuel exception "" (record { seen = []; rendered = [] }) >>= λ t.
      some (join "\n" t.rendered)
