-- ===== src/Security/Redaction/Tests.antt =====
-- The theorem on payloads at a concrete one, with methods that leave a text as it is.
use lite_mcp.Base.{
  zero, suc, ◌∷◌, ap, ℕ, ◌<◌, some, none, Option, arith, String, [], ◌≡◌, refl, member, ◌==◌,
  if◌then◌else◌,
}
use lite_mcp.Security.Redaction.{
  TextMethods, Value, text, list, mapping, nil, item, end, entry, redacted, is_sensitive,
  underscores, strip_left, strip_right, redact, assign, redact_text, replace_secrets,
}
use lite_mcp.Security.Redaction.Exceptions.{Raised, sanitize_exception}
use lite_mcp.Security.Redaction.Exceptions.Ends.{IsHeap, sanitize-Ends}
use lite_mcp.Security.Redaction.Logging.{LogRecord, filter, filter_hides}
use lite_mcp.Security.Redaction.Hidden.{blank, redact_hides}

abbrev methods : TextMethods
methods = record {
  replace = λ old new value. value;
  lower = λ s. if s == "Set-Cookie" then "set-cookie" else s;
  sub = λ p replacement value. value;
}

abbrev payload : String → Value
payload secret =
    list (item (mapping (entry "user" (text "ann") (entry "'Set-Cookie'" (text secret) end))) nil)

shown :
    redact methods [] (payload "a")
    ≡ list
        (item (mapping (entry "user" (text "ann") (entry "'Set-Cookie'" (text redacted) end))) nil)
unfolding redact is_sensitive underscores strip_left strip_right member assign redact_text
    replace_secrets
shown = refl

redact_hides_example : redact methods [] (payload "a") ≡ redact methods [] (payload "b")
unfolding blank is_sensitive underscores strip_left strip_right member
redact_hides_example = redact_hides methods [] (payload "a") (payload "b") refl

-- An exception whose cause was raised while it was handled.
abbrev circle : ℕ → Raised
circle zero = record { label = "ValueError: a"; cause = some 1; context = none }
circle (suc e) = record { label = "KeyError: b"; cause = none; context = some 0 }

abbrev or_zero : Option ℕ → ℕ
or_zero none = 0
or_zero (some n) = n

cause_in : (e c : ℕ) → e < 2 → (circle e).cause ≡ some c → c < 2
cause_in zero c h k = omega (arith, ap or_zero k)
cause_in (suc e) c h k = absurd cc

context_in : (e c : ℕ) → e < 2 → (circle e).context ≡ some c → c < 2
context_in zero c h k = absurd cc
context_in (suc e) c h k = omega (arith, ap or_zero k)

abbrev circle-IsHeap : IsHeap 2 circle
circle-IsHeap = record {
  cause_in = λ e c h k. cause_in e c h k;
  context_in = λ e c h k. context_in e c h k;
}

sanitize-Ends_example : (s : String) × (sanitize_exception methods [] circle 3 0 ≡ some s)
sanitize-Ends_example =
    sanitize-Ends methods [] 2 circle circle-IsHeap 0 3 (omega arith) (omega arith)

-- A record with an exception and a member that is a mapping.
abbrev log_record : String → LogRecord
log_record secret = record {
  msg = "login of %s";
  args = nil;
  exc_info = some (some 0);
  fields = ("module", text "auth") ∷ ("context", payload secret) ∷ [];
}

filter_hides_example :
    filter methods [] circle 3 (λ r. some "login of ann") (log_record "a")
    ≡ filter methods [] circle 3 (λ r. some "login of ann") (log_record "b")
unfolding blank is_sensitive underscores strip_left strip_right member
filter_hides_example =
    filter_hides methods [] circle 3 (λ r. some "login of ann") (log_record "a") (log_record "b")
      "login of ann" refl refl refl (refl, refl, (refl, refl, tt))
