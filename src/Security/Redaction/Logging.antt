-- ===== src/Security/Redaction/Logging.antt =====
-- backend/src/litemcp/security/redaction.py: the filter of log records. `LogRecord.getMessage` is a
-- parameter; an exception is rendered as in Exceptions, and fuel that runs out is Python's limit of
-- nested calls, whose error gives the text of a failure.
use lite_mcp.Base.{
  ℕ, String, Bool, true, false, Option, none, some, List, [], ◌∷◌, ◌≡◌, refl, ap, ◌∙◌, ◌&◌, member,
  if◌then◌else◌, map,
}
use lite_mcp.Security.Redaction.{TextMethods, Value, Items, nil, redact, redact_text}
use lite_mcp.Security.Redaction.Exceptions.{Raised, sanitize_exception}
use lite_mcp.Security.Redaction.Hidden.{blank, redact_hides}

abbrev pub redaction_failure : String
redaction_failure = "[redaction failed; output omitted]"

-- `_STANDARD_RECORD_FIELDS`
abbrev standard_record_fields : List String
standard_record_fields =
    "name" ∷ "msg" ∷ "args" ∷ "levelname" ∷ "levelno" ∷ "pathname" ∷ "filename" ∷ "module"
    ∷ "exc_info" ∷ "exc_text" ∷ "stack_info" ∷ "lineno" ∷ "funcName" ∷ "created" ∷ "msecs"
    ∷ "relativeCreated" ∷ "thread" ∷ "threadName" ∷ "processName" ∷ "process" ∷ "taskName" ∷ []

abbrev pub is_standard : String → Bool
is_standard key = member key standard_record_fields

-- The three members that the filter sets, and the others of `__dict__`. `exc_info` is the exception of
-- the triple, by its id.
pub record LogRecord : Type 0 where
  pub msg : String
  pub args : Items
  pub exc_info : Option (Option ℕ)
  pub fields : List (String × Value)

abbrev or_failure : Option String → String
or_failure none = redaction_failure
or_failure (some rendered) = rendered

module _ (m : TextMethods) (secrets : List String) (heap : ℕ → Raised) (fuel : ℕ)
    (get_message : LogRecord → Option String) where
  abbrev with_exception : Option (Option ℕ) → String → String
  with_exception (some (some e)) message =
      message & "\n" & or_failure (sanitize_exception m secrets heap fuel e)
  with_exception _ message = message

  abbrev cleared : Option (Option ℕ) → Option (Option ℕ)
  cleared (some (some e)) = none
  cleared exc_info = exc_info

  abbrev redact_field : String × Value → String × Value
  redact_field (key, v) = (key, if is_standard key then v else redact m secrets v)

  abbrev filtered : LogRecord → Option String → LogRecord
  filtered r none = record r { msg = redaction_failure; args = nil; exc_info = none }
  filtered r (some message) = record {
    msg = redact_text m secrets (with_exception r.exc_info message);
    args = nil;
    exc_info = cleared r.exc_info;
    fields = map redact_field r.fields;
  }

  -- `filter`; it always returns true
  pub filter : LogRecord → LogRecord
  filter r = filtered r (get_message r)

  -- Two lists of members with the same names, whose values differ only in what stands under sensitive
  -- keys of a mapping in a member that is not a standard one.
  abbrev pub IsAlike : List (String × Value) → List (String × Value) → Type 0
  IsAlike [] [] = Unit
  IsAlike ((k, v) ∷ fs) ((l, w) ∷ gs) =
      (k ≡ l)
      × ((if is_standard k then v else blank m v) ≡ (if is_standard k then w else blank m w))
      × IsAlike fs gs
  IsAlike _ _ = ⊥

  alike_value :
      (b : Bool) (v w : Value)
      → (if b then v else blank m v) ≡ (if b then w else blank m w)
      → (if b then v else redact m secrets v) ≡ (if b then w else redact m secrets w)
  alike_value true v w h = h
  alike_value false v w h = redact_hides m secrets v w h

  alike-field :
      (k : String) (v w : Value)
      → (if is_standard k then v else blank m v) ≡ (if is_standard k then w else blank m w)
      → redact_field (k, v) ≡ redact_field (k, w)
  alike-field k v w h = ap (λ x. (k, x)) (alike_value (is_standard k) v w h)

  alike-map :
      (fs gs : List (String × Value)) → IsAlike fs gs → map redact_field fs ≡ map redact_field gs
  alike-map [] [] h = refl
  alike-map (f ∷ fs) [] h = absurd h
  alike-map [] (g ∷ gs) h = absurd h
  alike-map ((k, v) ∷ fs) ((l, w) ∷ gs) (e, same, h) =
      ap (λ x. x ∷ map redact_field fs) (alike-field k v w same ∙ ap (λ x. redact_field (x, w)) e)
      ∙ ap (λ xs. redact_field (l, w) ∷ xs) (alike-map fs gs h)

  -- Two records with the same message and the same exception leave the filter as the same record, if
  -- their members are alike.
  pub filter_hides :
      (r s : LogRecord) (message : String)
      → get_message r ≡ some message
      → get_message s ≡ some message
      → r.exc_info ≡ s.exc_info
      → IsAlike r.fields s.fields
      → filter r ≡ filter s
  unfolding filter
  filter_hides r s message hr hs e h = rw (hr, hs, e, alike-map r.fields s.fields h) refl
