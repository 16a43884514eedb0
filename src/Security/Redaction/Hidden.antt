-- ===== src/Security/Redaction/Hidden.antt =====
-- What a redacted payload says nothing of.
use lite_mcp.Base.{String, List, ◌≡◌, inl, inr, ◌∙◌, sym, ap, refl, Bool-cases, if◌then◌else◌}
use lite_mcp.Security.Redaction.{
  TextMethods, Value, text, plain, object, list, tuple, set, mapping, Items, nil, item, Members,
  end, entry, is_sensitive, redact, redact_items, redact_members,
}

module _ (m : TextMethods) where
  -- A payload without what stands under its sensitive keys, at any depth.
  unfoldable mutual
    pub blank : Value → Value
    blank (text s) = text s
    blank (plain s) = plain s
    blank (object s) = object s
    blank (list xs) = list (blank_items xs)
    blank (tuple xs) = tuple (blank_items xs)
    blank (set xs) = set (blank_items xs)
    blank (mapping ms) = mapping (blank_members ms)

    pub blank_items : Items → Items
    blank_items nil = nil
    blank_items (item x xs) = item (blank x) (blank_items xs)

    pub blank_members : Members → Members
    blank_members end = end
    blank_members (entry key v ms) =
        let kept = blank v in
        entry key (if is_sensitive m key then plain "None" else kept) (blank_members ms)

  module _ (secrets : List String) where
    mutual
      unfolding redact redact_items redact_members blank blank_items blank_members

      redact-blank : (v : Value) → redact m secrets (blank v) ≡ redact m secrets v
      redact-blank (text s) = refl
      redact-blank (plain s) = refl
      redact-blank (object s) = refl
      redact-blank (list xs) = ap list (redact-blank_items xs)
      redact-blank (tuple xs) = ap tuple (redact-blank_items xs)
      redact-blank (set xs) = ap set (redact-blank_items xs)
      redact-blank (mapping ms) = ap mapping (redact-blank_members end ms)

      redact-blank_items :
          (xs : Items) → redact_items m secrets (blank_items xs) ≡ redact_items m secrets xs
      redact-blank_items nil = refl
      redact-blank_items (item x xs) = rw (redact-blank x, redact-blank_items xs) refl

      redact-blank_members :
          (result ms : Members)
          → redact_members m secrets result (blank_members ms) ≡ redact_members m secrets result ms
      redact-blank_members result end = refl
      redact-blank_members result (entry key v ms) = elim (Bool-cases (is_sensitive m key)) [
        | inl e ↦ rw e (redact-blank_members _ ms)
        | inr e ↦ rw (e, redact-blank v) (redact-blank_members _ ms)
      ]

    -- Two payloads that differ only in what stands under sensitive keys, at any depth, are redacted
    -- to the same payload.
    pub redact_hides : (v w : Value) → blank v ≡ blank w → redact m secrets v ≡ redact m secrets w
    redact_hides v w same = sym (redact-blank v) ∙ ap (redact m secrets) same ∙ redact-blank w
