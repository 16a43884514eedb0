-- ===== src/Security/Redaction/Exceptions/Ends.antt =====
-- The rendering of an exception ends.
use lite_mcp.Base.{
  ℕ, zero, suc, ◌+◌, ◌≤◌, ◌<◌, String, Bool, true, false, Option, none, some, List, [], ◌∷◌, ◌≡◌,
  inl, inr, ◌∙◌, sym, ap, refl, eqb, arith, if◌then◌else◌, Bool-cases,
}
use lite_mcp.Base.Pieces.{join}
use lite_mcp.Security.Redaction.{TextMethods}
use lite_mcp.Security.Redaction.Exceptions.{
  Raised, Trace, was_seen, other, follow, enter, visit, sanitize_exception,
}

-- The ids below a bound that are not seen.
unseen : ℕ → List ℕ → ℕ
unseen zero seen = 0
unseen (suc k) seen = (if was_seen k seen then 0 else 1) + unseen k seen

unseen-le : (k e : ℕ) (seen : List ℕ) → unseen k (e ∷ seen) ≤ unseen k seen
unfolding unseen was_seen
unseen-le zero e seen = omega arith
unseen-le (suc k) e seen = ground (arith, unseen-le k e seen)

unseen-lt :
    (k e : ℕ) (seen : List ℕ)
    → e < k
    → was_seen e seen ≡ false
    → unseen k (e ∷ seen) < unseen k seen
unfolding unseen was_seen
unseen-lt zero e seen h new = absurd (omega (arith, h))
unseen-lt (suc k) e seen h new = elim (Bool-cases (eqb e k)) [
  | inl q ↦
      let same : e ≡ k = ground (arith, q) in
      let fresh : was_seen k seen ≡ false = ap (λ x. was_seen x seen) (sym same) ∙ new in
      ground (arith, unseen-le k e seen, fresh, q)
  | inr q ↦ ground (arith, unseen-lt k e seen (ground (arith, h, q)) new, q)
]

-- Causes and contexts are exceptions below the bound.
pub record IsHeap (size : ℕ) (heap : ℕ → Raised) : Type 0 where
  pub cause_in : (e c : ℕ) → e < size → (heap e).cause ≡ some c → c < size
  pub context_in : (e c : ℕ) → e < size → (heap e).context ≡ some c → c < size

kept :
    (b : Bool) (x c : ℕ)
    → (if b then none else some x) ≡ some c
    → ◌≡◌ {A = Option ℕ} (some x) (some c)
kept true x c h = absurd cc
kept false x c h = h

other-eq : (cause context : Option ℕ) (c : ℕ) → other cause context ≡ some c → context ≡ some c
other-eq cause none c h = h
other-eq none (some x) c h = h
other-eq (some y) (some x) c h = kept (eqb y x) x c h

module _ (m : TextMethods) (secrets : List String) (size : ℕ) (heap : ℕ → Raised)
    (closed : IsHeap size heap) where
  -- The visit ends, and has seen no less than before.
  abbrev Ends : Trace → Option Trace → Type 0
  Ends t o = (t' : Trace) × (o ≡ some t') × (unseen size t'.seen ≤ unseen size t.seen)

  follow-Ends :
      (n : ℕ) (f : ℕ → String → Trace → Option Trace) (o : Option ℕ) (relation : String) (t : Trace)
      → ((c : ℕ) (u : Trace) → c < size → unseen size u.seen < n → Ends u (f c relation u))
      → ((c : ℕ) → o ≡ some c → c < size)
      → unseen size t.seen < n
      → Ends t (follow f o relation t)
  follow-Ends n f none relation t visits inside h = (t, refl, omega arith)
  follow-Ends n f (some c) relation t visits inside h = visits c t (inside c refl) h

  visit-Ends :
      (n e : ℕ) (relation : String) (t : Trace)
      → e < size
      → unseen size t.seen < n
      → Ends t (visit m secrets heap n e relation t)
  unfolding visit
  visit-Ends zero e relation t inside h = absurd (omega (arith, h))
  visit-Ends (suc n) e relation t inside h = elim (Bool-cases (was_seen e t.seen)) [
    | inl q ↦ (t, rw q refl, omega arith)
    | inr q ↦
        let again = visit m secrets heap n in
        let t1 = enter m secrets heap e relation t in
        let less : unseen size t1.seen < unseen size t.seen = unseen-lt size e t.seen inside q in
        let (t2, e2, le2) =
          follow-Ends n again (heap e).cause "cause" t1 (λ c u. visit-Ends n c "cause" u)
            (λ c k. closed.cause_in e c inside k) (omega (arith, less, h)) in
        let (t3, e3, le3) =
          follow-Ends n again (other (heap e).cause (heap e).context) "context" t2
            (λ c u. visit-Ends n c "context" u)
            (λ c k. closed.context_in e c inside (other-eq _ _ c k))
            (omega (arith, less, le2, h)) in
        (t3, rw (q, e2) e3, omega (arith, less, le2, le3))
  ]

  unseen-nil : (k : ℕ) → unseen k [] ≤ k
  unfolding unseen was_seen
  unseen-nil zero = omega arith
  unseen-nil (suc k) = omega (arith, unseen-nil k)

  -- The rendering of an exception ends, also where causes and contexts lead back to it: one call of
  -- `visit` more than there are exceptions is enough.
  pub sanitize-Ends :
      (exception fuel : ℕ)
      → exception < size
      → size < fuel
      → (s : String) × (sanitize_exception m secrets heap fuel exception ≡ some s)
  unfolding sanitize_exception
  sanitize-Ends exception fuel inside enough =
      let (t, e, _) =
        visit-Ends fuel exception "" (record { seen = []; rendered = [] }) inside
          (omega (arith, unseen-nil size, enough)) in
      (join "\n" t.rendered, rw e refl)
