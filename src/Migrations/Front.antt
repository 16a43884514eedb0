-- ===== src/Migrations/Front.antt =====
-- Operations that put tables in front of a schema, and dropping these.
use lite_mcp.Base.{
  String, Bool, true, false, Option, none, some, List, [], ◌∷◌, ◌++◌, map, ◌≡◌, inl, inr, ◌∙◌, sym,
  ap, refl, ◌||◌, ◌&&◌, ◌==◌, member, false≢true, arith, eq_iff, eq_refl, Bool-cases, if◌then◌else◌,
}
use mathlib.Core.Path.{subst}
use lite_mcp.Base.Maybe.{>>=-eq-some}
use lite_mcp.Migrations.{
  Table, Schema, Op, create_table, create_index, create_check_constraint, drop_constraint,
  drop_table, bulk_insert, apply, run, alter, add_index, without_table, has_table, is_target,
  are_there, targets,
}
use lite_mcp.Migrations.Altered.{
  IsClosed, IsInner, add_index-IsInner, alter-cases, some-if, if-some, some-inj,
}
use lite_mcp.Migrations.Closed.{apply-IsClosed, nor}

pub run-IsClosed : (ops : List Op) (s s' : Schema) → run ops s ≡ some s' → IsClosed s → IsClosed s'
unfolding run
run-IsClosed [] s s' h c = rw (sym (some-inj s s' h)) c
run-IsClosed (op ∷ ops) s s' h c =
    let (m, here, rest) = >>=-eq-some (apply op s) (run ops) s' h in
    run-IsClosed ops m s' rest (apply-IsClosed op s m here c)

abbrev names : Schema → List String
names [] = []
names (t ∷ s) = t.name ∷ names s

-- The tables that operations create, the latest first, where they only create tables, with indexes
-- on these, and insert rows.
unfoldable pub created : List String → List Op → Option (List String)
created acc [] = some acc
created acc (create_table t ∷ ops) = created (t.name ∷ acc) ops
created acc (create_index n t cols ∷ ops) = if member t acc then created acc ops else none
created acc (create_check_constraint n t sql ∷ ops) = none
created acc (drop_constraint n t ∷ ops) = none
created acc (drop_table n ∷ ops) = none
created acc (bulk_insert n ∷ ops) = created acc ops

-- A schema with tables in front of another one.
abbrev IsFront : List String → Schema → Schema → Type 0
IsFront ns s s' = (ts : Schema) × (s' ≡ ts ++ s) × (names ts ≡ ns)

alter-IsFront :
    (n : String) (f : Table → Option Table) (ts s s' : Schema)
    → IsInner f
    → member n (names ts) ≡ true
    → alter n f (ts ++ s) ≡ some s'
    → IsFront (names ts) s s'
unfolding member
alter-IsFront n f [] s s' inner m h = absurd (false≢true m)
alter-IsFront n f (t ∷ ts) s s' inner m h = elim (alter-cases n f t (ts ++ s) s' h) [
  | inl (t', _, found, e) ↦ (t' ∷ ts, e, ap (λ x. x ∷ names ts) (inner t t' found).0)
  | inr (r, off, found, e) ↦
      let (rs, same, kept) = alter-IsFront n f ts s r inner (rest (t.name == n) _ off m) found in
      (t ∷ rs, e ∙ ap (λ x. t ∷ x) same, ap (λ x. t.name ∷ x) kept)
]
  where
    rest : (b c : Bool) → b ≡ false → (b || c) ≡ true → c ≡ true
    rest b c e h = ground arith

run-IsFront :
    (ops : List Op) (ts s s' : Schema) (ns : List String)
    → created (names ts) ops ≡ some ns
    → run ops (ts ++ s) ≡ some s'
    → IsFront ns s s'
unfolding run created apply
run-IsFront [] ts s s' ns k h = (ts, sym (some-inj _ s' h), some-inj (names ts) ns k)
run-IsFront (create_table t ∷ ops) ts s s' ns k h =
    let (m, here, rest) = >>=-eq-some (apply (create_table t) (ts ++ s)) (run ops) s' h in
    let (_, h1) = some-if (has_table t.name (ts ++ s)) _ m here in
    let (_, h2) = if-some (are_there t.name (ts ++ s) (targets t)) _ m h1 in
    run-IsFront ops (t ∷ ts) s s' ns k (ap (run ops) (some-inj _ m h2) ∙ rest)
run-IsFront (create_index n t cols ∷ ops) ts s s' ns k h =
    let (m, here, rest) = >>=-eq-some (apply (create_index n t cols) (ts ++ s)) (run ops) s' h in
    let (inside, k1) = if-some (member t (names ts)) _ ns k in
    let (us, e, same) =
      alter-IsFront t (add_index n cols) ts s m (add_index-IsInner n cols) inside here in
    run-IsFront ops us s s' ns (ap (λ x. created x ops) same ∙ k1) (ap (run ops) (sym e) ∙ rest)
run-IsFront (bulk_insert n ∷ ops) ts s s' ns k h =
    let (m, here, rest) = >>=-eq-some (apply (bulk_insert n) (ts ++ s)) (run ops) s' h in
    let (_, h1) = if-some (has_table n (ts ++ s)) _ m here in
    run-IsFront ops ts s s' ns k (ap (run ops) (some-inj _ m h1) ∙ rest)
run-IsFront (create_check_constraint n t sql ∷ ops) ts s s' ns k h = absurd cc
run-IsFront (drop_constraint n t ∷ ops) ts s s' ns k h = absurd cc
run-IsFront (drop_table n ∷ ops) ts s s' ns k h = absurd cc

without-fresh : (n : String) (s : Schema) → has_table n s ≡ false → without_table n s ≡ s
unfolding has_table without_table
without-fresh n [] h = refl
without-fresh n (t ∷ s) h =
    let (off, rest) = nor (t.name == n) (has_table n s) h in
    rw off (ap (λ r. t ∷ r) (without-fresh n s rest))

-- What is there is not a name that is neither the own one nor there.
not_there :
    (own n : String) (s : Schema) (ns : List String)
    → (own == n) ≡ false
    → has_table n s ≡ false
    → are_there own s ns ≡ true
    → member n ns ≡ false
unfolding member
not_there own n s [] off fresh h = refl
not_there own n s (x ∷ ns) off fresh h = elim (Bool-cases (x == n)) [
  | inl e ↦ absurd (missing ((eq_iff x n).0 e) h)
  | inr e ↦ rw e (not_there own n s ns off fresh (rest _ _ h))
]
  where
    rest : (a b : Bool) → (a && b) ≡ true → b ≡ true
    rest a b h = ground arith

    missing : x ≡ n → are_there own s (x ∷ ns) ≡ true → ⊥
    missing e h = false≢true (sym (rw (e, off, fresh) refl) ∙ h)

no-target : (n : String) (s : Schema) → has_table n s ≡ false → IsClosed s → is_target n s ≡ false
unfolding has_table is_target
no-target n [] h c = refl
no-target n (t ∷ s) h (fresh, refers, c) =
    let (off, rest) = nor (t.name == n) (has_table n s) h in
    rw (off, not_there t.name n s (targets t) off rest refers, no-target n s rest c) refl

drop-latest :
    (t : Table) (s : Schema) → IsClosed (t ∷ s) → apply (drop_table t.name) (t ∷ s) ≡ some s
unfolding apply has_table is_target without_table
drop-latest t s (fresh, refers, c) =
    rw (eq_refl t.name, no-target t.name s fresh c, without-fresh t.name s fresh) refl

drops-eq-some :
    (ts s : Schema) → IsClosed (ts ++ s) → run (map drop_table (names ts)) (ts ++ s) ≡ some s
unfolding run
drops-eq-some [] s c = refl
drops-eq-some (t ∷ ts) s (fresh, refers, c) =
    rw (drop-latest t (ts ++ s) (fresh, refers, c)) (drops-eq-some ts s c)

pub built :
    (up down : List Op) (ns : List String) (s s' : Schema)
    → created [] up ≡ some ns
    → down ≡ map drop_table ns
    → IsClosed s
    → run up s ≡ some s'
    → run down s' ≡ some s
built up down ns s s' k d c h =
    let (ts, e, same) = run-IsFront up [] s s' ns k h in
    let closed = subst IsClosed e (run-IsClosed up s s' h c) in
    ap (λ o. run o s') (d ∙ ap (map drop_table) (sym same))
    ∙ ap (run (map drop_table (names ts))) e
    ∙ drops-eq-some ts s closed
