-- ===== src/Migrations/Altered.antt =====
-- Changes of one table: they keep its name and its references, and with them a closed schema.
use lite_mcp.Base.{
  String, Bool, true, false, Option, none, some, List, [], ◌∷◌, ◌++◌, ◌≡◌, ◌⊎◌, inl, inr, ◌∙◌, sym,
  ap, refl, ◌==◌, all, false≢true, Bool-cases, if◌then◌else◌,
}
use lite_mcp.Base.Maybe.{>>=-eq-some}
use lite_mcp.Migrations.{
  Table, Schema, Constraint, unique_constraint, index, check_constraint, foreign_key, alter, add,
  add_index, drop_check, without_check, has_table, has_constraint, are_there, targets, targets_of,
  constraint_name,
}

-- The latest table comes first; it refers to itself and to older ones.
abbrev pub IsClosed : Schema → Type 0
IsClosed [] = Unit
IsClosed (t ∷ s) =
    (has_table t.name s ≡ false) × (are_there t.name s (targets t) ≡ true) × IsClosed s

-- A change of a table that keeps its name and what it refers to.
abbrev pub IsInner : (Table → Option Table) → Type 0
IsInner f = (t t' : Table) → f t ≡ some t' → (t'.name ≡ t.name) × (targets t' ≡ targets t)

targets-append :
    (cs ds : List Constraint) → targets_of ds ≡ [] → targets_of (cs ++ ds) ≡ targets_of cs
unfolding targets_of
targets-append [] ds h = h
targets-append (unique_constraint n cols ∷ cs) ds h = targets-append cs ds h
targets-append (index n cols ∷ cs) ds h = targets-append cs ds h
targets-append (check_constraint n sql ∷ cs) ds h = targets-append cs ds h
targets-append (foreign_key n cols t refs d ∷ cs) ds h = ap (λ r. t ∷ r) (targets-append cs ds h)

targets-without :
    (n : String) (cs : List Constraint) → targets_of (without_check n cs) ≡ targets_of cs
unfolding targets_of without_check
targets-without n [] = refl
targets-without n (unique_constraint m cols ∷ cs) = targets-without n cs
targets-without n (index m cols ∷ cs) = targets-without n cs
targets-without n (foreign_key m cols t refs d ∷ cs) = ap (λ r. t ∷ r) (targets-without n cs)
targets-without n (check_constraint m sql ∷ cs) = elim (Bool-cases (m == n)) [
  | inl e ↦ rw e (targets-without n cs)
  | inr e ↦ rw e (targets-without n cs)
]

pub some-if :
    {A : Type 0} (b : Bool) (o : Option A) (a : A)
    → (if b then none else o) ≡ some a
    → (b ≡ false) × (o ≡ some a)
some-if true o a h = absurd cc
some-if false o a h = (refl, h)

pub if-some :
    {A : Type 0} (b : Bool) (o : Option A) (a : A)
    → (if b then o else none) ≡ some a
    → (b ≡ true) × (o ≡ some a)
if-some true o a h = (refl, h)
if-some false o a h = absurd cc

pub some-inj : {A : Type 0} (a b : A) → ◌≡◌ {A = Option A} (some a) (some b) → a ≡ b
some-inj a b h = ap (λ o. elim o [ none ↦ a | some x ↦ x ]) h

add-IsInner : (c : Constraint) → targets_of (c ∷ []) ≡ [] → IsInner (add c)
add-IsInner c inner t t' h =
    let (_, e) = some-if (has_constraint (constraint_name c) t.constraints) _ t' h in
    let same = some-inj _ t' e in
    (
      ap (λ x. x.name) (sym same),
      ap targets (sym same) ∙ targets-append t.constraints (c ∷ []) inner,
    )

pub add_index-IsInner : (n : String) (cols : List String) → IsInner (add_index n cols)
unfolding targets_of
add_index-IsInner n cols t t' h =
    let (_, e) = if-some (all _ cols) _ t' h in add-IsInner (index n cols) refl t t' e

pub add_check-IsInner : (n sql : String) → IsInner (add (check_constraint n sql))
unfolding targets_of
add_check-IsInner n sql = add-IsInner (check_constraint n sql) refl

pub drop_check-IsInner : (n : String) → IsInner (drop_check n)
drop_check-IsInner n t t' h =
    let (_, e) = if-some (has_constraint n t.constraints) _ t' h in
    let same = some-inj _ t' e in
    (ap (λ x. x.name) (sym same), ap targets (sym same) ∙ targets-without n t.constraints)

module _ (n : String) (f : Table → Option Table) where
  -- The altered table is the first or one of the rest.
  pub alter-cases :
      (t : Table) (s s' : Schema)
      → alter n f (t ∷ s) ≡ some s'
      → ((t' : Table) × ((t.name == n) ≡ true) × (f t ≡ some t') × (s' ≡ (t' ∷ s)))
        ⊎ ((r : Schema) × ((t.name == n) ≡ false) × (alter n f s ≡ some r) × (s' ≡ (t ∷ r)))
  unfolding alter
  alter-cases t s s' h = elim (Bool-cases (t.name == n)) [
    | inl e ↦
        let (t', found, rest) = >>=-eq-some (f t) _ s' (here (t.name == n) _ _ s' e h) in
        inl (t', e, found, sym (some-inj (t' ∷ s) s' rest))
    | inr e ↦
        let (r, found, rest) = >>=-eq-some (alter n f s) _ s' (there (t.name == n) _ _ s' e h) in
        inr (r, e, found, sym (some-inj (t ∷ r) s' rest))
  ]
    where
      here :
          (b : Bool) (x y : Option Schema) (z : Schema)
          → b ≡ true
          → (if b then x else y) ≡ some z
          → x ≡ some z
      here true x y z e h = h
      here false x y z e h = absurd (false≢true e)

      there :
          (b : Bool) (x y : Option Schema) (z : Schema)
          → b ≡ false
          → (if b then x else y) ≡ some z
          → y ≡ some z
      there true x y z e h = absurd (false≢true (sym e))
      there false x y z e h = h

  module _ (inner : IsInner f) where
    pub has_table-alter :
        (m : String) (s s' : Schema) → alter n f s ≡ some s' → has_table m s' ≡ has_table m s
    unfolding has_table alter
    has_table-alter m [] s' h = absurd cc
    has_table-alter m (t ∷ s) s' h = elim (alter-cases t s s' h) [
      | inl (t', _, found, e) ↦ rw (e, (inner t t' found).0) refl
      | inr (r, _, found, e) ↦ rw (e, has_table-alter m s r found) refl
    ]

    are_there-alter :
        (own : String) (ns : List String) (s s' : Schema)
        → alter n f s ≡ some s'
        → are_there own s' ns ≡ are_there own s ns
    are_there-alter own [] s s' h = refl
    are_there-alter own (x ∷ ns) s s' h =
        rw (has_table-alter x s s' h, are_there-alter own ns s s' h) refl

    pub alter-IsClosed : (s s' : Schema) → alter n f s ≡ some s' → IsClosed s → IsClosed s'
    unfolding alter
    alter-IsClosed [] s' h c = absurd cc
    alter-IsClosed (t ∷ s) s' h (fresh, refers, c) = elim (alter-cases t s s' h) [
      | inl (t', _, found, e) ↦
          let (name, same) = inner t t' found in rw (e) (rw (name) fresh, rw (name, same) refers, c)
      | inr (r, _, found, e) ↦ rw (e) (
        has_table-alter t.name s r found ∙ fresh,
        are_there-alter t.name (targets t) s r found ∙ refers,
        alter-IsClosed s r found c,
      )
    ]
