-- ===== src/Migrations/Closed.antt =====
-- The schema stays closed: names of tables are unique and every reference has its table.
use lite_mcp.Base.{
  String, Bool, true, false, some, List, [], ◌∷◌, ◌≡◌, inl, inr, sym, refl, ◌||◌, ◌&&◌, not, ◌==◌,
  member, arith, eq_iff, Bool-cases,
}
use lite_mcp.Migrations.{
  Schema, Op, check_constraint, create_table, create_index, create_check_constraint,
  drop_constraint, drop_table, bulk_insert, apply, add, add_index, drop_check, without_table,
  has_table, is_target, are_there, targets,
}
use lite_mcp.Migrations.Altered.{
  IsClosed, add_index-IsInner, add_check-IsInner, drop_check-IsInner, alter-IsClosed, some-if,
  if-some, some-inj,
}

pub nor : (a b : Bool) → (a || b) ≡ false → (a ≡ false) × (b ≡ false)
nor a b h = ground arith

and_split : (a b : Bool) → (a && b) ≡ true → (a ≡ true) × (b ≡ true)
and_split a b h = ground arith

module _ (n : String) where
  has-without :
      (m : String) (s : Schema) → (m == n) ≡ false → has_table m (without_table n s) ≡ has_table m s
  unfolding has_table without_table
  has-without m [] h = refl
  has-without m (t ∷ s) h = elim (Bool-cases (t.name == n)) [
    | inl e ↦
        let off : (t.name == m) ≡ false =
          ground (arith, eq_iff t.name n, eq_iff t.name m, eq_iff m n, e, h) in
        rw (e, off) (has-without m s h)
    | inr e ↦ rw (e, has-without m s h) refl
  ]

  fresh-without :
      (m : String) (s : Schema) → has_table m s ≡ false → has_table m (without_table n s) ≡ false
  unfolding has_table without_table
  fresh-without m [] h = refl
  fresh-without m (t ∷ s) h =
      let (off, rest) = nor (t.name == m) (has_table m s) h in
      elim (Bool-cases (t.name == n)) [
        | inl e ↦ rw e (fresh-without m s rest)
        | inr e ↦ rw (e, off, fresh-without m s rest) refl
      ]

  are_there-without :
      (own : String) (ns : List String) (s : Schema)
      → member n ns ≡ false
      → are_there own s ns ≡ true
      → are_there own (without_table n s) ns ≡ true
  unfolding member
  are_there-without own [] s out h = refl
  are_there-without own (x ∷ ns) s out h =
      let (off, rest) = nor (x == n) (member n ns) out in
      let (here, others) = and_split _ (are_there own s ns) h in
      rw (has-without x s off, here, are_there-without own ns s rest others) refl

  without-IsClosed :
      (s : Schema) → is_target n s ≡ false → IsClosed s → IsClosed (without_table n s)
  unfolding is_target without_table
  without-IsClosed [] h c = tt
  without-IsClosed (t ∷ s) h (fresh, refers, c) =
      let (off, rest) = nor _ (is_target n s) h in
      elim (Bool-cases (t.name == n)) [
        | inl e ↦ rw e (without-IsClosed s rest c)
        | inr e ↦ rw e (
          fresh-without t.name s fresh,
          are_there-without t.name (targets t) s (ground (arith, off, e)) refers,
          without-IsClosed s rest c,
        )
      ]

-- Every operation that the database takes keeps the schema closed: the names of its tables are
-- different, and a table refers only to tables that are there, itself or older ones.
pub apply-IsClosed : (op : Op) (s s' : Schema) → apply op s ≡ some s' → IsClosed s → IsClosed s'
unfolding apply
apply-IsClosed (create_table t) s s' h c =
    let (fresh, h1) = some-if (has_table t.name s) _ s' h in
    let (refers, h2) = if-some (are_there t.name s (targets t)) _ s' h1 in
    rw (sym (some-inj (t ∷ s) s' h2)) (fresh, refers, c)
apply-IsClosed (create_index n t cols) s s' h c =
    alter-IsClosed t (add_index n cols) (add_index-IsInner n cols) s s' h c
apply-IsClosed (create_check_constraint n t sql) s s' h c =
    alter-IsClosed t (add (check_constraint n sql)) (add_check-IsInner n sql) s s' h c
apply-IsClosed (drop_constraint n t) s s' h c =
    alter-IsClosed t (drop_check n) (drop_check-IsInner n) s s' h c
apply-IsClosed (drop_table n) s s' h c =
    let (_, h1) = some-if (not (has_table n s)) _ s' h in
    let (free, h2) = some-if (is_target n s) _ s' h1 in
    rw (sym (some-inj (without_table n s) s' h2)) (without-IsClosed n s free c)
apply-IsClosed (bulk_insert n) s s' h c =
    let (_, h1) = if-some (has_table n s) _ s' h in rw (sym (some-inj s s' h1)) c
