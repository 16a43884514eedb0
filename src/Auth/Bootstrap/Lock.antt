-- ===== src/Auth/Bootstrap/Lock.antt =====
-- `bootstrap_first_admin` of backend/src/litemcp/auth/bootstrap.py in transactions that run at the same
-- time, one statement of any of them at a time. The row of `bootstrap_lock` is held from the
-- `SELECT ... FOR UPDATE` to the end of the transaction; the rows of `user` are those committed.
use lite_mcp.Base.{
  ℕ, String, Bool, true, false, Option, none, some, List, [], ◌∷◌, ◌++◌, length, eqb, ◌≡◌, ◌≢◌, ◌⊎◌,
  inl, inr, ◌∙◌, sym, ap, refl, arith, false≢true, Bool-cases, if◌then◌else◌,
}
use lite_mcp.Db.User.{User}
use lite_mcp.Auth.Bootstrap.{Attempt, first_admin}

-- Where a transaction is.
pub data Phase : Type 0 where
  waiting locked refused rolled_back : Phase
  counted : ℕ → Phase
  inserted committed : User → Phase

pub record System : Type 0 where
  pub rows : List User
  pub holder : Option ℕ
  pub phase : ℕ → Phase

abbrev pub set : ℕ → Phase → (ℕ → Phase) → ℕ → Phase
set i p phase j = if eqb i j then p else phase j

-- The transaction holds the lock.
abbrev pub is_inside : Phase → Bool
is_inside locked = true
is_inside (counted n) = true
is_inside (inserted user) = true
is_inside waiting = false
is_inside refused = false
is_inside rolled_back = false
is_inside (committed user) = false

abbrev pub initial : System
initial = record { rows = []; holder = none; phase = λ i. waiting }

module _ (normalize_username hash : String → String) (attempts : ℕ → Attempt) where
  -- The call of each transaction, `attempts`, statement by statement.
  pub data Step (s : System) : System → Type 0 where
    lock :
        (i : ℕ)
        → s.phase i ≡ waiting
        → s.holder ≡ none
        → Step s (record s { holder = some i; phase = set i locked s.phase })
    count :
        (i : ℕ)
        → s.phase i ≡ locked
        → Step s (record s { phase = set i (counted (length s.rows)) s.phase })
    refuse :
        (i n : ℕ)
        → s.phase i ≡ counted n
        → eqb n 0 ≡ false
        → Step s (record s { holder = none; phase = set i refused s.phase })
    insert :
        (i n : ℕ)
        → s.phase i ≡ counted n
        → eqb n 0 ≡ true
        → Step s (record s {
          phase = set i (inserted (first_admin normalize_username hash (attempts i))) s.phase;
        })
    commit :
        (i : ℕ) (user : User)
        → s.phase i ≡ inserted user
        → Step s (record s {
          rows = s.rows ++ user ∷ [];
          holder = none;
          phase = set i (committed user) s.phase;
        })
    roll_back :
        (i : ℕ)
        → is_inside (s.phase i) ≡ true
        → Step s (record s { holder = none; phase = set i rolled_back s.phase })

  pub data Reach : System → Type 0 where
    here : Reach initial
    next : {s t : System} → Reach s → Step s t → Reach t

  abbrev admin_of : ℕ → User
  admin_of i = first_admin normalize_username hash (attempts i)

  record Inv (s : System) : Type 0 where
    held : (i : ℕ) → is_inside (s.phase i) ≡ true → s.holder ≡ some i
    seen : (i n : ℕ) → s.phase i ≡ counted n → n ≡ length s.rows
    empty : (i : ℕ) (u : User) → s.phase i ≡ inserted u → (s.rows ≡ []) × (u ≡ admin_of i)
    made : (i : ℕ) (u : User) → s.phase i ≡ committed u → (s.rows ≡ u ∷ []) × (u ≡ admin_of i)
    alone : (i j : ℕ) (u v : User) → s.phase i ≡ committed u → s.phase j ≡ committed v → i ≡ j
    from : (s.rows ≡ []) ⊎ ((i : ℕ) × (s.phase i ≡ committed (admin_of i)))

  eqb_to : (a b : ℕ) → eqb a b ≡ true → a ≡ b
  eqb_to a b h = ground arith

  eqb_off : (a b : ℕ) → a ≢ b → eqb a b ≡ false
  eqb_off a b h = ground arith

  set-cases :
      (i j : ℕ) (p : Phase) (f : ℕ → Phase)
      → ((i ≡ j) × (set i p f j ≡ p)) ⊎ ((i ≢ j) × (set i p f j ≡ f j))
  set-cases i j p f = elim (Bool-cases (eqb i j)) [
    | inl e ↦ inl (eqb_to i j e, rw e refl)
    | inr e ↦ inr (λ q. ground (arith, e, q), rw e refl)
  ]

  same_holder : (i j : ℕ) → ◌≡◌ {A = Option ℕ} (some i) (some j) → i ≡ j
  same_holder i j h = cc

  module _ (s : System) (inv : Inv s) (i : ℕ) where
    -- The invariant after a step of transaction `i` that leaves the rows.
    keeps :
        (p : Phase) (holder : Option ℕ)
        → ((j : ℕ) → is_inside (set i p s.phase j) ≡ true → holder ≡ some j)
        → ((n : ℕ) → p ≡ counted n → n ≡ length s.rows)
        → ((u : User) → p ≡ inserted u → (s.rows ≡ []) × (u ≡ admin_of i))
        → ((u : User) → p ≢ committed u)
        → ((u : User) → s.phase i ≢ committed u)
        → Inv (record s { holder = holder; phase = set i p s.phase })
    keeps p holder a b c d e = record {
      held = a;
      seen = λ j n h. elim (set-cases i j p s.phase) [
        | inl (q, r) ↦ b n (sym r ∙ h)
        | inr (q, r) ↦ inv.seen j n (sym r ∙ h)
      ];
      empty = λ j u h. elim (set-cases i j p s.phase) [
        | inl (q, r) ↦ let (x, y) = c u (sym r ∙ h) in (x, y ∙ ap admin_of q)
        | inr (q, r) ↦ inv.empty j u (sym r ∙ h)
      ];
      made = λ j u h. elim (set-cases i j p s.phase) [
        | inl (q, r) ↦ absurd (d u (sym r ∙ h))
        | inr (q, r) ↦ inv.made j u (sym r ∙ h)
      ];
      alone = λ j k u v h g. elim (set-cases i j p s.phase) [
        | inl (q, r) ↦ absurd (d u (sym r ∙ h))
        | inr (q, r) ↦ elim (set-cases i k p s.phase) [
          | inl (q', r') ↦ absurd (d v (sym r' ∙ g))
          | inr (q', r') ↦ inv.alone j k u v (sym r ∙ h) (sym r' ∙ g)
        ]
      ];
      from = elim inv.from [
        | inl x ↦ inl x
        | inr (j, x) ↦ elim (set-cases i j p s.phase) [
          | inl (q, r) ↦ absurd (e (admin_of j) (ap s.phase q ∙ x))
          | inr (q, r) ↦ inr (j, r ∙ x)
        ]
      ];
    }

    module _ (inside : is_inside (s.phase i) ≡ true) where
      -- No other transaction is inside.
      only : (j : ℕ) → is_inside (s.phase j) ≡ true → i ≡ j
      only j h = same_holder i j (sym (inv.held i inside) ∙ inv.held j h)

      -- The lock is kept by a transaction that stays inside, and free after one that leaves.
      stays : (p : Phase) (j : ℕ) → is_inside (set i p s.phase j) ≡ true → s.holder ≡ some j
      stays p j h = elim (set-cases i j p s.phase) [
        | inl (q, r) ↦ inv.held i inside ∙ ap some q
        | inr (q, r) ↦ inv.held j (sym (ap is_inside r) ∙ h)
      ]

      leaves :
          (p : Phase)
          → is_inside p ≡ false
          → (j : ℕ) → is_inside (set i p s.phase j) ≡ true
          → none ≡ some j
      leaves p out j h = elim (set-cases i j p s.phase) [
        | inl (q, r) ↦ absurd (false≢true (sym out ∙ sym (ap is_inside r) ∙ h))
        | inr (q, r) ↦ absurd (q (only j (sym (ap is_inside r) ∙ h)))
      ]

      not_committed : (u : User) → s.phase i ≢ committed u
      not_committed u e = absurd (false≢true (sym (ap is_inside e) ∙ inside))

    committed-inj : (u v : User) → Phase.committed u ≡ committed v → u ≡ v
    committed-inj u v h = cc

    module _ (user : User) (at : s.phase i ≡ inserted user) where
      inside_now : is_inside (s.phase i) ≡ true
      inside_now = ap is_inside at

      -- After its commit no transaction is inside, and no other one has committed.
      nobody : (j : ℕ) (x : Phase) → is_inside x ≡ true → set i (committed user) s.phase j ≢ x
      nobody j x inside h = elim (set-cases i j (committed user) s.phase) [
        | inl (q, r) ↦ absurd (false≢true (ap is_inside (sym r ∙ h) ∙ inside))
        | inr (q, r) ↦ absurd (q (only inside_now j (ap is_inside (sym r ∙ h) ∙ inside)))
      ]

      committer :
          (j : ℕ) (u : User) → set i (committed user) s.phase j ≡ committed u → (i ≡ j) × (user ≡ u)
      committer j u h = elim (set-cases i j (committed user) s.phase) [
        | inl (q, r) ↦ (q, committed-inj user u (sym r ∙ h))
        | inr (q, r) ↦
            let x = (inv.made j u (sym r ∙ h)).0 in let y = (inv.empty i user at).0 in absurd cc
      ]

      commits : Inv (record s {
        rows = s.rows ++ user ∷ [];
        holder = none;
        phase = set i (committed user) s.phase;
      })
      commits =
          let (none_yet, own) = inv.empty i user at in
          record {
            held = leaves inside_now (committed user) refl;
            seen = λ j n h. absurd (nobody j (counted n) refl h);
            empty = λ j u h. absurd (nobody j (inserted u) refl h);
            made = λ j u h.
                let (q, r) = committer j u h in
                (
                  ap (λ rows. rows ++ user ∷ []) none_yet ∙ ap (λ x. x ∷ []) r,
                  sym r ∙ own ∙ ap admin_of q,
                );
            alone = λ j k u v h g. sym (committer j u h).0 ∙ (committer k v g).0;
            from = inr (
              i,
              elim (set-cases i i (committed user) s.phase) [
                | inl (q, r) ↦ r ∙ ap committed own
                | inr (q, r) ↦ absurd (q refl)
              ],
            );
          }

  empty_of : (n : ℕ) (rows : List User) → n ≡ length rows → eqb n 0 ≡ true → rows ≡ []
  empty_of n [] h e = refl
  empty_of n (x ∷ rows) h e = absurd (ground arith)

  Step-Inv : {s t : System} → Step s t → Inv s → Inv t
  Step-Inv {s} (lock i at free) inv =
      keeps s inv i locked (some i)
        (λ j h. elim (set-cases i j locked s.phase) [
          | inl (q, r) ↦ ap some q
          | inr (q, r) ↦ let e = inv.held j (sym (ap is_inside r) ∙ h) in absurd cc
        ])
        (λ n h. absurd cc) (λ u h. absurd cc) (λ u h. absurd cc) (λ u h. absurd cc)
  Step-Inv {s} (count i at) inv =
      keeps s inv i (counted (length s.rows)) s.holder
        (stays s inv i (ap is_inside at) (counted (length s.rows))) (λ n h. cc) (λ u h. absurd cc)
        (λ u h. absurd cc) (not_committed s inv i (ap is_inside at))
  Step-Inv {s} (refuse i n at some_rows) inv =
      keeps s inv i refused none (leaves s inv i (ap is_inside at) refused refl) (λ m h. absurd cc)
        (λ u h. absurd cc) (λ u h. absurd cc) (not_committed s inv i (ap is_inside at))
  Step-Inv {s} (insert i n at no_rows) inv =
      keeps s inv i (inserted (admin_of i)) s.holder
        (stays s inv i (ap is_inside at) (inserted (admin_of i))) (λ m h. absurd cc)
        (λ u h. (empty_of n s.rows (inv.seen i n at) no_rows, cc)) (λ u h. absurd cc)
        (not_committed s inv i (ap is_inside at))
  Step-Inv {s} (commit i user at) inv = commits s inv i user at
  Step-Inv {s} (roll_back i inside) inv =
      keeps s inv i rolled_back none (leaves s inv i inside rolled_back refl) (λ m h. absurd cc)
        (λ u h. absurd cc) (λ u h. absurd cc) (not_committed s inv i inside)

  Reach-Inv : {s : System} → Reach s → Inv s
  Reach-Inv here = record {
    held = λ i h. absurd cc;
    seen = λ i n h. absurd cc;
    empty = λ i u h. absurd cc;
    made = λ i u h. absurd cc;
    alone = λ i j u v h g. absurd cc;
    from = inl refl;
  }
  Reach-Inv (next r st) = Step-Inv st (Reach-Inv r)

  -- However the statements of any number of bootstraps interleave on a table that is empty at first,
  -- also with transactions that are rolled back: the committed rows are none, or the one row of a
  -- transaction that has committed, which is the first admin of its call; and no second transaction
  -- commits.
  pub one_admin :
      (s : System)
      → Reach s
      → ((s.rows ≡ [])
          ⊎ ((i : ℕ) × (s.phase i ≡ committed (first_admin normalize_username hash (attempts i)))
              × (s.rows ≡ first_admin normalize_username hash (attempts i) ∷ [])))
        × ((i j : ℕ) (u v : User) → s.phase i ≡ committed u → s.phase j ≡ committed v → i ≡ j)
  one_admin s r =
      let inv = Reach-Inv r in
      (
        elim inv.from [ inl x ↦ inl x | inr (i, x) ↦ inr (i, x, (inv.made i (admin_of i) x).0) ],
        inv.alone,
      )
