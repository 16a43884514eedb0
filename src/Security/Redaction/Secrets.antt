-- ===== src/Security/Redaction/Secrets.antt =====
-- backend/src/litemcp/security/redaction.py: the secrets of a redactor, from the environment, and the
-- set-up of the logging. The order in which Python runs through a set is a parameter; `sorted` keeps
-- the order of equal lengths. A redactor and a record's filters are known by their ids.
use lite_mcp.Base.{
  ℕ, ◌≤◌, String, Bool, true, false, List, [], ◌∷◌, ◌≡◌, ◌≢◌, ◌⊎◌, ◌↔◌, inl, inr, refl, sym, ap,
  ◌∙◌, ◌==◌, leb, arith, eq_iff, false≢true, IsIn, All, if◌then◌else◌, Bool-cases, ne_str,
}
use lite_mcp.Base.Length.{len}
use lite_mcp.Base.Slices.{starts_with}

-- `[v for k, v in os.environ.items() if k.startswith("LITEMCP_")]`
values_of : List (String × String) → List String
values_of [] = []
values_of ((k, v) ∷ environ) =
    let rest = values_of environ in if starts_with "LITEMCP_" k then v ∷ rest else rest

-- `{v for v in secret_values if v}`, as a list
non_empty : List String → List String
non_empty [] = []
non_empty (v ∷ vs) = let rest = non_empty vs in if v == "" then rest else v ∷ rest

-- `sorted(..., key=len, reverse=True)`
insert : String → List String → List String
insert v [] = v ∷ []
insert v (w ∷ ws) = let rest = insert v ws in if leb (len w) (len v) then v ∷ w ∷ ws else w ∷ rest

sort_by_length : List String → List String
sort_by_length [] = []
sort_by_length (v ∷ vs) = insert v (sort_by_length vs)

insert-IsIn :
    (v : String) (ws : List String) (x : String) → IsIn x (insert v ws) ↔ ((v ≡ x) ⊎ IsIn x ws)
unfolding insert
insert-IsIn v [] x = ((λ i. i), λ i. i)
insert-IsIn v (w ∷ ws) x = elim (Bool-cases (leb (len w) (len v))) [
  | inl e ↦ rw e ((λ i. i), λ i. i)
  | inr e ↦
      let (to, from) = insert-IsIn v ws x in
      rw e (
        (λ i. elim i [
          | inl q ↦ inr (inl q)
          | inr j ↦ elim (to j) [ inl q ↦ inl q | inr k ↦ inr (inr k) ]
        ]),
        (λ i. elim i [
          | inl q ↦ inr (from (inl q))
          | inr j ↦ elim j [ inl q ↦ inl q | inr k ↦ inr (from (inr k)) ]
        ]),
      )
]

sort-IsIn : (vs : List String) (x : String) → IsIn x (sort_by_length vs) ↔ IsIn x vs
unfolding sort_by_length
sort-IsIn [] x = ((λ i. i), λ i. i)
sort-IsIn (v ∷ vs) x =
    let (to, from) = insert-IsIn v (sort_by_length vs) x in
    let (down, up) = sort-IsIn vs x in
    (
      (λ i. elim (to i) [ inl q ↦ inl q | inr j ↦ inr (down j) ]),
      (λ i. elim i [ inl q ↦ from (inl q) | inr j ↦ from (inr (up j)) ]),
    )

-- No text is longer than one before it.
abbrev pub IsDescending : List String → Type 0
IsDescending [] = Unit
IsDescending (v ∷ vs) = All (λ w. len w ≤ len v) vs × IsDescending vs

All-shorter :
    (n k : ℕ) (ws : List String) → n ≤ k → All (λ w. len w ≤ n) ws → All (λ w. len w ≤ k) ws
All-shorter n k [] h a = tt
All-shorter n k (w ∷ ws) h (first, a) = (omega (arith, h, first), All-shorter n k ws h a)

All-insert :
    (n : ℕ) (v : String) (ws : List String)
    → len v ≤ n
    → All (λ w. len w ≤ n) ws
    → All (λ w. len w ≤ n) (insert v ws)
unfolding insert
All-insert n v [] h a = (h, tt)
All-insert n v (w ∷ ws) h (first, a) = elim (Bool-cases (leb (len w) (len v))) [
  | inl e ↦ rw e (h, (first, a))
  | inr e ↦ rw e (first, All-insert n v ws h a)
]

insert-IsDescending : (v : String) (ws : List String) → IsDescending ws → IsDescending (insert v ws)
unfolding insert
insert-IsDescending v [] d = (tt, tt)
insert-IsDescending v (w ∷ ws) (a, d) = elim (Bool-cases (leb (len w) (len v))) [
  | inl e ↦
      let le : len w ≤ len v = ground arith in
      rw e ((le, All-shorter (len w) (len v) ws le a), (a, d))
  | inr e ↦
      let le : len v ≤ len w = ground arith in
      rw e (All-insert (len w) v ws le a, insert-IsDescending v ws d)
]

sort-IsDescending : (vs : List String) → IsDescending (sort_by_length vs)
unfolding sort_by_length
sort-IsDescending [] = tt
sort-IsDescending (v ∷ vs) = insert-IsDescending v (sort_by_length vs) (sort-IsDescending vs)

non_empty-IsIn : (vs : List String) (x : String) → IsIn x (non_empty vs) ↔ ((x ≢ "") × IsIn x vs)
unfolding non_empty
non_empty-IsIn [] x = ((λ i. absurd i), λ (n, i). i)
non_empty-IsIn (v ∷ vs) x =
    let (to, from) = non_empty-IsIn vs x in
    elim (Bool-cases (v == "")) [
      | inl e ↦ rw e (
        (λ i. let (n, j) = to i in (n, inr j)),
        (λ (n, i). elim i [ inl q ↦ absurd (n (sym q ∙ (eq_iff v "").0 e)) | inr j ↦ from (n, j) ]),
      )
      | inr e ↦ rw e (
        (λ i. elim i [
          | inl q ↦ ((λ z. ne_str v "" e (q ∙ z)), inl q)
          | inr j ↦ let (n, k) = to j in (n, inr k)
        ]),
        (λ (n, i). elim i [ inl q ↦ inl q | inr j ↦ inr (from (n, j)) ]),
      )
    ]

-- A variable of the application with the value.
abbrev IsGiven : List (String × String) → String → Type 0
IsGiven environ v = (name : String) × IsIn (name, v) environ × (starts_with "LITEMCP_" name ≡ true)

one_of :
    (b : Bool) (w v : String) (ws : List String)
    → IsIn v (if b then w ∷ ws else ws) ↔ (((b ≡ true) × (w ≡ v)) ⊎ IsIn v ws)
one_of true w v ws = (
  (λ i. elim i [ inl q ↦ inl (refl, q) | inr j ↦ inr j ]),
  (λ i. elim i [ inl (e, q) ↦ inl q | inr j ↦ inr j ]),
)
one_of false w v ws =
    ((λ i. inr i), (λ i. elim i [ inl (e, q) ↦ absurd (false≢true e) | inr j ↦ j ]))

IsGiven-values :
    (environ : List (String × String)) (v : String) → IsIn v (values_of environ) → IsGiven environ v
unfolding values_of
IsGiven-values [] v i = absurd i
IsGiven-values ((k, w) ∷ environ) v i =
    elim ((one_of (starts_with "LITEMCP_" k) w v (values_of environ)).0 i) [
      | inl (s, q) ↦ (k, inl (ap (λ x. (k, x)) q), s)
      | inr j ↦ let (name, inside, s) = IsGiven-values environ v j in (name, inr inside, s)
    ]

values-IsGiven :
    (environ : List (String × String)) (v : String) → IsGiven environ v → IsIn v (values_of environ)
unfolding values_of
values-IsGiven [] v (name, i, s) = absurd i
values-IsGiven ((k, w) ∷ environ) v (name, i, s) =
    (one_of (starts_with "LITEMCP_" k) w v (values_of environ)).1 (elim i [
      | inl q ↦ inl (ap (λ p. starts_with "LITEMCP_" p.0) q ∙ s, ap (λ p. p.1) q)
      | inr j ↦ inr (values-IsGiven environ v (name, j, s))
    ])

-- What the environment gives: the value of a variable of the application, which is not empty.
abbrev pub IsSecretOf : List (String × String) → String → Type 0
IsSecretOf environ v = (v ≢ "") × IsGiven environ v

module _ (set_order : List String → List String) where
  -- `SecretRedactor.__init__`
  secrets_of : List String → List String
  secrets_of secret_values = sort_by_length (set_order (non_empty secret_values))

  -- `SecretRedactor.from_environment`
  pub from_environment : List (String × String) → List String
  from_environment environ = secrets_of (values_of environ)

  -- The secrets are the values that are not empty of the application's variables, the longest first.
  from_environment_secrets :
      ((vs : List String) (x : String) → IsIn x (set_order vs) ↔ IsIn x vs)
      → (environ : List (String × String)) (v : String)
      → (IsIn v (from_environment environ) ↔ IsSecretOf environ v)
        × IsDescending (from_environment environ)
  unfolding from_environment secrets_of
  from_environment_secrets law environ v =
      let given = non_empty (values_of environ) in
      let (down, up) = sort-IsIn (set_order given) v in
      let (out, back) = law given v in
      let (to, from) = non_empty-IsIn (values_of environ) v in
      (
        (
          (λ i. let (n, j) = to (out (down i)) in (n, IsGiven-values environ v j)),
          (λ (n, g). up (back (from (n, values-IsGiven environ v g)))),
        ),
        sort-IsDescending (set_order given),
      )
