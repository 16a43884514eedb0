-- ===== src/Auth/Rbac/LastAdmin.antt =====
-- The system never loses its last active admin.
use lite_mcp.Base.{
  String, Bool, true, false, some, none, List, [], ◌∷◌, ◌≡◌, ◌≢◌, ◌↔◌, is_nil, arith, eq_iff, ◌==◌,
  ◌&&◌, if◌then◌else◌, Bool-cases, inl, inr, Option-cases, ap,
}
use lite_mcp.Base.Exec.{ok}
use lite_mcp.Auth.Rbac.{
  CurrentUser, Requested, Capability, is_active_admin, has_capability, holds, create_user,
  as_capability, authorize, others, would_remove_last_active_admin, authorize_disable_user,
  authorize_enable_user, authorize_change_global_role,
}

-- The accounts: the ids in use, with the role and the status of each.
pub record Accounts : Type 0 where
  pub ids : List String
  pub role : String → String
  pub status : String → String

abbrev pub is_admin_of : Accounts → String → Bool
is_admin_of a i = is_active_admin (a.role i) (a.status i)

unfoldable pub active_among : Accounts → List String → List String
active_among a [] = []
active_among a (i ∷ is) = let rest = active_among a is in if is_admin_of a i then i ∷ rest else rest

-- What callers pass as `active_admin_ids`.
unfoldable pub active_admin_ids : Accounts → List String
unfolding active_among
active_admin_ids a = active_among a a.ids

abbrev pub update : String → String → (String → String) → String → String
update i v f j = if i == j then v else f j

-- The changes that the three functions guard. The actor and the target are rows of the table.
pub data Step (a : Accounts) : Accounts → Type 0 where
  disable :
      (actor : CurrentUser) (i : String)
      → authorize_disable_user actor i (a.role i) (a.status i) (active_admin_ids a) ≡ ok tt
      → Step a (record a { status = update i "disabled" a.status })
  enable :
      (actor : CurrentUser) (i : String)
      → authorize_enable_user actor ≡ ok tt
      → Step a (record a { status = update i "active" a.status })
  change_role :
      (actor : CurrentUser) (i new_role : String)
      → authorize_change_global_role actor i (a.role i) (a.status i) new_role (active_admin_ids a)
        ≡ ok tt
      → Step a (record a { role = update i new_role a.role })

pub data Reach (a : Accounts) : Accounts → Type 0 where
  here : Reach a a
  next : {b c : Accounts} → Reach a b → Step b c → Reach a c

abbrev pub HasAdmin : Accounts → Type 0
HasAdmin a = active_admin_ids a ≢ []

-- An id that stays an active admin keeps the list from being empty.
keeps :
    (a b : Accounts) (is : List String)
    → ((j : String) → is_admin_of a j ≡ true → is_admin_of b j ≡ true)
    → active_among a is ≢ []
    → active_among b is ≢ []
unfolding active_among
keeps a b [] h ne = ne
keeps a b (i ∷ is) h ne = elim (Bool-cases (is_admin_of a i)) [
  | inl e ↦ rw (h i e) (ground arith)
  | inr e ↦ ground (arith, h i, keeps a b is h)
]

keeps_others :
    (a b : Accounts) (i : String) (is : List String)
    → ((j : String) → i ≢ j → is_admin_of a j ≡ true → is_admin_of b j ≡ true)
    → is_nil (others i (active_among a is)) ≡ false
    → active_among b is ≢ []
unfolding active_among others
keeps_others a b i [] h ne = cc
keeps_others a b i (j ∷ is) h ne = elim (Bool-cases (is_admin_of a j)) [
  | inl e ↦ ground (arith, eq_iff j i, h j, keeps_others a b i is h)
  | inr e ↦ ground (arith, keeps_others a b i is h)
]

-- A change that touches only `i` keeps an active admin, where `i` is none or another one is left.
spared :
    (a b : Accounts) (i : String)
    → ((j : String) → i ≢ j → is_admin_of a j ≡ true → is_admin_of b j ≡ true)
    → would_remove_last_active_admin i (a.role i) (a.status i) (active_admin_ids a) ≡ false
    → HasAdmin a
    → active_among b a.ids ≢ []
unfolding would_remove_last_active_admin active_admin_ids
spared a b i h w ne = elim (Bool-cases (is_admin_of a i)) [
  | inl e ↦ keeps_others a b i a.ids h (ground arith)
  | inr e ↦ keeps a b a.ids (λ j d. ground (arith, h j, ap a.role, ap a.status, eq_iff i j)) ne
]

allowed_disable :
    (a : Accounts) (actor : CurrentUser) (i : String)
    → authorize_disable_user actor i (a.role i) (a.status i) (active_admin_ids a) ≡ ok tt
    → would_remove_last_active_admin i (a.role i) (a.status i) (active_admin_ids a) ≡ false
unfolding authorize_disable_user authorize
allowed_disable a actor i h = ground arith

allowed_change :
    (a : Accounts) (actor : CurrentUser) (i new_role : String)
    → authorize_change_global_role actor i (a.role i) (a.status i) new_role (active_admin_ids a)
      ≡ ok tt
    → new_role ≢ "admin"
    → would_remove_last_active_admin i (a.role i) (a.status i) (active_admin_ids a) ≡ false
unfolding authorize_change_global_role authorize
allowed_change a actor i new_role h ne = ground (arith, eq_iff new_role "admin")

keeps_active :
    (i j role : String) (f : String → String)
    → is_active_admin role (f j) ≡ true
    → is_active_admin role (update i "active" f j) ≡ true
keeps_active i j role f h = elim (Bool-cases (i == j)) [
  | inl e ↦ rw e (ground arith)
  | inr e ↦ rw e h
]

keeps_role :
    (i j new_role status : String) (f : String → String)
    → new_role ≡ "admin"
    → is_active_admin (f j) status ≡ true
    → is_active_admin (update i new_role f j) status ≡ true
keeps_role i j new_role status f e h = elim (Bool-cases (i == j)) [
  | inl q ↦ rw (q, e) (ground arith)
  | inr q ↦ rw q h
]

Step-HasAdmin : {a b : Accounts} → Step a b → HasAdmin a → HasAdmin b
unfolding active_admin_ids
Step-HasAdmin {a} (disable actor i pass) ne =
    let b = record a { status = update i "disabled" a.status } in
    spared a b i (λ j d e. ground (arith, eq_iff i j)) (allowed_disable a actor i pass) ne
Step-HasAdmin {a} (enable actor i pass) ne =
    let b = record a { status = update i "active" a.status } in
    keeps a b a.ids (λ j. keeps_active i j (a.role j) a.status) ne
Step-HasAdmin {a} (change_role actor i r pass) ne =
    let b = record a { role = update i r a.role } in
    elim (Bool-cases (r == "admin")) [
      | inl e ↦
          keeps a b a.ids (λ j. keeps_role i j r (a.status j) a.role ((eq_iff r "admin").0 e)) ne
      | inr e ↦
          spared a b i (λ j d e'. ground (arith, eq_iff i j))
            (allowed_change a actor i r pass (λ q. ground (arith, eq_iff r "admin"))) ne
    ]

-- Whatever sequence of changes the three functions let pass, with the active admins of the moment
-- as their argument: a system that has an active admin keeps one.
pub Reach-HasAdmin : {a b : Accounts} → Reach a b → HasAdmin a → HasAdmin b
Reach-HasAdmin here ne = ne
Reach-HasAdmin (next r s) ne = Step-HasAdmin s (Reach-HasAdmin r ne)

holds-some :
    (actor : CurrentUser) (c : Capability)
    → holds actor (some c) ≡ (actor.status == "active" && actor.role == "admin")
unfolding has_capability
holds-some actor create_user = ground arith
holds-some actor _ = ground arith

-- A capability is held exactly by active admins, and only if it is one of the five.
has_capability_iff :
    (actor : CurrentUser) (r : Requested)
    → (has_capability actor r ≡ true)
      ↔ ((actor.status ≡ "active") × (actor.role ≡ "admin") × (as_capability r ≢ none))
unfolding has_capability
has_capability_iff actor r = elim (Option-cases (as_capability r)) [
  | inl e ↦ rw e (ground arith)
  | inr (c, e) ↦
      rw (e, holds-some actor c)
        (ground (arith, eq_iff actor.status "active", eq_iff actor.role "admin"))
]
