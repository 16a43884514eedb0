-- ===== src/Auth/ServiceRbac/Grants.antt =====
-- What the grants of a service give, and what they cannot give.
use lite_mcp.Base.{
  all, not, String, true, false, Option, none, some, List, [], ◌∷◌, ◌≡◌, ◌≢◌, ◌↔◌, ◌⊎◌, inl, inr,
  refl, arith, eq_iff, member, is_text, ◌==◌, ◌&&◌,
}
use lite_mcp.Auth.ServiceRbac.{
  allowed, not_found, Principal, Grant, viewer_actions, editor_actions, in_teams, is_active_admin,
  shows, visible_by, visible, edits, writable_by, writable, authorize_service_action,
}

-- Some grant of the list has the property.
abbrev pub Some : (Grant → Type 0) → List Grant → Type 0
Some P [] = ⊥
Some P (g ∷ gs) = P g ⊎ Some P gs

abbrev pub IsActiveAdmin : Principal → Type 0
IsActiveAdmin p = (p.status ≡ "active") × (p.role ≡ "admin")

-- A grant for everyone, for the principal itself or for one of its teams.
abbrev pub Shows : Principal → String → Grant → Type 0
Shows p service_id g =
    (g.service_id ≡ service_id)
    × ((g.principal_type ≡ "everyone")
        ⊎ ((g.principal_type ≡ "user") × (g.user_id ≡ some p.id)
            ⊎ ((g.principal_type ≡ "team")
                × ((t : String) × (g.team_id ≡ some t) × (member t p.team_ids ≡ true)))))

-- An editor grant for the principal itself.
abbrev pub Edits : Principal → String → Grant → Type 0
Edits p service_id g =
    (g.service_id ≡ service_id)
    × (g.principal_type ≡ "user")
    × (g.user_id ≡ some p.id)
    × (g.role ≡ "editor")

abbrev pub CanSee : Principal → String → List Grant → Type 0
CanSee p service_id grants = IsActiveAdmin p ⊎ Some (Shows p service_id) grants

abbrev pub CanWrite : Principal → String → List Grant → Type 0
CanWrite p service_id grants = IsActiveAdmin p ⊎ Some (Edits p service_id) grants

is_text_iff : (o : Option String) (s : String) → (is_text o s ≡ true) ↔ (o ≡ some s)
is_text_iff none s = ((λ h. cc), λ h. cc)
is_text_iff (some a) s = ground (arith, eq_iff a s)

some-member :
    (a t : String) (ts : List String) → some a ≡ some t → member t ts ≡ true → member a ts ≡ true
some-member a t ts e h = cc

in_teams_iff :
    (o : Option String) (ts : List String)
    → (in_teams o ts ≡ true) ↔ ((t : String) × (o ≡ some t) × (member t ts ≡ true))
in_teams_iff none ts = ((λ h. cc), λ h. cc)
in_teams_iff (some a) ts = ((λ h. (a, refl, h)), λ (t, e, h). some-member a t ts e h)

module _ (p : Principal) (service_id : String) where
  shows_iff :
      (g : Grant) → ((g.service_id == service_id) && shows p g ≡ true) ↔ Shows p service_id g
  unfolding shows
  shows_iff g = (
    λ h. ground (
      arith,
      eq_iff g.service_id service_id,
      eq_iff g.principal_type "user",
      eq_iff g.principal_type "everyone",
      eq_iff g.principal_type "team",
      is_text_iff g.user_id p.id,
      in_teams_iff g.team_id p.team_ids,
    ),
    λ (e, h). elim h [
      | inl all ↦ ground (arith, eq_iff g.service_id service_id, eq_iff g.principal_type "everyone")
      | inr (inl (t, u)) ↦ ground (
        arith,
        eq_iff g.service_id service_id,
        eq_iff g.principal_type "user",
        is_text_iff g.user_id p.id,
      )
      | inr (inr (t, w)) ↦ ground (
        arith,
        eq_iff g.service_id service_id,
        eq_iff g.principal_type "team",
        (in_teams_iff g.team_id p.team_ids).1 w,
      )
    ],
  )

  edits_iff :
      (g : Grant) → ((g.service_id == service_id) && edits p g ≡ true) ↔ Edits p service_id g
  unfolding edits
  edits_iff g = ground (
    arith,
    eq_iff g.service_id service_id,
    eq_iff g.principal_type "user",
    eq_iff g.role "editor",
    is_text_iff g.user_id p.id,
  )

  visible_by_iff :
      (gs : List Grant) → (visible_by p service_id gs ≡ true) ↔ Some (Shows p service_id) gs
  unfolding visible_by
  visible_by_iff [] = ((λ h. cc), λ h. absurd h)
  visible_by_iff (g ∷ gs) = ground (arith, shows_iff g, visible_by_iff gs)

  writable_by_iff :
      (gs : List Grant) → (writable_by p service_id gs ≡ true) ↔ Some (Edits p service_id) gs
  unfolding writable_by
  writable_by_iff [] = ((λ h. cc), λ h. absurd h)
  writable_by_iff (g ∷ gs) = ground (arith, edits_iff g, writable_by_iff gs)

  is_active_admin_iff : (is_active_admin p ≡ true) ↔ IsActiveAdmin p
  unfolding is_active_admin
  is_active_admin_iff = ground (arith, eq_iff p.status "active", eq_iff p.role "admin")

  visible_iff : (gs : List Grant) → (visible p gs service_id ≡ true) ↔ CanSee p service_id gs
  unfolding visible
  visible_iff gs = ground (arith, is_active_admin_iff, visible_by_iff gs)

  writable_iff : (gs : List Grant) → (writable p gs service_id ≡ true) ↔ CanWrite p service_id gs
  unfolding writable
  writable_iff gs = ground (arith, is_active_admin_iff, writable_by_iff gs)

visible-of-writable :
    (p : Principal) (service_id : String) (gs : List Grant)
    → writable_by p service_id gs ≡ true
    → visible_by p service_id gs ≡ true
unfolding visible_by writable_by shows edits
visible-of-writable p service_id [] h = h
visible-of-writable p service_id (g ∷ gs) h = ground (arith, visible-of-writable p service_id gs)

not-member-of-disjoint :
    (a : String) (xs ys : List String)
    → all (λ x. not (member x ys)) xs ≡ true
    → member a xs ≡ true
    → member a ys ≡ false
unfolding member
not-member-of-disjoint a [] ys d h = cc
not-member-of-disjoint a (x ∷ xs) ys d h =
    ground (arith, eq_iff x a, not-member-of-disjoint a xs ys)

disjoint_actions : all (λ x. not (member x viewer_actions)) editor_actions ≡ true
unfolding member
disjoint_actions = refl

module _ (p : Principal) (service_id action : String) where
  -- The verdict on every branch. A service that no grant shows and whose principal is no active
  -- admin is not found; an action is allowed exactly to an active principal that can see the
  -- service, if it is a viewer action or an editor action of a principal that can write; and all
  -- else is forbidden.
  pub authorize_service_action_iff :
      (gs : List Grant)
      → ((authorize_service_action p service_id action gs ≡ not_found) ↔ ¬ CanSee p service_id gs)
        × ((authorize_service_action p service_id action gs ≡ allowed) ↔ (
            CanSee p service_id gs
            × (p.status ≡ "active")
            × ((member action viewer_actions ≡ true)
                ⊎ ((member action editor_actions ≡ true) × CanWrite p service_id gs))))
  unfolding authorize_service_action
  authorize_service_action_iff gs = (
    ground (arith, visible_iff p service_id gs, eq_iff p.status "active"),
    ground (
      arith,
      visible_iff p service_id gs,
      writable_iff p service_id gs,
      eq_iff p.status "active",
    ),
  )

  -- A grant to a team or to everyone never gives an editor action.
  editor_needs_user_grant :
      (g : Grant) (gs : List Grant)
      → g.principal_type ≢ "user"
      → member action editor_actions ≡ true
      → authorize_service_action p service_id action (g ∷ gs) ≡ allowed
      → authorize_service_action p service_id action gs ≡ allowed
  unfolding authorize_service_action visible writable visible_by writable_by shows edits
  editor_needs_user_grant g gs ne ed h = ground (
    arith,
    eq_iff g.principal_type "user",
    visible-of-writable p service_id gs,
    not-member-of-disjoint action editor_actions viewer_actions disjoint_actions ed,
  )

  -- A further grant takes no permission away.
  allowed_monotone :
      (g : Grant) (gs : List Grant)
      → authorize_service_action p service_id action gs ≡ allowed
      → authorize_service_action p service_id action (g ∷ gs) ≡ allowed
  allowed_monotone g gs h =
      ground (arith, authorize_service_action_iff gs, authorize_service_action_iff (g ∷ gs))
