-- ===== src/Migrations/Undone.antt =====
-- Each downgrade undoes its upgrade.
use lite_mcp.Base.{
  String, true, false, Option, some, List, [], ◌∷◌, ◌++◌, ◌≡◌, inl, inr, ◌∙◌, sym, ap, refl, ◌==◌,
  member, arith, eq_refl,
}
use lite_mcp.Base.Maybe.{◌>>=◌, >>=-eq-some}
use lite_mcp.Migrations.{
  Table, Schema, Constraint, unique_constraint, index, check_constraint, foreign_key,
  create_check_constraint, drop_constraint, apply, run, alter, add, drop_check, without_check,
  has_constraint,
}
use lite_mcp.Migrations.Revisions.{
  Revision, upgrade, downgrade, bootstrap_root, user_team, service, config_revision, toolset,
  artifact_build, condition_task, permission_key, audit_outbox, soft_delete, bootstrap_lock,
}
use lite_mcp.Migrations.Altered.{IsClosed, add_check-IsInner, alter-cases, some-if, some-inj}
use lite_mcp.Migrations.Closed.{nor}
use lite_mcp.Migrations.Front.{created, built, run-IsClosed}

without-append :
    (n sql : String) (cs : List Constraint)
    → has_constraint n cs ≡ false
    → without_check n (cs ++ check_constraint n sql ∷ []) ≡ cs
unfolding without_check has_constraint
without-append n sql [] h = rw (eq_refl n) refl
without-append n sql (unique_constraint m cols ∷ cs) h =
    ap (λ r. unique_constraint m cols ∷ r) (without-append n sql cs (nor (m == n) _ h).1)
without-append n sql (index m cols ∷ cs) h =
    ap (λ r. index m cols ∷ r) (without-append n sql cs (nor (m == n) _ h).1)
without-append n sql (foreign_key m cols t refs d ∷ cs) h =
    ap (λ r. foreign_key m cols t refs d ∷ r) (without-append n sql cs (nor (m == n) _ h).1)
without-append n sql (check_constraint m q ∷ cs) h =
    let (off, rest) = nor (m == n) (has_constraint n cs) h in
    rw off (ap (λ r. check_constraint m q ∷ r) (without-append n sql cs rest))

has-last :
    (n sql : String) (cs : List Constraint)
    → has_constraint n (cs ++ check_constraint n sql ∷ []) ≡ true
unfolding has_constraint
has-last n sql [] = rw (eq_refl n) refl
has-last n sql (c ∷ cs) = rw (has-last n sql cs) (ground arith)

drop-add :
    (n sql : String) (t t' : Table)
    → add (check_constraint n sql) t ≡ some t'
    → drop_check n t' ≡ some t
drop-add n sql t t' h =
    let (fresh, e) = some-if (has_constraint n t.constraints) _ t' h in
    ap (drop_check n) (sym (some-inj _ t' e))
    ∙ rw (has-last n sql t.constraints, without-append n sql t.constraints fresh) refl

alter-undo :
    (n : String) (f g : Table → Option Table) (s s' : Schema)
    → ((t t' : Table) → f t ≡ some t' → (g t' ≡ some t) × (t'.name ≡ t.name))
    → alter n f s ≡ some s'
    → alter n g s' ≡ some s
unfolding alter
alter-undo n f g [] s' back h = absurd cc
alter-undo n f g (t ∷ s) s' back h = elim (alter-cases n f t s s' h) [
  | inl (t', same, found, e) ↦
      let (undo, name) = back t t' found in
      let there : (t'.name == n) ≡ true = ap (λ x. x == n) name ∙ same in rw (e, there, undo) refl
  | inr (r, off, found, e) ↦ rw (e, off, alter-undo n f g s r back found) refl
]

checked :
    (n t sql : String) (s s' : Schema)
    → run (create_check_constraint n t sql ∷ []) s ≡ some s'
    → run (drop_constraint n t ∷ []) s' ≡ some s
unfolding run apply
checked n t sql s s' h =
    let (m, here, rest) = >>=-eq-some (apply (create_check_constraint n t sql) s) (run []) s' h in
    let altered : alter t (add (check_constraint n sql)) s ≡ some s' = here ∙ rest in
    rw
      (alter-undo t _ (drop_check n) s s'
        (λ u u' e. (drop-add n sql u u' e, (add_check-IsInner n sql u u' e).0)) altered)
      refl

-- For every revision and every closed schema that its upgrade applies to, the downgrade applies to
-- the result and gives the schema back.
pub downgrade_undoes :
    (r : Revision) (s s' : Schema)
    → IsClosed s
    → run (upgrade r) s ≡ some s'
    → run (downgrade r) s' ≡ some s
unfolding created member run
downgrade_undoes bootstrap_root s s' c h = sym h
downgrade_undoes user_team s s' c h =
    built (upgrade user_team) _ ("team_membership" ∷ "team" ∷ "user" ∷ []) s s' refl refl c h
downgrade_undoes service s s' c h =
    built (upgrade service) _ ("mcp_service" ∷ []) s s' refl refl c h
downgrade_undoes config_revision s s' c h =
    built (upgrade config_revision) _ ("service_config_revision" ∷ []) s s' refl refl c h
downgrade_undoes toolset s s' c h =
    built (upgrade toolset) _ ("mcp_tool" ∷ "toolset" ∷ []) s s' refl refl c h
downgrade_undoes artifact_build s s' c h =
    built (upgrade artifact_build) _ ("build_run" ∷ "service_artifact" ∷ []) s s' refl refl c h
downgrade_undoes condition_task s s' c h =
    built (upgrade condition_task) _ ("mcp_task" ∷ "service_condition" ∷ []) s s' refl refl c h
downgrade_undoes permission_key s s' c h =
    built (upgrade permission_key) _ ("api_key" ∷ "mcp_service_permission" ∷ []) s s' refl refl c h
downgrade_undoes audit_outbox s s' c h =
    built (upgrade audit_outbox) _ ("outbox" ∷ "audit_event" ∷ []) s s' refl refl c h
downgrade_undoes soft_delete s s' c h =
    checked "ck_mcp_service_deleted_scope_consistency" "mcp_service" _ s s' h
downgrade_undoes bootstrap_lock s s' c h =
    built (upgrade bootstrap_lock) _ ("bootstrap_lock" ∷ []) s s' refl refl c h

-- Upgrades in an order, and downgrades in the opposite one.
unfoldable pub migrate : List Revision → Schema → Option Schema
migrate [] s = some s
migrate (r ∷ rs) s = run (upgrade r) s >>= migrate rs

pub rollback : List Revision → Schema → Option Schema
rollback [] s = some s
rollback (r ∷ rs) s = rollback rs s >>= run (downgrade r)

-- Any upgrades that apply to a closed schema, one after another, are undone by their downgrades in
-- the opposite order: these apply too, and give the schema back.
pub rollback_undoes :
    (rs : List Revision) (s s' : Schema)
    → IsClosed s
    → migrate rs s ≡ some s'
    → rollback rs s' ≡ some s
unfolding migrate rollback
rollback_undoes [] s s' c h = sym h
rollback_undoes (r ∷ rs) s s' c h =
    let (m, here, rest) = >>=-eq-some (run (upgrade r) s) (migrate rs) s' h in
    rw (rollback_undoes rs m s' (run-IsClosed (upgrade r) s m here c) rest)
      (downgrade_undoes r s m c here)
