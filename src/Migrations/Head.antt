-- ===== src/Migrations/Head.antt =====
-- The revisions from the empty schema towards the head.
use lite_mcp.Base.{Option, none, some, List, [], ◌∷◌, ◌++◌, ◌≡◌, ◌∙◌, sym, ap, refl, member}
use lite_mcp.Base.Maybe.{>>=-eq-some}
use lite_mcp.Migrations.{
  Schema, run, apply, alter, has_table, has_constraint, is_target, targets_of,
}
use lite_mcp.Migrations.Revisions.{Revision, upgrade, history}
use lite_mcp.Migrations.Altered.{IsClosed, some-inj}
use lite_mcp.Migrations.Front.{run-IsClosed}
use lite_mcp.Migrations.Undone.{migrate, rollback, rollback_undoes}

migrate-IsClosed :
    (rs : List Revision) (s s' : Schema) → migrate rs s ≡ some s' → IsClosed s → IsClosed s'
unfolding migrate
migrate-IsClosed [] s s' h c = rw (sym (some-inj s s' h)) c
migrate-IsClosed (r ∷ rs) s s' h c =
    let (m, here, rest) = >>=-eq-some (run (upgrade r) s) (migrate rs) s' h in
    migrate-IsClosed rs m s' rest (run-IsClosed (upgrade r) s m here c)

-- Revisions that apply in an order apply up to each of them.
migrate-prefix :
    (rs later : List Revision) (s s' : Schema)
    → migrate (rs ++ later) s ≡ some s'
    → (m : Schema) × (migrate rs s ≡ some m)
unfolding migrate
migrate-prefix [] later s s' h = (s, refl)
migrate-prefix (r ∷ rs) later s s' h =
    let (m, here, rest) = >>=-eq-some (run (upgrade r) s) (migrate (rs ++ later)) s' h in
    let (n, e) = migrate-prefix rs later m s' rest in (n, rw here e)

abbrev pub schema_of : Option Schema → Schema
schema_of none = []
schema_of (some s) = s

abbrev pub head : Schema
head = schema_of (migrate history [])

history-eq-some : migrate history [] ≡ some head
unfolding migrate run apply alter has_table has_constraint is_target targets_of member
history-eq-some = refl

-- The revisions up to any one of the history apply to an empty database, one after another; every
-- reference of the schema that they give has its table, and their downgrades lead back.
pub history_applies :
    (rs later : List Revision)
    → history ≡ rs ++ later
    → (s : Schema) × (migrate rs [] ≡ some s) × IsClosed s × (rollback rs s ≡ some [])
history_applies rs later e =
    let (s, up) =
      migrate-prefix rs later [] head (ap (λ x. migrate x []) (sym e) ∙ history-eq-some) in
    (s, up, migrate-IsClosed rs [] s up tt, rollback_undoes rs [] s tt up)
