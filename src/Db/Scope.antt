-- ===== src/Db/Scope.antt =====
-- backend/src/litemcp/db/models.py: `uq_mcp_service_namespace_name_scope` and what it means beside
-- `ck_mcp_service_deleted_scope_consistency`.
use text.Mathlib.TextPositions.{eq_refl}
use lite_mcp.Base.{
  ◌≤◌, ℕ, String, Bool, true, false, List, [], ◌∷◌, All, ◌≡◌, refl, ◌&&◌, ◌==◌, if◌then◌else◌,
  arith, eq_iff, is_none, suc, Bool-cases, inl, inr,
}
use lite_mcp.Db.Service.{Service, check_mcp_service}

-- Two rows that the unique constraint keeps apart.
unfoldable pub clash : Service → Service → Bool
clash s r =
    s.namespace_key == r.namespace_key
    && s.name_normalized == r.name_normalized
    && s.uniqueness_scope == r.uniqueness_scope

-- A table that satisfies the CHECK constraints and the unique constraint.
abbrev pub IsTable : List Service → Type 0
IsTable [] = Unit
IsTable (s ∷ rows) = (check_mcp_service s ≡ true) × All (λ r. clash s r ≡ false) rows × IsTable rows

-- A row that is not deleted and has the name in the namespace.
unfoldable pub is_live : String → String → Service → Bool
is_live namespace name s =
    s.namespace_key == namespace && s.name_normalized == name && is_none s.deleted_at

unfoldable pub count_live : String → String → List Service → ℕ
count_live namespace name [] = 0
count_live namespace name (s ∷ rows) =
    let rest = count_live namespace name rows in if is_live namespace name s then suc rest else rest

module _ (namespace name : String) where
  live-scope :
      (s : Service)
      → check_mcp_service s ≡ true
      → is_live namespace name s ≡ true
      → (s.namespace_key ≡ namespace) × (s.name_normalized ≡ name) × (s.uniqueness_scope ≡ "LIVE")
  unfolding check_mcp_service is_live
  live-scope s c l = ground (
    arith,
    eq_iff s.namespace_key namespace,
    eq_iff s.name_normalized name,
    eq_iff s.uniqueness_scope "LIVE",
  )

  -- A live row and another one of the same name.
  live-clash :
      (s r : Service)
      → check_mcp_service s ≡ true
      → is_live namespace name s ≡ true
      → check_mcp_service r ≡ true
      → is_live namespace name r ≡ true
      → clash s r ≡ true
  unfolding clash
  live-clash s r c l c' l' =
      let (a, b, d) = live-scope s c l in
      let (a', b', d') = live-scope r c' l' in
      rw (a, b, d, a', b', d', eq_refl namespace, eq_refl name) refl

  none_else :
      (s : Service) (rows : List Service)
      → check_mcp_service s ≡ true
      → is_live namespace name s ≡ true
      → All (λ r. clash s r ≡ false) rows
      → IsTable rows
      → count_live namespace name rows ≡ 0
  unfolding count_live
  none_else s [] c l a t = refl
  none_else s (r ∷ rows) c l (h, a) (c', b, t) = elim (Bool-cases (is_live namespace name r)) [
    | inl e ↦ ground (arith, live-clash s r c l c' e)
    | inr e ↦ rw e (none_else s rows c l a t)
  ]

  -- In a table that satisfies its constraints, at most one row that is not deleted has a given name
  -- in a given namespace.
  one_live_name : (rows : List Service) → IsTable rows → count_live namespace name rows ≤ 1
  unfolding count_live
  one_live_name [] t = omega arith
  one_live_name (s ∷ rows) (c, a, t) = elim (Bool-cases (is_live namespace name s)) [
    | inl e ↦ rw e (ground (arith, none_else s rows c e a t))
    | inr e ↦ rw e (one_live_name rows t)
  ]
