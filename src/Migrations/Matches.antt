-- ===== src/Migrations/Matches.antt =====
-- The metadata of db/models.py and the schema after the last revision. Both list the columns and the
-- constraints of a table in an order of their own.
use lite_mcp.Base.{
  ℕ, zero, suc, String, Option, none, some, List, [], ◌∷◌, map, ◌≡◌, refl, ◌==◌, All, if◌then◌else◌,
  member,
}
use lite_mcp.Base.Maybe.{◌>>=◌}
use lite_mcp.Migrations.{
  ColumnType, varchar, varchar_latin1, Column, Table, Schema, run, apply, alter, has_table,
  has_constraint, is_target, targets_of,
}
use lite_mcp.Migrations.Undone.{migrate}
use lite_mcp.Migrations.Head.{head}
use lite_mcp.Migrations.Models.{metadata}

module _ {A : Type 0} where
  -- The element of a position, and the others.
  abbrev pub take_at : ℕ → List A → Option (A × List A)
  take_at n [] = none
  take_at zero (x ∷ xs) = some (x, xs)
  take_at (suc n) (x ∷ xs) = take_at n xs >>= λ (y, ys). some (y, x ∷ ys)

  -- The elements one after another, each by its position among those that are left.
  abbrev pub reorder : List ℕ → List A → Option (List A)
  reorder [] [] = some []
  reorder [] (x ∷ xs) = none
  reorder (n ∷ ns) xs = take_at n xs >>= λ (y, ys). reorder ns ys >>= λ zs. some (y ∷ zs)

  abbrev pub IsReordered : List A → List A → Type 0
  IsReordered xs ys = (positions : List ℕ) × (reorder positions ys ≡ some xs)

-- The type outside of MySQL.
abbrev pub portable : ColumnType → ColumnType
portable (varchar_latin1 n) = varchar n
portable kind = kind

abbrev pub portable_column : Column → Column
portable_column c = record c { kind = portable c.kind }

unfoldable find_table : String → Schema → Option Table
find_table n [] = none
find_table n (t ∷ s) = let rest = find_table n s in if t.name == n then some t else rest

-- The same columns but for the character set of MySQL, and the same constraints.
abbrev pub IsSame : Table → Table → Type 0
IsSame t u =
    IsReordered (map portable_column t.columns) (map portable_column u.columns)
    × IsReordered t.constraints u.constraints

infixr 4 ◌and_then◌
◌and_then◌ : {P Q : Type 0} → P → Q → P × Q
p and_then q = (p, q)

-- The positions of a list that stays as it is.
zeros : ℕ → List ℕ
zeros zero = []
zeros (suc n) = 0 ∷ zeros n

abbrev pub name_of : Table → String
name_of t = t.name

-- Every table of the metadata is one of the schema after the last revision, with the same columns and
-- the same constraints in some order; and the schema has no other table but bootstrap_lock.
metadata_matches :
    All (λ t. (u : Table) × (find_table t.name head ≡ some u) × IsSame t u) metadata
    × IsReordered ("bootstrap_lock" ∷ map name_of metadata) (map name_of head)
unfolding migrate run apply alter has_table has_constraint is_target targets_of member find_table
    zeros
metadata_matches = (
  (_, refl, ((zeros 16, refl), (zeros 2, refl)))
      and_then (_, refl, ((zeros 11, refl), (zeros 1, refl)))
      and_then (_, refl, ((zeros 9, refl), ((0 ∷ 0 ∷ 1 ∷ 0 ∷ []), refl)))
      and_then (
        _,
        refl,
        (
          (
            (0 ∷ 0 ∷ 0 ∷ 0 ∷ 0 ∷ 0 ∷ 0 ∷ 0 ∷ 0 ∷ 0 ∷ 0 ∷ 0 ∷ 0 ∷ 0 ∷ 0 ∷ 0 ∷ 0 ∷ 0 ∷ 0 ∷ 0 ∷ 0 ∷ 0
                ∷ 0 ∷ 2 ∷ 2 ∷ 2 ∷ 2 ∷ 2 ∷ 0 ∷ 0 ∷ []),
            refl,
          ),
          ((0 ∷ 4 ∷ 6 ∷ 6 ∷ 6 ∷ 0 ∷ 0 ∷ 0 ∷ 0 ∷ 0 ∷ 0 ∷ 0 ∷ []), refl),
        ),
      )
      and_then (_, refl, ((zeros 16, refl), ((0 ∷ 3 ∷ 3 ∷ 0 ∷ 0 ∷ 0 ∷ []), refl)))
      and_then (_, refl, ((zeros 21, refl), ((0 ∷ 0 ∷ 3 ∷ 3 ∷ 0 ∷ 0 ∷ 0 ∷ []), refl)))
      and_then (_, refl, ((zeros 22, refl), ((0 ∷ 0 ∷ 1 ∷ 1 ∷ 0 ∷ []), refl)))
      and_then (_, refl, ((zeros 18, refl), ((0 ∷ 0 ∷ 4 ∷ 0 ∷ 0 ∷ 1 ∷ 0 ∷ []), refl)))
      and_then (_, refl, ((zeros 21, refl), ((0 ∷ 0 ∷ 0 ∷ 2 ∷ 2 ∷ 2 ∷ 0 ∷ 0 ∷ []), refl)))
      and_then (_, refl, ((zeros 14, refl), ((0 ∷ 2 ∷ 0 ∷ 0 ∷ []), refl)))
      and_then (_, refl, ((zeros 12, refl), ((0 ∷ 0 ∷ 1 ∷ 0 ∷ 0 ∷ []), refl)))
      and_then (_, refl, ((zeros 12, refl), (zeros 12, refl)))
      and_then (_, refl, ((zeros 21, refl), (zeros 10, refl)))
      and_then (_, refl, ((zeros 17, refl), ((2 ∷ 2 ∷ 2 ∷ 0 ∷ 0 ∷ []), refl)))
      and_then (_, refl, ((zeros 12, refl), ((2 ∷ 0 ∷ 0 ∷ []), refl)))
      and_then tt,
  (0 ∷ 14 ∷ 13 ∷ 12 ∷ 11 ∷ 10 ∷ 9 ∷ 8 ∷ 7 ∷ 6 ∷ 5 ∷ 4 ∷ 3 ∷ 2 ∷ 1 ∷ 0 ∷ [], refl),
)
