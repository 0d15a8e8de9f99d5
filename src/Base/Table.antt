-- ===== src/Base/Table.antt =====
-- A database table as a list of rows, with the statements that the program sends:
-- SELECT with and without LIMIT 1, COUNT, UPDATE, DELETE, and the row with a given key.
use Prim.Native.Nat.{ℕ, zero, suc, ◌+◌}
use mathlib.Core.Bool.{Bool}
use mathlib.Core.Option.{Option, none, some}
use mathlib.Core.List.{List, [], ◌∷◌}
pub mod Laws
pub mod Slices
pub mod Keys
pub mod First
pub mod Idle
pub mod Members
use mineru_gateway.Base.Tests.{if◌then◌else◌}

module _ {ℓ} {R : Type ℓ} where
  abbrev pub length : List R → ℕ
  length [] = 0
  length (_ ∷ rows) = suc (length rows)

  -- Every row has the property.
  abbrev pub All {κ} : (R → Type κ) → List R → Type κ
  All P [] = Unit
  All P (r ∷ rows) = P r × All P rows

  unfoldable pub select_where : (R → Bool) → List R → List R
  select_where p [] = []
  select_where p (r ∷ rows) = let rest = select_where p rows in if p r then r ∷ rest else rest

  unfoldable pub count_where : (R → Bool) → List R → ℕ
  count_where p [] = 0
  count_where p (r ∷ rows) = (if p r then 1 else 0) + count_where p rows

  -- `UPDATE … WHERE`, and the write back of a row that was read by its key.
  unfoldable pub update_where : (R → Bool) → (R → R) → List R → List R
  update_where p f [] = []
  update_where p f (r ∷ rows) = (if p r then f r else r) ∷ update_where p f rows

  unfoldable pub delete_where : (R → Bool) → List R → List R
  delete_where p [] = []
  delete_where p (r ∷ rows) = let rest = delete_where p rows in if p r then rest else r ∷ rest

  -- The first row that satisfies the condition: `session.get` by the primary key.
  unfoldable pub find_where : (R → Bool) → List R → Option R
  find_where p [] = none
  find_where p (r ∷ rows) = let rest = find_where p rows in if p r then some r else rest

  -- `ORDER BY … LIMIT 1`: the least row of the order, the first of them in the table.
  unfoldable pub first_by : (R → R → Bool) → List R → Option R
  first_by less [] = none
  first_by less (r ∷ rows) = elim (first_by less rows) [
    | none ↦ some r
    | some best ↦ if less best r then some best else some r
  ]

  -- `ORDER BY`: insertion sort, which keeps the order of equal rows.
  unfoldable pub insert_by : (R → R → Bool) → R → List R → List R
  insert_by less x [] = x ∷ []
  insert_by less x (y ∷ ys) =
      let rest = insert_by less x ys in if less y x then y ∷ rest else x ∷ y ∷ ys

  unfoldable pub sort_by : (R → R → Bool) → List R → List R
  unfolding insert_by
  sort_by less [] = []
  sort_by less (x ∷ xs) = insert_by less x (sort_by less xs)

  -- `LIMIT n`
  unfoldable pub take : ℕ → List R → List R
  take zero rows = []
  take (suc n) [] = []
  take (suc n) (r ∷ rows) = r ∷ take n rows

  unfoldable pub drop : ℕ → List R → List R
  drop zero rows = rows
  drop (suc n) [] = []
  drop (suc n) (r ∷ rows) = drop n rows
