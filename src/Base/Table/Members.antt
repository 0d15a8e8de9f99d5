-- ===== src/Base/Table/Members.antt =====
-- Rows as members of their table, and properties of a selection.
use Prim.Native.Nat.{ℕ, zero, suc}
use mathlib.Core.Path.{◌≡◌, refl, sym, subst, ap}
use mathlib.Core.Logic.{inl, inr}
use native.Mathlib.Omega.{arith}
use mineru_gateway.Base.Tests.{Bool-cases}
use mathlib.Core.Bool.{Bool, true, false}
use mathlib.Core.List.{List, [], ◌∷◌, Memᴰ}
use mineru_gateway.Base.Table.{All, select_where, insert_by, sort_by, take, delete_where}
use mineru_gateway.Base.Table.Laws.{All-select_where, select_where-holds}
use mineru_gateway.Base.Table.Keys.{All-mono}

module _ {ℓ} {R : Type ℓ} where
  pub All-Memᴰ : (rows : List R) → All (λ r. Memᴰ r rows) rows
  All-Memᴰ [] = tt
  All-Memᴰ (r ∷ rows) = (Memᴰ.head refl, All-mono rows (λ y m. Memᴰ.tail m) (All-Memᴰ rows))

  pub All-both {κ μ} :
      (P : R → Type κ) (Q : R → Type μ) (rows : List R)
      → All P rows
      → All Q rows
      → All (λ r. P r × Q r) rows
  All-both P Q [] p q = tt
  All-both P Q (r ∷ rows) p q = ((p.0, q.0), All-both P Q rows p.1 q.1)

  -- The selected rows keep their properties, and satisfy the condition.
  pub All-selected {κ} :
      (P : R → Type κ) (p : R → Bool) (rows : List R)
      → All P rows
      → All (λ r. P r × (p r ≡ true)) (select_where p rows)
  All-selected P p rows h =
      All-both P (λ r. p r ≡ true) (select_where p rows) (All-select_where P p rows h)
        (select_where-holds p rows)

  pub All-member {κ} : (P : R → Type κ) (rows : List R) {r : R} → All P rows → Memᴰ r rows → P r
  All-member P [] {r = r} h m = elim m [ ]
  All-member P (x ∷ rows) h (Memᴰ.head e) = subst P (sym e) h.0
  All-member P (x ∷ rows) h (Memᴰ.tail m) = All-member P rows h.1 m

  pub All-insert_by {κ} :
      (P : R → Type κ) (less : R → R → Bool) (x : R) (rows : List R)
      → P x
      → All P rows
      → All P (insert_by less x rows)
  unfolding insert_by
  All-insert_by P less x [] h rest = (h, tt)
  All-insert_by P less x (y ∷ ys) h rest = elim (Bool-cases (less y x)) [
    | inl q ↦ rw q (rest.0, All-insert_by P less x ys h rest.1)
    | inr q ↦ rw q (h, rest)
  ]

  pub All-sort_by {κ} :
      (P : R → Type κ) (less : R → R → Bool) (rows : List R)
      → All P rows
      → All P (sort_by less rows)
  unfolding sort_by
  All-sort_by P less [] h = tt
  All-sort_by P less (x ∷ rows) h =
      All-insert_by P less x (sort_by less rows) h.0 (All-sort_by P less rows h.1)

  pub All-take {κ} : (P : R → Type κ) (n : ℕ) (rows : List R) → All P rows → All P (take n rows)
  unfolding take
  All-take P zero rows h = tt
  All-take P (suc n) [] h = tt
  All-take P (suc n) (r ∷ rows) h = (h.0, All-take P n rows h.1)

  -- A row that does not satisfy the condition is not deleted.
  pub delete_where-member :
      (p : R → Bool) (rows : List R) {r : R}
      → p r ≡ false
      → Memᴰ r rows
      → Memᴰ r (delete_where p rows)
  unfolding delete_where
  delete_where-member p [] {r} h m = elim m [ ]
  delete_where-member p (x ∷ rows) h (Memᴰ.head e) = elim (Bool-cases (p x)) [
    | inl q ↦ (let same = ap p e in absurd (ground (arith, h, q, same)))
    | inr q ↦ rw q (Memᴰ.head e)
  ]
  delete_where-member p (x ∷ rows) h (Memᴰ.tail n) = elim (Bool-cases (p x)) [
    | inl q ↦ rw q (delete_where-member p rows h n)
    | inr q ↦ rw q (Memᴰ.tail (delete_where-member p rows h n))
  ]
