-- ===== src/Base/Table/Keys.antt =====
-- Rows by key: what an update does to the row that is found, and what a key that no two rows share
-- gives. A key is unique where the count of its rows is at most one.
use Prim.Native.Nat.{◌≤◌, ◌<◌}
use mathlib.Core.Path.{◌≡◌, refl}
use mathlib.Core.Logic.{inl, inr}
use mathlib.Core.Bool.{Bool, true, false}
use mathlib.Core.Option.{none, some}
use mathlib.Core.List.{List, [], ◌∷◌}
use native.Mathlib.Omega.{arith}
use mineru_gateway.Base.Tests.{Bool-cases}
use mineru_gateway.Base.Table.{All, count_where, update_where, find_where}
use mineru_gateway.Base.Table.Laws.{count_where-zero}

module _ {ℓ} {R : Type ℓ} where
  pub All-mono {κ μ} :
      {P : R → Type κ} {Q : R → Type μ} (rows : List R)
      → ((r : R) → P r → Q r)
      → All P rows
      → All Q rows
  All-mono [] f h = tt
  All-mono (r ∷ rows) f h = (f r h.0, All-mono rows f h.1)

  -- An update that leaves the key alone is an update of the row that is found.
  pub find_where-update :
      (p : R → Bool) (f : R → R) (rows : List R) {r : R}
      → ((x : R) → p (f x) ≡ p x)
      → find_where p rows ≡ some r
      → find_where p (update_where p f rows) ≡ some (f r)
  unfolding find_where update_where
  find_where-update p f [] keep e = cc
  find_where-update p f (x ∷ rows) {r} keep e = elim (Bool-cases (p x)) [
    | inl q ↦ let same : x ≡ r = ground arith in rw (q, keep x, q, same)
    | inr q ↦ rw (q, q) (find_where-update p f rows keep (ground arith))
  ]

  pub find_where-update_none :
      (p : R → Bool) (f : R → R) (rows : List R)
      → ((x : R) → p (f x) ≡ p x)
      → find_where p rows ≡ none
      → find_where p (update_where p f rows) ≡ none
  unfolding find_where update_where
  find_where-update_none p f [] keep e = refl
  find_where-update_none p f (x ∷ rows) keep e = elim (Bool-cases (p x)) [
    | inl q ↦ absurd (ground arith)
    | inr q ↦ rw (q, q) (find_where-update_none p f rows keep (ground arith))
  ]

  -- An update of rows that another condition excludes leaves what that one finds.
  pub find_where-update_other :
      (c p : R → Bool) (f : R → R) (rows : List R)
      → ((x : R) → p x ≡ true → (c x ≡ false) × (c (f x) ≡ false))
      → find_where c (update_where p f rows) ≡ find_where c rows
  unfolding find_where update_where
  find_where-update_other c p f [] apart = refl
  find_where-update_other c p f (x ∷ rows) apart = elim (Bool-cases (p x)) [
    | inl q ↦ rw (q, (apart x q).0, (apart x q).1) (find_where-update_other c p f rows apart)
    | inr q ↦ rw (q, find_where-update_other c p f rows apart)
  ]

  -- The row that is found is counted.
  pub find_where-count_pos :
      (p : R → Bool) (rows : List R) {r : R} → find_where p rows ≡ some r → 0 < count_where p rows
  unfolding find_where count_where
  find_where-count_pos p [] e = cc
  find_where-count_pos p (x ∷ rows) {r} e = elim (Bool-cases (p x)) [
    | inl q ↦ rw q (omega arith)
    | inr q ↦ rw q (omega (arith, find_where-count_pos p rows {r = r} (ground arith)))
  ]

  -- Where at most one row satisfies the condition, it is the one that is found.
  pub find_where-only :
      (p : R → Bool) (rows : List R) {r : R}
      → count_where p rows ≤ 1
      → find_where p rows ≡ some r
      → All (λ x. p x ≡ true → x ≡ r) rows
  unfolding find_where count_where
  find_where-only p [] u e = tt
  find_where-only p (x ∷ rows) {r} u e = elim (Bool-cases (p x)) [
    | inl q ↦
        let same : x ≡ r = ground arith in
        let others = count_where-zero p rows (ground arith) in
        (λ _. same, All-mono rows (λ y h t. absurd (true_ne_false y h t)) others)
    | inr q ↦
        (λ t. absurd (true_ne_false x q t), find_where-only p rows (ground arith) (ground arith))
  ]
    where
      true_ne_false : (y : R) → p y ≡ false → p y ≡ true → ⊥
      true_ne_false y h t = cc

  -- Every row is counted by a condition that it satisfies of itself.
  pub All-count_self :
      (q : R → R → Bool) (rows : List R)
      → ((r : R) → q r r ≡ true)
      → All (λ r. 0 < count_where (q r) rows) rows
  unfolding count_where
  All-count_self q [] h = tt
  All-count_self q (x ∷ rows) h =
      (rw (h x) (omega arith), All-mono rows (λ r k. ground arith) (All-count_self q rows h))

  -- The bound of a count under an update, from what holds of the rows of the table.
  pub count_where-le_update-All :
      (c p : R → Bool) (f : R → R) (rows : List R)
      → All (λ r. p r ≡ true → c (f r) ≡ true → c r ≡ true) rows
      → count_where c (update_where p f rows) ≤ count_where c rows
  unfolding count_where update_where
  count_where-le_update-All c p f [] h = omega arith
  count_where-le_update-All c p f (r ∷ rows) h = elim (Bool-cases (p r)) [
    | inl q ↦ rw q (ground (arith, h.0 q, count_where-le_update-All c p f rows h.1))
    | inr q ↦ rw q (omega (arith, count_where-le_update-All c p f rows h.1))
  ]
