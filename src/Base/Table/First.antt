-- ===== src/Base/Table/First.antt =====
-- `ORDER BY … LIMIT 1` returns a row with the least measure that the order respects.
use Prim.Native.Nat.{ℕ, suc, ◌≤◌}
use mathlib.Core.Path.{◌≡◌, refl}
use mathlib.Core.Logic.{inl, inr}
use mathlib.Core.Bool.{Bool, true, false}
use mathlib.Core.Option.{Option, none, some}
use mathlib.Core.List.{List, [], ◌∷◌}
use native.Mathlib.Omega.{arith}
use mineru_gateway.Base.Tests.{if◌then◌else◌, Bool-cases}
use mineru_gateway.Base.Table.{All, select_where, first_by, find_where, count_where}
use mineru_gateway.Base.Table.Keys.{All-mono}

module _ {ℓ} {R : Type ℓ} where
  -- What holds of a selection holds of the rows that satisfy its condition.
  pub All-of_select {κ} :
      (P : R → Type κ) (p : R → Bool) (rows : List R)
      → All P (select_where p rows)
      → All (λ r. p r ≡ true → P r) rows
  unfolding select_where
  All-of_select P p [] h = tt
  All-of_select P p (r ∷ rows) h = elim (Bool-cases (p r)) [
    | inl e ↦ let k = rw e at h in (λ _. k.0, All-of_select P p rows k.1)
    | inr e ↦ (λ t. absurd (clash e t), All-of_select P p rows (rw e at h))
  ]
    where
      clash : {b : Bool} → b ≡ false → b ≡ true → ⊥
      clash e t = cc

  -- An empty selection has no row that satisfies the condition.
  pub select_where-nil :
      (p : R → Bool) (rows : List R) → select_where p rows ≡ [] → All (λ r. p r ≡ false) rows
  unfolding select_where
  select_where-nil p [] e = tt
  select_where-nil p (r ∷ rows) e = elim (Bool-cases (p r)) [
    | inl q ↦ absurd (ground arith)
    | inr q ↦ (q, select_where-nil p rows (rw q at e))
  ]

  pub first_by-none : (less : R → R → Bool) (rows : List R) → first_by less rows ≡ none → rows ≡ []
  unfolding first_by
  first_by-none less [] e = refl
  first_by-none less (x ∷ rows) e = go (first_by less rows) e
    where
      go :
          (o : Option R)
          → (elim o as (λ _. Option R) [
            | none ↦ some x
            | some best ↦ if less best x then some best else some x
          ])
            ≡ none
          → x ∷ rows ≡ []
      go none q = cc
      go (some best) q = absurd (ground arith)

  -- The order respects a measure: it never puts the larger one first.
  pub record Respects (less : R → R → Bool) (m : R → ℕ) : Type ℓ where
    pub first : (a b : R) → less a b ≡ true → m a ≤ m b
    pub not_first : (a b : R) → less a b ≡ false → m b ≤ m a

  pub first_by-minimises :
      (less : R → R → Bool) (m : R → ℕ) (rows : List R) {r : R}
      → Respects less m
      → first_by less rows ≡ some r
      → All (λ x. m r ≤ m x) rows
  unfolding first_by
  first_by-minimises less m [] o e = tt
  first_by-minimises less m (x ∷ rows) {r} o e =
      go (first_by less rows) refl e (λ b q. first_by-minimises less m rows {r = b} o q)
    where
      go :
          (best? : Option R)
          → first_by less rows ≡ best?
          → (elim best? as (λ _. Option R) [
            | none ↦ some x
            | some best ↦ if less best x then some best else some x
          ])
            ≡ some r
          → ((b : R) → best? ≡ some b → All (λ y. m b ≤ m y) rows)
          → (m r ≤ m x) × All (λ y. m r ≤ m y) rows
      go none f q ih =
          let same : x ≡ r = cc in rw (← same, first_by-none less rows f) (omega arith, tt)
      go (some best) f q ih = elim (Bool-cases (less best x)) [
        | inl t ↦ let same : best ≡ r = ground arith in rw (← same) (o.first best x t, ih best refl)
        | inr t ↦
            let same : x ≡ r = ground arith in
            let down = o.not_first best x t in
            rw (← same) (omega arith, All-mono rows (λ y h. omega (arith, down, h)) (ih best refl))
      ]

  -- A condition that some row satisfies finds a row.
  pub find_where-of_count :
      (p : R → Bool) (rows : List R)
      → suc 0 ≤ count_where p rows
      → (r : R) × (find_where p rows ≡ some r)
  unfolding find_where count_where
  find_where-of_count p [] h = elim h [ ]
  find_where-of_count p (x ∷ rows) h = elim (Bool-cases (p x)) [
    | inl e ↦ (x, rw e)
    | inr e ↦
        let more : 1 ≤ count_where p rows = ground arith in
        let (r, q) = find_where-of_count p rows more in (r, ground (arith, q))
  ]
