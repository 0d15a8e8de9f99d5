-- ===== src/Base/Table/Idle.antt =====
-- Statements that match no row, and what holds of all rows after an update.
use mathlib.Core.Path.{◌≡◌, refl}
use mathlib.Core.Logic.{inl, inr}
use mathlib.Core.Bool.{Bool, true, false}
use mathlib.Core.Option.{none}
use mathlib.Core.List.{List, [], ◌∷◌}
use mineru_gateway.Base.Tests.{Bool-cases}
use mineru_gateway.Base.Table.{All, update_where, delete_where, find_where}
use mineru_gateway.Base.Table.Laws.{All-intro}

module _ {ℓ} {R : Type ℓ} where
  pub update_where-idle :
      (p : R → Bool) (f : R → R) (rows : List R)
      → All (λ r. p r ≡ false) rows
      → update_where p f rows ≡ rows
  unfolding update_where
  update_where-idle p f [] h = refl
  update_where-idle p f (r ∷ rows) h = rw (h.0, update_where-idle p f rows h.1)

  pub delete_where-idle :
      (p : R → Bool) (rows : List R) → All (λ r. p r ≡ false) rows → delete_where p rows ≡ rows
  unfolding delete_where
  delete_where-idle p [] h = refl
  delete_where-idle p (r ∷ rows) h = rw (h.0, delete_where-idle p rows h.1)

  -- What holds of the written rows and of the others holds of all rows after an update.
  pub All-after_update-All {κ} :
      (P : R → Type κ) (p : R → Bool) (f : R → R) (rows : List R)
      → ((r : R) → p r ≡ true → P (f r))
      → All (λ r. p r ≡ false → P r) rows
      → All P (update_where p f rows)
  unfolding update_where
  All-after_update-All P p f [] written others = tt
  All-after_update-All P p f (r ∷ rows) written others = elim (Bool-cases (p r)) [
    | inl e ↦ rw e (written r e, All-after_update-All P p f rows written others.1)
    | inr e ↦ rw e (others.0 e, All-after_update-All P p f rows written others.1)
  ]

  pub All-after_update {κ} :
      (P : R → Type κ) (p : R → Bool) (f : R → R) (rows : List R)
      → ((r : R) → p r ≡ true → P (f r))
      → ((r : R) → p r ≡ false → P r)
      → All P (update_where p f rows)
  All-after_update P p f rows written others =
      All-after_update-All P p f rows written (All-intro (λ r. p r ≡ false → P r) rows others)

  -- Where every row with the key satisfies the condition of a delete, the key is gone after it.
  pub find_where-deleted :
      (c p : R → Bool) (rows : List R)
      → All (λ r. c r ≡ true → p r ≡ true) rows
      → find_where c (delete_where p rows) ≡ none
  unfolding find_where delete_where
  find_where-deleted c p [] h = refl
  find_where-deleted c p (r ∷ rows) h = elim (Bool-cases (p r)) [
    | inl e ↦ rw e (find_where-deleted c p rows h.1)
    | inr e ↦ elim (Bool-cases (c r)) [
      | inl q ↦ absurd (clash (h.0 q) e)
      | inr q ↦ rw (e, q) (find_where-deleted c p rows h.1)
    ]
  ]
    where
      clash : {b : Bool} → b ≡ true → b ≡ false → ⊥
      clash t f = cc
