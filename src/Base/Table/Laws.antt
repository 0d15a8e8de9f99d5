-- ===== src/Base/Table/Laws.antt =====
-- What the statements on a table keep: properties of rows, counts, and unique keys.
use Prim.Native.Nat.{ℕ, suc, ◌+◌, ◌≤◌}
use mathlib.Core.Path.{◌≡◌, refl}
use mathlib.Core.Logic.{inl, inr}
use mathlib.Core.Bool.{Bool, true, false}
use mathlib.Core.Option.{Option, none, some}
use mathlib.Core.List.{List, [], ◌∷◌, ◌++◌}
use native.Mathlib.Omega.{arith}
use mineru_gateway.Base.Tests.{if◌then◌else◌, Bool-cases}
use mineru_gateway.Base.Table.{
  length, All, select_where, count_where, update_where, delete_where, find_where, first_by,
}

module _ {ℓ κ} {R : Type ℓ} (P : R → Type κ) where
  pub All-select_where : (p : R → Bool) (rows : List R) → All P rows → All P (select_where p rows)
  unfolding select_where
  All-select_where p [] h = h
  All-select_where p (r ∷ rows) h = elim (Bool-cases (p r)) [
    | inl e ↦ rw e (h.0, All-select_where p rows h.1)
    | inr e ↦ rw e (All-select_where p rows h.1)
  ]

  pub All-delete_where : (p : R → Bool) (rows : List R) → All P rows → All P (delete_where p rows)
  unfolding delete_where
  All-delete_where p [] h = h
  All-delete_where p (r ∷ rows) h = elim (Bool-cases (p r)) [
    | inl e ↦ rw e (All-delete_where p rows h.1)
    | inr e ↦ rw e (h.0, All-delete_where p rows h.1)
  ]

  -- An update keeps what its function keeps on the rows that it touches.
  pub All-update_where :
      (p : R → Bool) (f : R → R) (rows : List R)
      → ((r : R) → p r ≡ true → P r → P (f r))
      → All P rows
      → All P (update_where p f rows)
  unfolding update_where
  All-update_where p f [] keep h = h
  All-update_where p f (r ∷ rows) keep h = elim (Bool-cases (p r)) [
    | inl e ↦ rw e (keep r e h.0, All-update_where p f rows keep h.1)
    | inr e ↦ rw e (h.0, All-update_where p f rows keep h.1)
  ]

  pub All-append : (rows more : List R) → All P rows → All P more → All P (rows ++ more)
  All-append [] more h k = k
  All-append (r ∷ rows) more h k = (h.0, All-append rows more h.1 k)

  pub All-intro : (rows : List R) → ((r : R) → P r) → All P rows
  All-intro [] h = tt
  All-intro (r ∷ rows) h = (h r, All-intro rows h)

  -- A row that is found has the property of all rows, and satisfies the condition.
  pub find_where-All :
      (p : R → Bool) (rows : List R) {r : R}
      → All P rows
      → find_where p rows ≡ some r
      → P r × (p r ≡ true)
  unfolding find_where
  find_where-All p [] h e = cc
  find_where-All p (x ∷ rows) {r} h e = elim (Bool-cases (p x)) [
    | inl q ↦ let same : x ≡ r = ground arith in rw (← same) (h.0, q)
    | inr q ↦ find_where-All p rows h.1 (ground arith)
  ]

  pub first_by-All :
      (less : R → R → Bool) (rows : List R) {r : R} → All P rows → first_by less rows ≡ some r → P r
  unfolding first_by
  first_by-All less [] h e = cc
  first_by-All less (x ∷ rows) {r} h e =
      pick (first_by less rows) e (λ b q. first_by-All less rows {r = b} h.1 q)
    where
      pick :
          (o : Option R)
          → (elim o [ none ↦ some x | some best ↦ if less best x then some best else some x ])
            ≡ some r
          → ((b : R) → o ≡ some b → P b)
          → P r
      pick none q ih = let same : x ≡ r = cc in rw (← same) h.0
      pick (some best) q ih = elim (Bool-cases (less best x)) [
        | inl t ↦ let same : best ≡ r = ground arith in rw (← same) (ih best refl)
        | inr t ↦ let same : x ≡ r = ground arith in rw (← same) h.0
      ]

module _ {ℓ} {R : Type ℓ} where
  -- The rows of a selection satisfy its condition.
  pub select_where-holds :
      (p : R → Bool) (rows : List R) → All (λ r. p r ≡ true) (select_where p rows)
  unfolding select_where
  select_where-holds p [] = tt
  select_where-holds p (r ∷ rows) = elim (Bool-cases (p r)) [
    | inl e ↦ rw e (e, select_where-holds p rows)
    | inr e ↦ rw e (select_where-holds p rows)
  ]

  pub find_where-none :
      (p : R → Bool) (rows : List R) → find_where p rows ≡ none → All (λ r. p r ≡ false) rows
  unfolding find_where
  find_where-none p [] e = tt
  find_where-none p (x ∷ rows) e = elim (Bool-cases (p x)) [
    | inl q ↦ absurd (ground arith)
    | inr q ↦ (q, find_where-none p rows (ground arith))
  ]

  -- A row behind those that do not satisfy the condition.
  pub find_where-last :
      (p : R → Bool) (rows : List R) (x : R)
      → find_where p rows ≡ none
      → p x ≡ true
      → find_where p (rows ++ x ∷ []) ≡ some x
  unfolding find_where
  find_where-last p [] x e h = rw h refl
  find_where-last p (r ∷ rows) x e h = elim (Bool-cases (p r)) [
    | inl q ↦ absurd (ground arith)
    | inr q ↦ rw q (find_where-last p rows x (ground arith) h)
  ]

  -- Counts.
  pub count_where-le_update :
      (c p : R → Bool) (f : R → R) (rows : List R)
      → ((r : R) → p r ≡ true → c (f r) ≡ true → c r ≡ true)
      → count_where c (update_where p f rows) ≤ count_where c rows
  unfolding count_where update_where
  count_where-le_update c p f [] keep = omega arith
  count_where-le_update c p f (r ∷ rows) keep =
      ground (arith, count_where-le_update c p f rows keep, keep r)

  pub count_where-eq_update :
      (c p : R → Bool) (f : R → R) (rows : List R)
      → ((r : R) → p r ≡ true → c (f r) ≡ c r)
      → count_where c (update_where p f rows) ≡ count_where c rows
  unfolding count_where update_where
  count_where-eq_update c p f [] keep = refl
  count_where-eq_update c p f (r ∷ rows) keep =
      ground (arith, count_where-eq_update c p f rows keep, keep r)

  -- An update adds at most as many rows to a count as it touches.
  pub count_where-le_update_add :
      (c p : R → Bool) (f : R → R) (rows : List R)
      → count_where c (update_where p f rows) ≤ count_where c rows + count_where p rows
  unfolding count_where update_where
  count_where-le_update_add c p f [] = omega arith
  count_where-le_update_add c p f (r ∷ rows) = ground (arith, count_where-le_update_add c p f rows)

  pub count_where-le_delete :
      (c p : R → Bool) (rows : List R) → count_where c (delete_where p rows) ≤ count_where c rows
  unfolding count_where delete_where
  count_where-le_delete c p [] = omega arith
  count_where-le_delete c p (r ∷ rows) = ground (arith, count_where-le_delete c p rows)

  pub count_where-append :
      (c : R → Bool) (rows more : List R)
      → count_where c (rows ++ more) ≡ count_where c rows + count_where c more
  unfolding count_where
  count_where-append c [] more = omega arith
  count_where-append c (r ∷ rows) more = omega (arith, count_where-append c rows more)

  pub count_where_mono :
      (c d : R → Bool) (rows : List R)
      → ((r : R) → c r ≡ true → d r ≡ true)
      → count_where c rows ≤ count_where d rows
  unfolding count_where
  count_where_mono c d [] h = omega arith
  count_where_mono c d (r ∷ rows) h = ground (arith, count_where_mono c d rows h, h r)

  pub count_where-le-length : (c : R → Bool) (rows : List R) → count_where c rows ≤ length rows
  unfolding count_where
  count_where-le-length c [] = omega arith
  count_where-le-length c (r ∷ rows) = ground (arith, count_where-le-length c rows)

  pub count_where-zero :
      (c : R → Bool) (rows : List R) → count_where c rows ≡ 0 → All (λ r. c r ≡ false) rows
  unfolding count_where
  count_where-zero c [] h = tt
  count_where-zero c (r ∷ rows) h = (ground arith, count_where-zero c rows (ground arith))

  pub count_where-eq_zero :
      (c : R → Bool) (rows : List R) → All (λ r. c r ≡ false) rows → count_where c rows ≡ 0
  unfolding count_where
  count_where-eq_zero c [] h = refl
  count_where-eq_zero c (r ∷ rows) h = ground (arith, count_where-eq_zero c rows h.1)

  pub length-update_where :
      (p : R → Bool) (f : R → R) (rows : List R) → length (update_where p f rows) ≡ length rows
  unfolding update_where
  length-update_where p f [] = refl
  length-update_where p f (r ∷ rows) = ap_suc (length-update_where p f rows)
    where
      ap_suc : {a b : ℕ} → a ≡ b → suc a ≡ suc b
      ap_suc e = omega arith
