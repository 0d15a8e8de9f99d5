-- ===== src/TaskFlow/Polls.antt =====
-- The polls of a synchronous request end, and where.
use mathlib.Core.Path.{subst}
use mineru_gateway.Base.{
  ℕ, zero, suc, ◌+◌, ◌≤◌, ◌<◌, ◌≡◌, ◌⊎◌, inl, inr, refl, ap, ◌∙◌, sym, true, false, Option, none,
  some, is_some, arith, ltb, Bool-cases, Option-cases,
}
use mineru_gateway.Models.{Task}
use mineru_gateway.TaskFlow.{is_poll_complete, poll_from, poll_task_until_terminal}

module _ (rows : ℕ → Option Task) where
  -- At this poll the task exists and is not complete.
  abbrev pub IsWaiting : ℕ → Type 0
  IsWaiting i = (row : Task) × (rows i ≡ some row) × (is_poll_complete row ≡ false)

  -- At this poll the waiting ends: the task is gone or complete.
  abbrev pub IsEnd : ℕ → Type 0
  IsEnd i = (rows i ≡ none) ⊎ ((row : Task) × (rows i ≡ some row) × (is_poll_complete row ≡ true))

  -- How `more + 1` polls from `i` on end: at the first end among them, or, where there is none, at
  -- the last of them.
  abbrev pub Ends : (more i : ℕ) → Option Task → Type 0
  Ends more i r =
      ((k : ℕ) × (i ≤ k)
        × (k ≤ i + more)
        × ((j : ℕ) → i ≤ j → j < k → IsWaiting j)
        × IsEnd k
        × (r ≡ rows k))
      ⊎ (((j : ℕ) → i ≤ j → j ≤ i + more → IsWaiting j) × (r ≡ rows (i + more)))

  Row-cases : (i : ℕ) → IsEnd i ⊎ IsWaiting i
  Row-cases i = elim (Option-cases (rows i)) [
    | inl e ↦ inl (inl e)
    | inr (row, e) ↦ elim (Bool-cases (is_poll_complete row)) [
      | inl q ↦ inl (inr (row, e, q))
      | inr q ↦ inr (row, e, q)
    ]
  ]

  -- A poll that ends the waiting gives its row.
  poll_from-end :
      (left i : ℕ) (last : Option Task) → IsEnd i → poll_from rows (suc left) i last ≡ rows i
  unfolding poll_from
  poll_from-end left i last (inl e) = rw (e, poll_from) refl
  poll_from-end left i last (inr (row, e, q)) = rw (e, poll_from, q) refl

  poll_from-waiting :
      (left i : ℕ) (last : Option Task)
      → IsWaiting i
      → poll_from rows (suc left) i last ≡ poll_from rows left (i + 1) (rows i)
  unfolding poll_from
  poll_from-waiting left i last (row, e, q) = rw (e, poll_from, q, e) refl

  poll_once : (i : ℕ) (last : Option Task) → IsWaiting i → poll_from rows 1 i last ≡ rows i
  unfolding poll_from
  poll_once i last waiting = poll_from-waiting zero i last waiting

  -- The first poll and the later ones.
  from_first : (i j : ℕ) → IsWaiting i → i ≤ j → (i + 1 ≤ j → IsWaiting j) → IsWaiting j
  from_first i j now le later = elim (Bool-cases (ltb i j)) [
    | inl q ↦ later (ground (arith, q))
    | inr q ↦ (let same : i ≡ j = ground (arith, q, le) in subst IsWaiting same now)
  ]

  after_first :
      (more i : ℕ) {r : Option Task} → IsWaiting i → Ends more (i + 1) r → Ends (suc more) i r
  after_first more i now (inl (k, lo, hi, before, end, e)) = inl (
    k,
    omega arith,
    omega arith,
    λ j le lt. from_first i j now le (λ later. before j later lt),
    end,
    e,
  )
  after_first more i {r} now (inr (before, e)) =
      let same : i + 1 + more ≡ i + suc more = omega arith in
      inr (
        λ j le hi. from_first i j now le (λ later. before j later (omega arith)),
        subst (λ k. r ≡ rows k) same e,
      )

  poll_from-Ends :
      (more i : ℕ) (last : Option Task) → Ends more i (poll_from rows (suc more) i last)
  poll_from-Ends zero i last = elim (Row-cases i) [
    | inl end ↦ inl (
      i,
      omega arith,
      omega arith,
      λ j le lt. absurd (omega arith),
      end,
      poll_from-end zero i last end,
    )
    | inr waiting ↦
        let same : i ≡ i + 0 = omega arith in
        inr (
          λ j le hi. from_first i j waiting le (λ later. absurd (omega arith)),
          subst (λ k. poll_from rows 1 i last ≡ rows k) same (poll_once i last waiting),
        )
  ]
  poll_from-Ends (suc more) i last = elim (Row-cases i) [
    | inl end ↦ inl (
      i,
      omega arith,
      omega arith,
      λ j le lt. absurd (omega arith),
      end,
      poll_from-end (suc more) i last end,
    )
    | inr waiting ↦
        rw (poll_from-waiting (suc more) i last waiting)
          (after_first more i waiting (poll_from-Ends more (i + 1) (rows i)))
  ]

waiting-incomplete :
    (rows : ℕ → Option Task) (i : ℕ) (row : Task)
    → IsWaiting rows i
    → rows i ≡ some row
    → is_poll_complete row ≡ true
    → ⊥
waiting-incomplete rows i row (other, e, q) at done =
    let same : some other ≡ some row = sym e ∙ at in
    let equal : other ≡ row = ground (arith, same) in
    let c = ap is_poll_complete equal in absurd (ground (arith, c, q, done))

-- The polls of a synchronous request, of which there are at most 300, stop at the first one at
-- which the task is gone or complete, and give what it read; where there is no such poll, the task
-- was waiting at each, and they give the row of the last.
pub poll_task_until_terminal-Ends :
    (rows : ℕ → Option Task) → Ends rows 299 0 (poll_task_until_terminal rows)
unfolding poll_task_until_terminal
poll_task_until_terminal-Ends rows = poll_from-Ends rows 299 0 none

-- A task that is complete at one of the 300 polls, and was not gone at an earlier one, is given as
-- the complete row that this poll or an earlier one read.
pub poll_task_until_terminal_completes :
    (rows : ℕ → Option Task) (i : ℕ) (row : Task)
    → i < 300
    → rows i ≡ some row
    → is_poll_complete row ≡ true
    → ((j : ℕ) → j < i → is_some (rows j) ≡ true)
    → (k : ℕ) × (found : Task) × (k ≤ i)
      × (rows k ≡ some found)
      × (poll_task_until_terminal rows ≡ some found)
      × (is_poll_complete found ≡ true)
poll_task_until_terminal_completes rows i row lt e done present =
    go (poll_task_until_terminal-Ends rows)
  where
    go :
        Ends rows 299 0 (poll_task_until_terminal rows)
        → (k : ℕ) × (found : Task) × (k ≤ i)
          × (rows k ≡ some found)
          × (poll_task_until_terminal rows ≡ some found)
          × (is_poll_complete found ≡ true)
    go (inl (k, _, hi, before, inl gone, same)) = elim (Bool-cases (ltb k i)) [
      | inl q ↦ (let there = present k (ground (arith, q)) in absurd (ground arith))
      | inr q ↦ elim (Bool-cases (ltb i k)) [
        | inl p ↦
            absurd
              (waiting-incomplete rows i row (before i (omega arith) (ground (arith, p))) e done)
        | inr p ↦
            (let at_i : k ≡ i = ground (arith, p, q) in
              let there : rows i ≡ none = subst (λ n. rows n ≡ none) at_i gone in
              absurd (ground (arith, there, e)))
      ]
    ]
    go (inl (k, _, hi, before, inr (found, at, c), same)) = elim (Bool-cases (ltb i k)) [
      | inl p ↦
          absurd (waiting-incomplete rows i row (before i (omega arith) (ground (arith, p))) e done)
      | inr p ↦ (k, found, ground (arith, p), at, same ∙ at, c)
    ]
    go (inr (waiting, same)) =
        absurd (waiting-incomplete rows i row (waiting i (omega arith) (omega arith)) e done)
