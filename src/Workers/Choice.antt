-- ===== src/Workers/Choice.antt =====
-- The worker that `acquire_dispatchable` chooses, and what the choice leaves of the others.
use mineru_gateway.Base.{◌⊎◌, ==_comm}
use mineru_gateway.Base.{
  ℕ, ◌+◌, ◌≤◌, ◌<◌, ◌≡◌, refl, true, false, String, List, [], ◌∷◌, none, some, ◌==◌, ◌&&◌, not, inl,
  inr, arith, eq_iff, eq_refl, Bool-cases, Option-cases,
}
use mineru_gateway.Base.Table.{select_where, count_where}
use mineru_gateway.Base.Table.Laws.{
  All-select_where, select_where-holds, first_by-All, count_where-eq_update,
}
use mineru_gateway.Base.Table.Keys.{All-count_self}
use mineru_gateway.Config.{GatewaySettings}
use mineru_gateway.Models.{Worker, Db, has_id}
use mineru_gateway.Workers.Clauses.{active_count, dispatchable_clause, serviceable_clause}
use mineru_gateway.Workers.Queries.{find_dispatchable, contains, dispatch_less}
use mineru_gateway.Workers.Commits.{acquire_dispatchable, commit_fields}

-- The number of workers that are not excluded.
abbrev pub remaining : List String → Db → ℕ
remaining excluded db = count_where (λ w. not (contains excluded w.id)) db.workers

-- What holds of a worker that the selection of `acquire_dispatchable` returns.
pub record IsChosen (cfg : GatewaySettings) (excluded : List String) (db : Db) (w : Worker)
    : Type 0 where
  pub serviceable : serviceable_clause cfg w ≡ true
  pub has_slot : active_count db.tasks w.id < cfg.target_per_worker
  pub not_excluded : contains excluded w.id ≡ false
  pub listed : 0 < count_where (has_id w.id) db.workers

IsChosen-of_clause :
    (cfg : GatewaySettings) (excluded : List String) (db : Db) (w : Worker)
    → (dispatchable_clause cfg db.tasks w && not (contains excluded w.id)) ≡ true
    → 0 < count_where (has_id w.id) db.workers
    → IsChosen cfg excluded db w
unfolding dispatchable_clause
IsChosen-of_clause cfg excluded db w h l = elim (Bool-cases (serviceable_clause cfg w)) [
  | inl s ↦ elim (Bool-cases (contains excluded w.id)) [
    | inr c ↦ record { serviceable = s; has_slot = ground arith; not_excluded = c; listed = l }
    | inl c ↦ absurd (ground arith)
  ]
  | inr s ↦ absurd (ground arith)
]

pub find_dispatchable-IsChosen :
    (cfg : GatewaySettings) (excluded : List String) (db : Db) {w : Worker}
    → find_dispatchable cfg excluded db ≡ some w
    → IsChosen cfg excluded db w
unfolding find_dispatchable
find_dispatchable-IsChosen cfg excluded db {w} e =
    let p = λ (x : Worker). dispatchable_clause cfg db.tasks x && not (contains excluded x.id) in
    let listed = All-count_self (λ r. has_id r.id) db.workers (λ r. eq_refl r.id) in
    IsChosen-of_clause cfg excluded db w
      (first_by-All (λ x. p x ≡ true) (dispatch_less db.tasks) (select_where p db.workers)
        (select_where-holds p db.workers) e)
      (first_by-All (λ x. 0 < count_where (has_id x.id) db.workers) (dispatch_less db.tasks)
        (select_where p db.workers)
        (All-select_where (λ x. 0 < count_where (has_id x.id) db.workers) p db.workers listed) e)

-- The worker that `acquire_dispatchable` returns for a chosen row, and the database after it.
abbrev pub stamped : ℕ → Worker → Worker
stamped now w = record w { last_active_at = some now; updated_at = now }

abbrev pub after_choice : ℕ → Worker → Db → Db
after_choice now w db = commit_fields w.id now (λ v. record v { last_active_at = some now }) db

-- `acquire_dispatchable` finds none and writes nothing, or returns a chosen worker and writes only
-- its time of last activity.
pub acquire_dispatchable-cases :
    (cfg : GatewaySettings) (now : ℕ) (excluded : List String) (db : Db)
    → (acquire_dispatchable cfg now excluded db ≡ (none, db))
      ⊎ ((w : Worker) × IsChosen cfg excluded db w
          × (acquire_dispatchable cfg now excluded db
              ≡ (some (stamped now w), after_choice now w db)))
unfolding acquire_dispatchable
acquire_dispatchable-cases cfg now excluded db =
    elim (Option-cases (find_dispatchable cfg excluded db)) [
      | inl e ↦ inl (rw (e, acquire_dispatchable))
      | inr (w, e) ↦
          inr (w, find_dispatchable-IsChosen cfg excluded db e, rw (e, acquire_dispatchable))
    ]

pub remaining-after_choice :
    (now : ℕ) (w : Worker) (excluded : List String) (db : Db)
    → remaining excluded (after_choice now w db) ≡ remaining excluded db
unfolding commit_fields
remaining-after_choice now w excluded db =
    count_where-eq_update (λ v. not (contains excluded v.id)) (has_id w.id)
      (λ v. record v { last_active_at = some now; updated_at = now }) db.workers (λ r h. refl)

remaining_split :
    (k : String) (excluded : List String) (workers : List Worker)
    → contains excluded k ≡ false
    → count_where (λ w. not (contains (k ∷ excluded) w.id)) workers + count_where (has_id k) workers
      ≤ count_where (λ w. not (contains excluded w.id)) workers
unfolding count_where contains
remaining_split k excluded [] h = omega arith
remaining_split k excluded (r ∷ workers) h = elim (Bool-cases (r.id == k)) [
  | inl e ↦
      let same = (eq_iff r.id k).0 e in
      rw (same, eq_refl k, h) (omega (arith, remaining_split k excluded workers h))
  | inr e ↦ rw (==_comm k r.id, e) (omega (arith, remaining_split k excluded workers h))
]

-- Each choice leaves fewer workers to try.
pub remaining-lt :
    (cfg : GatewaySettings) (excluded : List String) (db : Db) (w : Worker)
    → IsChosen cfg excluded db w
    → remaining (w.id ∷ excluded) db < remaining excluded db
remaining-lt cfg excluded db w c =
    omega (arith, remaining_split w.id excluded db.workers c.not_excluded, c.listed)
