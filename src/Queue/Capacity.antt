-- ===== src/Queue/Capacity.antt =====
-- No worker is given more tasks than `target_per_worker`, whatever the workers answer.
use mathlib.Core.Bool.{true≢false}
use mineru_gateway.Base.{
  ℕ, ◌<◌, ◌≤◌, ◌≡◌, sym, ◌∙◌, Bool, true, false, String, some, inl, inr, arith, Bool-cases, ◌==◌,
  eq_iff,
}
use mineru_gateway.Base.Table.{count_where}
use mineru_gateway.Base.Table.Laws.{
  count_where-le_update, count_where-eq_update, count_where-le_update_add,
}
use mineru_gateway.Config.{GatewaySettings}
use mineru_gateway.Models.{Task, Db, has_task_id}
use mineru_gateway.Workers.Clauses.{active_count, computing_on}
use mineru_gateway.Queue.Rows.{write_tasks}

-- Task ids are unique, and every worker is within its number of slots.
pub record WithinCapacity (cfg : GatewaySettings) (db : Db) : Type 0 where
  pub unique : (k : String) → count_where (has_task_id k) db.tasks ≤ 1
  pub slots : (w : String) → active_count db.tasks w ≤ cfg.target_per_worker

-- A task that another worker holds takes no slot of this one.
pub not-computing_on :
    (w worker_id : String) (t : Task)
    → t.worker_id ≡ some worker_id
    → (worker_id == w) ≡ false
    → computing_on w t ≡ false
unfolding computing_on
not-computing_on w worker_id t h e = rw (h, e)

module _ (cfg : GatewaySettings) where
  -- A write that keeps the id keeps ids unique.
  pub unique-write :
      (p : Task → Bool) (now : ℕ) (f : Task → Task) (db : Db)
      → ((t : Task) → (f t).task_id ≡ t.task_id)
      → ((k : String) → count_where (has_task_id k) db.tasks ≤ 1)
      → (k : String) → count_where (has_task_id k) (write_tasks p now f db).tasks ≤ 1
  unique-write p now f db keep u k = omega (
    arith,
    count_where-eq_update (has_task_id k) p (λ t. let v = f t in record v { updated_at = now })
        db.tasks (λ r _. rw (keep r)),
    u k,
  )

  -- A write that takes no new slot.
  pub write-WithinCapacity :
      (p : Task → Bool) (now : ℕ) (f : Task → Task) (db : Db)
      → ((t : Task) → (f t).task_id ≡ t.task_id)
      → ((w : String) (t : Task)
          → p t ≡ true
          → computing_on w (f t) ≡ true
          → computing_on w t ≡ true)
      → WithinCapacity cfg db
      → WithinCapacity cfg (write_tasks p now f db)
  unfolding active_count
  write-WithinCapacity p now f db keep less v = record {
    unique = unique-write p now f db keep v.unique;
    slots = λ w. omega (
      arith,
      count_where-le_update (computing_on w) p (λ t. let u = f t in record u { updated_at = now })
          db.tasks (λ r h e. less w r h e),
      v.slots w,
    );
  }

  -- A write that gives one task to a worker with a free slot.
  pub assign-WithinCapacity :
      (task_id worker_id : String) (now : ℕ) (f : Task → Task) (db : Db)
      → ((t : Task) → (f t).task_id ≡ t.task_id)
      → ((t : Task) → (f t).worker_id ≡ some worker_id)
      → active_count db.tasks worker_id < cfg.target_per_worker
      → WithinCapacity cfg db
      → WithinCapacity cfg (write_tasks (has_task_id task_id) now f db)
  unfolding active_count computing_on
  assign-WithinCapacity task_id worker_id now f db keep holder free v = record {
    unique = unique-write (has_task_id task_id) now f db keep v.unique;
    slots = λ w. elim (Bool-cases (worker_id == w)) [
      | inl e ↦
          let same = (eq_iff worker_id w).0 e in
          omega (
            arith,
            count_where-le_update_add (computing_on w) (has_task_id task_id)
                (λ t. let u = f t in record u { updated_at = now }) db.tasks,
            v.unique task_id,
            rw same at free,
          )
      | inr e ↦ omega (
        arith,
        count_where-le_update (computing_on w) (has_task_id task_id)
            (λ t. let u = f t in record u { updated_at = now }) db.tasks
            (λ r h q.
              absurd (true≢false (sym q ∙ not-computing_on w worker_id (f r) (holder r) e))),
        v.slots w,
      )
    ];
  }
