-- ===== src/Scheduler/Fleet.antt =====
-- The number of workers of the deployment, and of active replacements, under the scheduler's steps.
use mineru_gateway.Base.{
  ℕ, suc, ◌+◌, ◌≤◌, ◌<◌, ◌≡◌, ◌⊎◌, inl, inr, Bool, true, false, String, List, [], ◌∷◌, ◌++◌, Option,
  none, some, ◌&&◌, ltb, eqb, arith, Bool-cases, Option-cases, if◌then◌else◌,
}
use mineru_gateway.Base.Table.{count_where}
use mineru_gateway.Base.Table.Laws.{
  count_where-le_update, count_where-append, count_where-le-length,
}
use mineru_gateway.Config.{GatewaySettings}
use mineru_gateway.Cloud.{CloudState}
use mineru_gateway.Models.{Worker, Db, has_id}
use mineru_gateway.Scaling.{should_scale_up, should_scale_down}
use mineru_gateway.Workers.Clauses.{deployment_clause}
use mineru_gateway.Workers.Queries.{
  count_workers, count_stalled_workers, count_serviceable_workers, find_stopped_worker,
}
use mineru_gateway.Workers.Commits.{
  commit_fields, create_cloud_worker, record_scaling_event, new_worker,
}
use mineru_gateway.Scheduler.Autoscale.{
  apply_autoscaling, scale_up, create_if_room, after_scale_up, drain_idle, restarted_row,
  scaling_signal,
}

-- A write to rows that takes no row into a condition does not raise its count.
pub count-commit_fields :
    (c : Worker → Bool) (k : String) (now : ℕ) (f : Worker → Worker) (db : Db)
    → ((w : Worker) → c (let v = f w in record v { updated_at = now }) ≡ true → c w ≡ true)
    → count_where c (commit_fields k now f db).workers ≤ count_where c db.workers
unfolding commit_fields
count-commit_fields c k now f db keep =
    count_where-le_update c (has_id k) (λ w. let v = f w in record v { updated_at = now })
      db.workers (λ r _ h. keep r h)

pub count-append_one :
    (c : Worker → Bool) (w : Worker) (workers : List Worker)
    → count_where c (workers ++ w ∷ []) ≤ suc (count_where c workers)
count-append_one c w workers =
    omega (arith, count_where-append c workers (w ∷ []), count_where-le-length c (w ∷ []))

module _ (cfg : GatewaySettings) (new_worker_id : String) (now : ℕ) where
  -- A step of the autoscaler adds at most one worker. It adds one below the maximum, or, where some
  -- worker is stalled and none is serviceable, one at the maximum.
  pub record Growth (before after : Db) : Type 0 where
    pub by_one : count_workers cfg after ≤ suc (count_workers cfg before)
    pub grown :
        (count_workers cfg after ≤ count_workers cfg before)
        ⊎ (count_workers cfg before < cfg.max_workers)
        ⊎ ((count_workers cfg before ≤ cfg.max_workers)
            × (0 < count_stalled_workers cfg before)
            × (count_serviceable_workers cfg before ≡ 0))

  no-Growth :
      (before after : Db) → count_workers cfg after ≤ count_workers cfg before → Growth before after
  no-Growth before after h = record { by_one = omega arith; grown = inl h }

  count_workers-commit_fields :
      (k : String) (f : Worker → Worker) (db : Db)
      → ((w : Worker)
          → deployment_clause cfg (let v = f w in record v { updated_at = now }) ≡ true
          → deployment_clause cfg w ≡ true)
      → count_workers cfg (commit_fields k now f db) ≤ count_workers cfg db
  unfolding count_workers
  count_workers-commit_fields k f db keep =
      count-commit_fields (deployment_clause cfg) k now f db keep

  create_cloud_worker-Growth :
      (db : Db)
      → (count_workers cfg db < cfg.max_workers)
        ⊎ ((count_workers cfg db ≤ cfg.max_workers)
            × (0 < count_stalled_workers cfg db)
            × (count_serviceable_workers cfg db ≡ 0))
      → Growth db (create_cloud_worker cfg new_worker_id now db)
  unfolding count_workers create_cloud_worker
  create_cloud_worker-Growth db why = record {
    by_one = count-append_one (deployment_clause cfg) (new_worker cfg new_worker_id now) db.workers;
    grown = inr why;
  }

  create_if_room-Growth : (db : Db) → Growth db (create_if_room cfg new_worker_id now db).1
  unfolding create_if_room
  create_if_room-Growth db = elim (Bool-cases (ltb (count_workers cfg db) cfg.max_workers)) [
    | inl e ↦ rw e (create_cloud_worker-Growth db (inl (ground arith)))
    | inr e ↦
        rw e
          (elim (Bool-cases (
            ltb 0 (count_stalled_workers cfg db)
            && eqb (count_serviceable_workers cfg db) 0
            && ltb (count_workers cfg db) (cfg.max_workers + 1))) [
              | inl f ↦
                  rw f
                    (create_cloud_worker-Growth db (inr (ground arith, ground arith, ground arith)))
              | inr f ↦ rw f (no-Growth db db (omega arith))
            ])
  ]

  scale_up-Growth : (db : Db) → Growth db (scale_up cfg new_worker_id now db).1
  unfolding scale_up restarted_row deployment_clause
  scale_up-Growth db = elim (Option-cases (find_stopped_worker cfg db)) [
    | inl e ↦ rw (e, scale_up) (create_if_room-Growth db)
    | inr (w, e) ↦
        rw (e, scale_up)
          (no-Growth db (commit_fields w.id now (restarted_row now) db)
            (count_workers-commit_fields w.id (restarted_row now) db (λ v h. h)))
  ]

  drain_idle-Growth : (db : Db) (idle : Option Worker) → Growth db (drain_idle cfg now idle db)
  unfolding drain_idle record_scaling_event deployment_clause count_workers
  drain_idle-Growth db none = no-Growth db db (omega arith)
  drain_idle-Growth db (some w) = no-Growth db (drain_idle cfg now (some w) db) (
      count_workers-commit_fields w.id
        (λ v. record v { draining = true; drain_target = some CloudState.stopped }) db (λ v h. h))

  after_scale_up-Growth :
      (last_scale_up : Option ℕ) (db : Db) (result : Bool × Db)
      → Growth db result.1
      → Growth db (after_scale_up cfg last_scale_up now result).1
  unfolding record_scaling_event count_workers
  after_scale_up-Growth last_scale_up db (true, after) g = record {
    by_one = g.by_one;
    grown = g.grown;
  }
  after_scale_up-Growth last_scale_up db (false, after) g = g

  if-Growth :
      (b : Bool) (db : Db) (x y : Option ℕ × Db)
      → Growth db x.1
      → Growth db y.1
      → Growth db (if b then x else y).1
  if-Growth true db x y g h = g
  if-Growth false db x y g h = h

  -- One step of the autoscaler adds at most one worker to the deployment. It adds one only below
  -- the configured maximum, or at the maximum where some worker is stalled and none is serviceable.
  pub apply_autoscaling-Growth :
      (last_scale_up : Option ℕ) (db : Db)
      → Growth db (apply_autoscaling cfg new_worker_id now last_scale_up db).1
  unfolding apply_autoscaling
  apply_autoscaling-Growth last_scale_up db =
      let signal = scaling_signal cfg db in
      let same = no-Growth db db (omega arith) in
      if-Growth (should_scale_up signal) db _ _
        (if-Growth _ db _ _ same (
          after_scale_up-Growth last_scale_up db (scale_up cfg new_worker_id now db)
            (scale_up-Growth db)))
        (if-Growth (should_scale_down signal) db _ _ (drain_idle-Growth db _) same)
