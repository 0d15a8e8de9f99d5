-- ===== src/Workers/Admin.antt =====
-- The writes of the admin interface: drain, rotation request and manual recovery
-- (`WorkerRepository`, and the routes of src/mineru_gateway/gateway/api/admin.py that call them).
use mineru_gateway.Base.{
  ℕ, Bool, true, false, String, Option, none, some, ◌==◌, ◌&&◌, is_some, if◌then◌else◌,
}
use mineru_gateway.Config.{GatewaySettings}
use mineru_gateway.Cloud.{CloudState}
use mineru_gateway.Models.{Worker, Db}
use mineru_gateway.Workers.Queries.{get_row}
use mineru_gateway.Workers.Commits.{commit_fields, record_scaling_event}

module _ (cfg : GatewaySettings) where
  -- `_row_in_deployment`: the deployment and the provider, and not the time of termination.
  unfoldable pub row_in_deployment : Worker → Bool
  row_in_deployment row = row.deployment_id == cfg.deployment_id && row.provider == cfg.provider

  -- What the three commands share: 404 for a missing or foreign row, else the write, its event,
  -- and the row as it is read back.
  unfoldable pub admin_write :
      (action worker_id reason : String) (requester : Option String) (now : ℕ)
      → (Worker → Worker)
      → Db
      → Option Worker × Db
  unfolding row_in_deployment get_row commit_fields record_scaling_event
  admin_write action worker_id reason requester now f db = elim (get_row worker_id db) [
    | none ↦ (none, db)
    | some row ↦
        let written =
          record_scaling_event action reason (some worker_id) "admin" requester now
            (commit_fields worker_id now f db) in
        if row_in_deployment row then (get_row worker_id written, written) else (none, db)
  ]

  unfoldable pub set_drain_intent :
      (worker_id : String) (drain_target : CloudState) (reason : String)
      → (requester : Option String) (now : ℕ) → Db
      → Option Worker × Db
  unfolding admin_write
  set_drain_intent worker_id drain_target reason requester now =
      admin_write "drain" worker_id reason requester now
        (λ w. record w { draining = true; drain_target = some drain_target })

  unfoldable pub set_rotation_requested :
      (worker_id reason : String) (requester : Option String) (now : ℕ) → Db → Option Worker × Db
  unfolding admin_write
  set_rotation_requested worker_id reason requester now =
      admin_write "rotate" worker_id reason requester now
        (λ w. record w { rotation_requested = true })

  -- The row that `recover_worker` writes.
  unfoldable pub recovered_row : Worker → Worker
  recovered_row w =
      let reset = record w { failure_count = 0; retry_after = none } in
      if is_some w.stalled_at
      then record reset { stalled_at = none; draining = false; drain_target = none }
      else reset

  unfoldable pub recover_worker :
      (worker_id reason : String) (requester : Option String) (now : ℕ) → Db → Option Worker × Db
  unfolding admin_write recovered_row
  recover_worker worker_id reason requester now =
      admin_write "recover" worker_id reason requester now recovered_row

  -- `POST /admin/workers/{worker_id}/drain`: the body's `terminate` flag chooses the target.
  unfoldable pub drain_worker :
      (worker_id : String) (terminate : Bool) (reason : String)
      → (requester : Option String) (now : ℕ) → Db
      → Option Worker × Db
  unfolding set_drain_intent
  drain_worker worker_id terminate reason requester now =
      set_drain_intent worker_id (if terminate then CloudState.terminated else CloudState.stopped)
        reason requester now
