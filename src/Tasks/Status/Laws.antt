-- ===== src/Tasks/Status/Laws.antt =====
-- What an upstream answer can do to the status of a task.
use mineru_gateway.Base.{true, Option, none, some, String, ◌≡◌, ◌≢◌, ◌⊎◌, arith}
use mineru_gateway.Tasks.Status.{TaskStatus, normalize_upstream_status, is_drain_blocker}

-- An upstream answer never sends a task that is dispatching, processing or storing its result back
-- to the queue, and never makes one dispatching that was not.
pub normalize_upstream_status-ne-queued :
    (s : Option String) (current : TaskStatus)
    → is_drain_blocker current ≡ true
    → (normalize_upstream_status s current ≢ TaskStatus.queued)
      × ((normalize_upstream_status s current ≢ TaskStatus.dispatching)
          ⊎ (current ≡ TaskStatus.dispatching))
unfolding normalize_upstream_status
normalize_upstream_status-ne-queued none current h = ground arith
normalize_upstream_status-ne-queued (some s) current h = ground arith
