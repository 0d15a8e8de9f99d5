-- ===== src/Queue.antt =====
-- src/mineru_gateway/scheduler/task_repository.py: the durable task queue.
-- `Rows` holds the writes to one task, `Claim` the choice of a worker, `Submit` the dispatch of a
-- claimed task, and `Sync` the refresh from the workers; the other modules prove what these keep.
pub mod Rows
pub mod Claim
pub mod Submit
pub mod Sync
pub mod Causes
pub mod Settles
pub mod Capacity
pub mod Slots
pub mod Picks
pub mod Dispatch
pub mod Lifecycle
pub mod Reachable
