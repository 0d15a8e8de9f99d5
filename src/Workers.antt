-- ===== src/Workers.antt =====
-- src/mineru_gateway/scheduler/worker_repository.py: the persistence of workers.
-- `Clauses` holds the WHERE clauses, `Queries` the reads, `Commits` the writes and `Admin` the
-- writes of the admin interface; the other modules prove what these keep.
pub mod Clauses
pub mod Queries
pub mod Commits
pub mod Admin
pub mod Choice
pub mod Failures
