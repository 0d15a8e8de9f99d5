-- ===== src/Tasks.antt =====
-- src/mineru_gateway/tasks/: task statuses, error classes and object keys.
pub mod Status
pub mod Errors
pub mod Storage
pub mod Keys
