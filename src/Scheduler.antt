-- ===== src/Scheduler.antt =====
-- src/mineru_gateway/scheduler/scheduler.py: the control of the fleet of workers.
-- `Autoscale` grows and shrinks it, `Drains` ends drained and stalled workers, `Rotations` replaces
-- old ones, `Reconcile` aligns the cloud with the rows, `Health` and `Cleanup` do what their names
-- say, and `Ticks` composes them under the `Lock`; `Fleet`, `Bound` and `Busy` prove what these keep.
pub mod Provider
pub mod Reconcile
pub mod Autoscale
pub mod Drains
pub mod Rotations
pub mod Fleet
pub mod Bound
pub mod Busy
pub mod Cleanup
pub mod Lock
pub mod Health
pub mod Ticks
