-- ===== src/Scheduler.antt =====
-- internal/scheduler: the goroutine that owns every transition of a delivery.
pub mod Config
pub mod Backoff
pub mod Ndjson
pub mod Headers
pub mod State
pub mod Vet
pub mod Dispatch
pub mod Apply
pub mod Verdict
pub mod Balance
pub mod Closure
pub mod Recording
pub mod Lowering
pub mod Finishing
pub mod Capacity
pub mod Drain
pub mod Reaping
pub mod Wakeup
pub mod Unloaded
