-- ===== src/Executor.antt =====
-- internal/executor: the capture of a task's output, and how an execution is classified.
pub mod Buffers
pub mod Outcome
