-- ===== src/Views.antt =====
-- The pure reads of internal/supervisor/projection.go: the views of an activity, of an attempt and of
-- an execution.
pub mod Activities
pub mod Attempts
pub mod Executions
