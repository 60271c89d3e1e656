-- ===== src/Tests.antt =====
-- Runs of the model on small inputs.
mod Data
mod TaskRuns
mod DocumentRuns
mod OutboxRuns
mod TextRuns
mod QueryRuns
mod RetrieveRuns
mod SnowflakeRuns
mod AdminData
mod SessionRuns
mod PermissionRuns
mod EvaluationRuns
