-- ===== src/Scheduler.antt =====
-- scheduler/src/orxtra/scheduler: the dependency graph of a workflow, the validator of its tasks,
-- the file locks of workflows, budgets and the lifecycle handlers.
pub mod Graph
pub mod Locks
pub mod Groups
pub mod Validator
pub mod Budget
pub mod Lifecycle
