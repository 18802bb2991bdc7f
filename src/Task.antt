-- ===== src/Task.antt =====
-- task/ and task/node/: the scheduler of rounds, the worker that runs tasks, and the allocator that
-- divides a round among the nodes.
pub mod Scheduler
pub mod Worker
pub mod Allocator
pub mod Executor
mod Tests
