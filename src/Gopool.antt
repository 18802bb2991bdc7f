-- ===== src/Gopool.antt =====
-- gopool/: a pool of goroutines that take tasks from one queue.
pub mod Pool
pub mod Service
pub mod Worker
mod Tests
