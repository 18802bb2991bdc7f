-- ===== src/TimingWheel.antt =====
-- timing_wheel/timing_wheel.go: the clock hand, the buckets with their chains of tiers, `AddOnce`,
-- and one round of the loop that `Init` starts. Times are numbers, and no int64 overflows: the
-- clock would have to reach 2 ^ 63 seconds.
pub mod Chain
pub mod Wheel
pub mod Insert
pub mod Schedule
pub mod Punctual
pub mod Adding
pub mod Stuck
pub mod Histories
mod Tests
