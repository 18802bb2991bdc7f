-- ===== src/Gopool/Tests.antt =====
-- A pool with one worker, which takes the first of two tasks and then works alone.
use own_x_go.Base.{
  ◌<◌, ◌≡◌, ◌≢◌, [], ◌∷◌, ◌++◌, arith, ◌+◌, length, ℕ, suc, false, if◌then◌else◌, some, map, ◌==◌,
}
use own_x_go.Gopool.Pool.{Pool, new_pool, push, add_task_count, incr_worker_count, take_task}
use own_x_go.Gopool.Service.{
  Reach, starts, pushes, counts, leaves, decides, hires, takes, Reach-served,
}
use own_x_go.Gopool.Worker.{work, run_task, panics, work-drains, returns, Outcome}

abbrev busy : Pool
busy = record {
  cap = 4;
  scale_threshold = 1;
  queue = 8 ∷ [];
  worker_count = 1;
  added = 2;
  removed = 1;
  taken = 7 ∷ [];
  panic_handler = false;
}

-- The second caller leaves, having seen the worker of the first.
busy-Reach : Reach (7 ∷ 8 ∷ []) (record { pool = busy; queued = 0; counted = 0; decided = 0 })
unfolding new_pool push add_task_count incr_worker_count take_task
busy-Reach =
    takes
      (leaves
        (counts
          (pushes 8 (
            hires (decides (counts (pushes 7 (starts 4 1)) (omega arith)) (omega arith))
              (omega arith)))
          (omega arith))
        (omega arith) (omega arith))
      (omega arith)

Reach-served_example :
    (busy.taken ++ busy.queue ≡ 7 ∷ 8 ∷ [])
    × (busy.queue ≢ [] → 0 < busy.worker_count)
    × (2 ≡ 1 + length busy.queue)
Reach-served_example = Reach-served (7 ∷ 8 ∷ []) busy busy-Reach

-- The task 8 panics.
abbrev outcome : ℕ → Outcome
outcome t = if t == 8 then panics 3 else returns

work-drains_example :
    (0 < busy.worker_count)
    × ((q : Pool) × (work outcome (suc (length busy.queue)) busy
          ≡ some (q, map (λ t. run_task busy.panic_handler t (outcome t)) busy.queue))
        × (q.queue ≡ [])
        × (q.taken ≡ 7 ∷ 8 ∷ [])
        × (q.added ≡ q.removed)
        × (q.worker_count + 1 ≡ busy.worker_count))
work-drains_example = work-drains outcome (7 ∷ 8 ∷ []) busy busy-Reach (λ e. cc e)
