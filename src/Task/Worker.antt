-- ===== src/Task/Worker.antt =====
-- task/worker.go and task/task.go: a worker that hands tasks to its goroutines through one channel
-- per bucket. A bucket holds the tasks that `Put` has sent to it, in order; `running` counts the
-- goroutines. An id is a timestamp and not negative.
pub mod Runs
use own_x_go.Base.{
  ℕ, zero, suc, ◌+◌, ◌*◌, ◌%◌, ltb, if◌then◌else◌, List, [], ◌∷◌, ◌++◌, Option, none, some, Bool,
  true, false, ◌&&◌, length, get_elem?, set, replicate, ◌-◌,
}

-- `F` is a number, and `Data` is of any type.
pub record Task (D : Type 0) : Type 0 where
  pub id : ℕ
  pub f : ℕ
  pub payload : D
  pub need_retry : Bool
  pub retry_times : ℕ
  pub retry_limit : ℕ

pub record Worker (D : Type 0) : Type 0 where
  pub buckets : List (List (Task D))
  pub parallelism : ℕ
  pub running : ℕ

module _ {D : Type 0} where
  unfoldable pub new_worker : ℕ → Worker D
  new_worker parallelism =
      let p = if ltb parallelism 1 then 1024 else parallelism in
      record { buckets = replicate p []; parallelism = p; running = 0 }

  -- `Start`: two goroutines for each bucket.
  unfoldable pub start_worker : Worker D → Worker D
  start_worker w = record w { running = w.running + 2 * length w.buckets }

  -- A goroutine on a task that has failed or not: the task that it puts back.
  unfoldable pub exec_task : Bool → Task D → Option (Task D)
  exec_task failed t =
      if failed && (t.need_retry && ltb t.retry_times t.retry_limit)
      then some (record t { retry_times = t.retry_times + 1 })
      else none

  -- The runs of a task until it is not put back any more, where `fails k` says whether the run `k`
  -- fails: how many runs there are, or none without enough fuel.
  unfoldable pub exec_runs : ℕ → (ℕ → Bool) → ℕ → Task D → Option ℕ
  exec_runs zero fails k t = none
  exec_runs (suc n) fails k t = elim (exec_task (fails k) t) [
    | none ↦ some (suc k)
    | some u ↦ exec_runs n fails (suc k) u
  ]

  abbrev pub put_at : ℕ → Task D → Worker D → Option (List (Task D)) → Option (Worker D)
  put_at i t w none = none
  put_at i t w (some b) = some (record w { buckets = set w.buckets i (b ++ (t ∷ [])) })

  -- One task of `Put`: none is the fault of an index out of range.
  unfoldable pub put_one : Task D → Worker D → Option (Worker D)
  put_one t w = let i = t.id % length w.buckets in put_at i t w (get_elem? w.buckets i)

  unfoldable pub put : List (Task D) → Worker D → Option (Worker D)
  put [] w = some w
  put (t ∷ ts) w = elim (put_one t w) [ none ↦ none | some u ↦ put ts u ]

  -- `Done`, `n` sends of it: a goroutine takes each and returns; none is a send that nobody takes.
  unfoldable pub send_done : ℕ → Worker D → Option (Worker D)
  send_done zero w = some w
  send_done (suc n) w =
      let rest = send_done n (record w { running = w.running - 1 }) in
      if ltb 0 w.running then rest else none

  unfoldable pub done : Worker D → Option (Worker D)
  done w = send_done w.parallelism w
