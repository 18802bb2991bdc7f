-- ===== src/Gopool/Worker.antt =====
-- gopool/worker.go, the loop of `run`, where no other goroutine comes in between. What a task does when
-- it runs is an argument.
use own_x_go.Base.{
  ℕ, zero, suc, ◌+◌, ◌-◌, ◌≡◌, ◌≢◌, ◌<◌, refl, List, [], ◌∷◌, ◌++◌, map, Option, none, some, Bool,
  if◌then◌else◌, length, append_assoc, append-nil, sym, arith,
}
use mathlib.Core.Path.{ap₂}
use own_x_go.Gopool.Pool.{Pool, take_task, dec_worker_count}
use own_x_go.Gopool.Service.{Reach, Reach-served}

pub data Outcome : Type 0 where
  returns : Outcome
  panics : (reason : ℕ) → Outcome

-- What has become of a task that a worker has run.
pub data Ran : Type 0 where
  returned : (task : ℕ) → Ran
  handled : (task reason : ℕ) → Ran
  printed : (task reason : ℕ) → Ran

-- The inner function of `run`, which recovers.
unfoldable pub run_task : Bool → ℕ → Outcome → Ran
run_task handler t returns = returned t
run_task handler t (panics r) = if handler then handled t r else printed t r

module _ (outcome : ℕ → Outcome) where
  abbrev pub next_round : Pool → Option ℕ → Option (Pool × List Ran) → Option (Pool × List Ran)
  next_round p none rest = some (p, [])
  next_round p (some t) none = none
  next_round p (some t) (some (q, l)) = some (q, run_task p.panic_handler t (outcome t) ∷ l)

  -- The loop, with the pool that the worker leaves and what it has run; none is out of fuel.
  unfoldable pub work : (fuel : ℕ) → Pool → Option (Pool × List Ran)
  work zero p = none
  work (suc fuel) p =
      let rest = work fuel (take_task p).0 in next_round (take_task p).0 (take_task p).1 rest

  ran : Pool → List ℕ → List Ran
  ran p ts = map (λ t. run_task p.panic_handler t (outcome t)) ts

  ends : Pool → ℕ → List ℕ → Pool
  ends p removed taken = record p {
    queue = [];
    worker_count = p.worker_count - 1;
    removed = removed;
    taken = taken;
  }

  work-queue :
      (p : Pool) (q : List ℕ)
      → work (suc (length q)) (record p { queue = q })
        ≡ some (ends p (p.removed + length q) (p.taken ++ q), ran p q)
  unfolding work take_task dec_worker_count ran ends
  work-queue p [] = ap₂ (λ n l. some (ends p n l, [])) (ground arith) (sym (append-nil p.taken))
  work-queue p (t ∷ q) =
      rw (work-queue (record p { removed = p.removed + 1; taken = p.taken ++ (t ∷ []) }) q) (
        ap₂ (λ n l. some (ends p n l, ran p (t ∷ q))) (ground arith)
          (append_assoc p.taken (t ∷ []) q))

  -- Whatever the goroutines have done: once the callers of `CtxGo` are through, and a task waits, there is
  -- a worker; and if it runs alone, then it ends, has run the tasks that waited, each once and in
  -- order, whether tasks before panicked or not, and all that was ever submitted has been taken.
  pub work-drains :
      (ts : List ℕ) (p : Pool)
      → Reach ts (record { pool = p; queued = 0; counted = 0; decided = 0 })
      → p.queue ≢ []
      → (0 < p.worker_count)
        × ((q : Pool) × (work (suc (length p.queue)) p
              ≡ some (q, map (λ t. run_task p.panic_handler t (outcome t)) p.queue))
            × (q.queue ≡ [])
            × (q.taken ≡ ts)
            × (q.added ≡ q.removed)
            × (q.worker_count + 1 ≡ p.worker_count))
  unfolding ran ends
  work-drains ts p r waits =
      let (order, served, balance) = Reach-served ts p r in
      let hired = served waits in
      (
        hired,
        (
          ends p (p.removed + length p.queue) (p.taken ++ p.queue),
          work-queue p p.queue,
          refl,
          order,
          balance,
          omega (arith, hired),
        ),
      )
