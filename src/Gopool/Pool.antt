-- ===== src/Gopool/Pool.antt =====
-- gopool/pool.go and gopool/worker.go: the state of a pool, and the pieces of `CtxGo` and of a worker
-- between which the scheduler may switch. A task is a number; the queue is the list from `taskHead`
-- by `next`. `taskCount` is `added - removed`, since it is below zero where a worker is faster than
-- the submitter. `taken` keeps the tasks that workers have taken, in order, and `panic_handler` says that
-- there is one.
use own_x_go.Base.{
  ℕ, ◌+◌, ◌-◌, ltb, leb, ◌==◌, if◌then◌else◌, List, [], ◌∷◌, ◌++◌, Option, none, some, Bool, false,
  true, ◌&&◌, ◌||◌,
}

pub record Pool : Type 0 where
  pub cap : ℕ
  pub scale_threshold : ℕ
  pub queue : List ℕ
  pub worker_count : ℕ
  pub added : ℕ
  pub removed : ℕ
  pub taken : List ℕ
  pub panic_handler : Bool

unfoldable pub new_pool : ℕ → ℕ → Pool
new_pool cap threshold = record {
  cap = cap;
  scale_threshold = threshold;
  queue = [];
  worker_count = 0;
  added = 0;
  removed = 0;
  taken = [];
  panic_handler = false;
}

-- The critical section of `CtxGo`.
unfoldable pub push : ℕ → Pool → Pool
push t p = record p { queue = p.queue ++ (t ∷ []) }

unfoldable pub add_task_count : Pool → Pool
add_task_count p = record p { added = p.added + 1 }

-- The condition of `CtxGo`.
unfoldable pub wants_worker : Pool → Bool
wants_worker p =
    (leb (p.removed + p.scale_threshold) p.added && ltb p.worker_count p.cap)
    || (p.worker_count == 0)

unfoldable pub incr_worker_count : Pool → Pool
incr_worker_count p = record p { worker_count = p.worker_count + 1 }

unfoldable pub dec_worker_count : Pool → Pool
dec_worker_count p = record p { worker_count = p.worker_count - 1 }

abbrev pub take_from : Pool → List ℕ → Pool × Option ℕ
take_from p [] = (dec_worker_count p, none)
take_from p (t ∷ ts) =
    (record p { queue = ts; removed = p.removed + 1; taken = p.taken ++ (t ∷ []) }, some t)

-- The critical section of a worker: the task that it takes, or none where it closes and stops.
unfoldable pub take_task : Pool → Pool × Option ℕ
take_task p = take_from p p.queue

-- `CtxGo` where nobody comes in between.
unfoldable pub ctx_go : ℕ → Pool → Pool
unfolding push add_task_count wants_worker incr_worker_count
ctx_go t p = let q = add_task_count (push t p) in if wants_worker q then incr_worker_count q else q

unfoldable pub set_cap : ℕ → Pool → Pool
set_cap cap p = record p { cap = cap }

unfoldable pub set_panic_handler : Pool → Pool
set_panic_handler p = record p { panic_handler = true }

-- `defaultPool`, with `defaultScaleThreshold`.
abbrev pub default_pool : Pool
default_pool = new_pool 1000 1
