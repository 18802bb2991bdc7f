-- ===== src/Gopool/Service.antt =====
-- The pool under any interleaving of callers of `CtxGo` and workers.
use own_x_go.Base.{
  ℕ, ◌+◌, ◌-◌, ◌<◌, ◌≡◌, ◌≢◌, refl, List, [], ◌∷◌, ◌++◌, length, arith, append_assoc, ap, ◌∙◌, sym,
  length-snoc, inl, ◌⊎◌, inr,
}
use own_x_go.Gopool.Pool.{
  Pool, new_pool, push, add_task_count, incr_worker_count, take_task, set_cap, dec_worker_count,
  take_from, set_panic_handler,
}

-- A pool with the callers inside `CtxGo`: those that have queued their task, those that have counted
-- it too, and those that have decided to start a worker.
pub record Pooled : Type 0 where
  pub pool : Pool
  pub queued : ℕ
  pub counted : ℕ
  pub decided : ℕ

-- What the goroutines can do to a pool, after the tasks `ts` have been submitted. The condition of
-- `CtxGo` reads the counters one after the other; it is false only if its last read finds a
-- worker, and that is all that a caller needs to leave.
pub data Reach : List ℕ → Pooled → Type 0 where
  starts :
      (cap threshold : ℕ)
      → Reach [] (record { pool = new_pool cap threshold; queued = 0; counted = 0; decided = 0 })
  pushes :
      {ts : List ℕ} {s : Pooled}
      → (t : ℕ) → Reach ts s
      → Reach (ts ++ (t ∷ [])) (record s { pool = push t s.pool; queued = s.queued + 1 })
  counts :
      {ts : List ℕ} {s : Pooled}
      → Reach ts s
      → 0 < s.queued
      → Reach ts (record s {
        pool = add_task_count s.pool;
        queued = s.queued - 1;
        counted = s.counted + 1;
      })
  leaves :
      {ts : List ℕ} {s : Pooled}
      → Reach ts s
      → 0 < s.counted
      → 0 < s.pool.worker_count
      → Reach ts (record s { counted = s.counted - 1 })
  decides :
      {ts : List ℕ} {s : Pooled}
      → Reach ts s
      → 0 < s.counted
      → Reach ts (record s { counted = s.counted - 1; decided = s.decided + 1 })
  hires :
      {ts : List ℕ} {s : Pooled}
      → Reach ts s
      → 0 < s.decided
      → Reach ts (record s { pool = incr_worker_count s.pool; decided = s.decided - 1 })
  takes :
      {ts : List ℕ} {s : Pooled}
      → Reach ts s
      → 0 < s.pool.worker_count
      → Reach ts (record s { pool = (take_task s.pool).0 })
  caps :
      {ts : List ℕ} {s : Pooled}
      → (cap : ℕ) → Reach ts s
      → Reach ts (record s { pool = set_cap cap s.pool })
  sets_handler :
      {ts : List ℕ} {s : Pooled}
      → Reach ts s
      → Reach ts (record s { pool = set_panic_handler s.pool })

-- The tasks are taken or wait, in the order of submission, and a task that waits has a worker or a
-- caller that is about to look for one; the counters agree with the queue.
pub record IsServed (ts : List ℕ) (s : Pooled) : Type 0 where
  pub order : s.pool.taken ++ s.pool.queue ≡ ts
  pub served :
      0 < length s.pool.queue → 0 < s.pool.worker_count + (s.queued + (s.counted + s.decided))
  pub balance : s.pool.added + s.queued ≡ s.pool.removed + length s.pool.queue

some_waiting : (l : List ℕ) → l ≢ [] → 0 < length l
some_waiting [] n = absurd (n refl)
some_waiting (t ∷ l) n = omega arith

List-cases : (l : List ℕ) → (l ≡ []) ⊎ ((t : ℕ) × (q : List ℕ) × (l ≡ t ∷ q))
List-cases [] = inl refl
List-cases (t ∷ q) = inr (t, q, refl)

take_task-empty : (p : Pool) → p.queue ≡ [] → (take_task p).0 ≡ dec_worker_count p
unfolding take_task
take_task-empty p e = ap (λ l. (take_from p l).0) e

take_task-next :
    (p : Pool) (t : ℕ) (q : List ℕ)
    → p.queue ≡ t ∷ q
    → (take_task p).0 ≡ record p { queue = q; removed = p.removed + 1; taken = p.taken ++ (t ∷ []) }
unfolding take_task
take_task-next p t q e = ap (λ l. (take_from p l).0) e

take-IsServed :
    (ts : List ℕ) (p : Pool) (a b c : ℕ)
    → IsServed ts (record { pool = p; queued = a; counted = b; decided = c })
    → 0 < p.worker_count
    → IsServed ts (record { pool = (take_task p).0; queued = a; counted = b; decided = c })
unfolding dec_worker_count
take-IsServed ts p a b c v w = elim (List-cases p.queue) [
  | inl e ↦ rw (take_task-empty p e) (record {
    order = v.order;
    served = λ h. absurd (omega (arith, h, ap length e));
    balance = v.balance;
  })
  | inr (t, q, e) ↦ rw (take_task-next p t q e) (record {
    order = append_assoc p.taken (t ∷ []) q ∙ ap (◌++◌ p.taken) (sym e) ∙ v.order;
    served = λ h. omega (arith, w);
    balance = omega (arith, v.balance, ap length e);
  })
]

Reach-IsServed : {ts : List ℕ} {s : Pooled} → Reach ts s → IsServed ts s
unfolding new_pool push add_task_count incr_worker_count set_cap set_panic_handler
Reach-IsServed (starts cap threshold) = record {
  order = refl;
  served = λ h. absurd (omega (arith, h));
  balance = refl;
}
Reach-IsServed (pushes {ts} {s} t r) =
    let v = Reach-IsServed r in
    record {
      order =
          sym (append_assoc s.pool.taken s.pool.queue (t ∷ [])) ∙ ap (λ l. l ++ (t ∷ [])) v.order;
      served = λ h. omega arith;
      balance = omega (arith, v.balance, length-snoc s.pool.queue t);
    }
Reach-IsServed (counts {ts} {s} r q) =
    let v = Reach-IsServed r in
    record {
      order = v.order;
      served = λ h. omega (arith, v.served h, q);
      balance = omega (arith, v.balance, q);
    }
Reach-IsServed (leaves {ts} {s} r q w) =
    let v = Reach-IsServed r in
    record { order = v.order; served = λ h. omega (arith, w); balance = v.balance }
Reach-IsServed (decides {ts} {s} r q) =
    let v = Reach-IsServed r in
    record { order = v.order; served = λ h. omega (arith, v.served h, q); balance = v.balance }
Reach-IsServed (hires {ts} {s} r q) =
    let v = Reach-IsServed r in
    record { order = v.order; served = λ h. omega arith; balance = v.balance }
Reach-IsServed (takes {ts} {s} r w) =
    take-IsServed ts s.pool s.queued s.counted s.decided (Reach-IsServed r) w
Reach-IsServed (caps {ts} {s} cap r) =
    let v = Reach-IsServed r in record { order = v.order; served = v.served; balance = v.balance }
Reach-IsServed (sets_handler {ts} {s} r) =
    let v = Reach-IsServed r in record { order = v.order; served = v.served; balance = v.balance }

-- Under any interleaving of callers and workers the tasks are taken in the order of submission, each
-- once; and when no caller is inside `CtxGo`, a task that waits has a worker that has not stopped,
-- and `taskCount` is the length of the queue.
pub Reach-served :
    (ts : List ℕ) (p : Pool)
    → Reach ts (record { pool = p; queued = 0; counted = 0; decided = 0 })
    → (p.taken ++ p.queue ≡ ts)
      × (p.queue ≢ [] → 0 < p.worker_count)
      × (p.added ≡ p.removed + length p.queue)
Reach-served ts p r =
    let v = Reach-IsServed r in
    (v.order, λ n. omega (arith, v.served (some_waiting p.queue n)), omega (arith, v.balance))
