-- ===== src/TimingWheel/Adding.antt =====
-- `AddOnce` on a whole wheel, and the round in which the wheel runs the task.
use own_x_go.Base.{
  ℕ, ◌-◌, ◌<◌, ◌≡◌, ◌==◌, if◌then◌else◌, [], ◌∷◌, ◌++◌, arith, length, set, get_elem?, length-set,
  ◌∙◌, Option-cases, inl, if_both, le_of_get_elem?, inr, if_each, subst, Bool-cases, sym,
}
use own_x_go.TimingWheel.Chain.{nil_pointer}
use own_x_go.TimingWheel.Wheel.{Wheel, place, add_once, bucket, added, fault, add_at}
use own_x_go.TimingWheel.Insert.{
  Rising, From, insert_tier, starts_above, insert_tier-Rising, add_to-insert_tier, insert_tier-From,
  tasks_at-insert_tier,
}
use own_x_go.TimingWheel.Schedule.{IsOnTime, place-position, bucket-set, next_tier}
use own_x_go.TimingWheel.Punctual.{rounds, runs, held, rounds-punctual}

module _ {T : Type 0} where
  -- The wheel with the task in the chain of its bucket.
  abbrev pub with_task : Wheel T → T → ℕ → Wheel T
  with_task w x ts =
      let (t, i) = place w.current ts in
      record w { buckets = set w.buckets i (insert_tier t x (bucket i w)) }

  add_at-insert_tier :
      (w : Wheel T) (t i : ℕ) (x : T)
      → i < length w.buckets
      → add_at w t i x (get_elem? w.buckets i) ≡ (
          if starts_above t (bucket i w)
          then fault nil_pointer
          else added (record w { buckets = set w.buckets i (insert_tier t x (bucket i w)) }))
  add_at-insert_tier w t i x h = elim (Option-cases (get_elem? w.buckets i)) [
    | inl e ↦ absurd (omega (arith, le_of_get_elem? w.buckets i e))
    | inr (c, e) ↦ rw e (ground (arith, add_to-insert_tier t x c))
  ]

  -- On a wheel that is on time `AddOnce` either faults on a nil pointer, exactly if the chain of the
  -- bucket starts with a later tier than that of the task, or inserts the task into that chain, and
  -- nothing else changes.
  pub add_once-with_task :
      (w : Wheel T) (x : T) (ts : ℕ)
      → IsOnTime w
      → add_once w x ts ≡ (
          if starts_above (place w.current ts).0 (bucket (place w.current ts).1 w)
          then fault nil_pointer
          else added (with_task w x ts))
  unfolding add_once
  add_once-with_task w x ts v =
      add_at-insert_tier w (place w.current ts).0 (place w.current ts).1 x
        (omega (arith, v.size, (place-position w.current ts v.index).1))

  -- Adding a task keeps the wheel on time.
  pub with_task-IsOnTime : (w : Wheel T) (x : T) (ts : ℕ) → IsOnTime w → IsOnTime (with_task w x ts)
  with_task-IsOnTime w x ts v =
      let t = (place w.current ts).0 in
      let j = (place w.current ts).1 in
      let (at, small) = place-position w.current ts v.index in
      let h : j < length w.buckets = omega (arith, v.size, small) in
      record {
        size = length-set w.buckets j (insert_tier t x (bucket j w)) ∙ v.size;
        index = v.index;
        rising = λ i. rw (bucket-set w j i (insert_tier t x (bucket j w)) h) (
            if_both Rising (j == i) (insert_tier-Rising t x (bucket j w) (v.rising j))
              (v.rising i));
        ahead = λ i k. rw (bucket-set w j i (insert_tier t x (bucket j w)) h) (
            if_each (From (next_tier w.current i)) (j == i)
              (λ e.
                let p : j ≡ i = ground arith in
                insert_tier-From (next_tier w.current i) t x (bucket j w) (ground arith)
                  (subst (λ l. From (next_tier w.current i) (bucket l w)) (sym p) (v.ahead i k)))
              (λ e. v.ahead i k));
      }

  pub added_is :
      (w u : Wheel T) (x : T) (ts : ℕ)
      → IsOnTime w
      → add_once w x ts ≡ added u
      → with_task w x ts ≡ u
  added_is w u x ts v e =
      elim (Bool-cases (starts_above (place w.current ts).0 (bucket (place w.current ts).1 w))) [
        | inl h ↦ absurd (cc (add_once-with_task w x ts v, h))
        | inr h ↦ cc (add_once-with_task w x ts v, h)
      ]

  held-with_task :
      (w : Wheel T) (x : T) (ts : ℕ)
      → IsOnTime w
      → held (place w.current ts).0 (place w.current ts).1 (with_task w x ts)
        ≡ held (place w.current ts).0 (place w.current ts).1 w ++ (x ∷ [])
  unfolding held
  held-with_task w x ts v =
      let t = (place w.current ts).0 in
      let j = (place w.current ts).1 in
      let c = bucket j w in
      ground (
        arith,
        (place-position w.current ts v.index).1,
        v.size,
        bucket-set w j j (insert_tier t x c),
        tasks_at-insert_tier t t x c (v.rising j),
      )

  -- A task that `AddOnce` adds to a wheel that is on time, without a fault and at a place that is not
  -- in the last bucket, runs in the round that comes as many rounds after
  -- the present one as its time lies after the clock, behind the tasks of the same place, and with
  -- no others.
  pub add_once-punctual :
      (w u : Wheel T) (x : T) (ts : ℕ)
      → IsOnTime w
      → (place w.current ts).1 < 31
      → add_once w x ts ≡ added u
      → runs (rounds (ts - w.current.timestamp) u)
        ≡ held (place w.current ts).0 (place w.current ts).1 w ++ (x ∷ [])
  add_once-punctual w u x ts v h e =
      let t = (place w.current ts).0 in
      let j = (place w.current ts).1 in
      let n = ts - w.current.timestamp in
      subst (λ z. runs (rounds n z) ≡ held t j w ++ (x ∷ [])) (added_is w u x ts v e)
        (rounds-punctual n (with_task w x ts) t j (with_task-IsOnTime w x ts v) h
            (omega (arith, (place-position w.current ts v.index).0))
          ∙ held-with_task w x ts v)
