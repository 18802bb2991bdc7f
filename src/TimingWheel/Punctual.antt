-- ===== src/TimingWheel/Punctual.antt =====
-- In which round the wheel runs a task.
use own_x_go.Base.{
  ℕ, zero, suc, ◌+◌, ◌*◌, ◌≤◌, ◌<◌, ◌≡◌, ◌≢◌, refl, ap, ◌==◌, List, [], ◌∷◌, arith, ◌∙◌, subst, sym,
  if_each,
}
use own_x_go.TimingWheel.Chain.{Chain}
use own_x_go.TimingWheel.Wheel.{Wheel, incr, tick, due, left, bucket}
use own_x_go.TimingWheel.Insert.{Rising, From, tasks_at, none_above, above_mono}
use own_x_go.TimingWheel.Schedule.{
  IsOnTime, position, incr-position, tick-IsOnTime, tick-current, bucket-tick, incr-tier,
}

module _ {T : Type 0} where
  -- `n` rounds of the loop of `Init`, whose variable `i` goes with the index of the hand.
  unfoldable pub rounds : ℕ → Wheel T → Wheel T
  rounds zero w = w
  rounds (suc n) w = rounds n (tick w.current.index w).0

  -- What the next round runs.
  unfoldable pub runs : Wheel T → List T
  runs w = (tick w.current.index w).1

  -- The tasks that the wheel holds for a tier of a bucket.
  unfoldable pub held : ℕ → ℕ → Wheel T → List T
  held t i w = tasks_at t (bucket i w)

  rounds-IsOnTime : (n : ℕ) (w : Wheel T) → IsOnTime w → IsOnTime (rounds n w)
  unfolding rounds
  rounds-IsOnTime zero w v = v
  rounds-IsOnTime (suc n) w v = rounds-IsOnTime n (tick w.current.index w).0 (tick-IsOnTime w v)

  tasks_at-left : (t u : ℕ) (c : Chain T) → t ≢ u → tasks_at t (left u c) ≡ tasks_at t c
  unfolding tasks_at
  tasks_at-left t u [] h = refl
  tasks_at-left t u (n ∷ c) h = ground arith

  due-tasks_at : (t : ℕ) (c : Chain T) → Rising c → From t c → due t c ≡ tasks_at t c
  unfolding tasks_at
  due-tasks_at t [] r f = refl
  due-tasks_at t (n ∷ c) r f = ground (arith, none_above t c, above_mono t n.tier c)

  -- A round that is not the one of tier `t` and bucket `i` leaves their tasks.
  held-tick :
      (w : Wheel T) (t i : ℕ)
      → IsOnTime w
      → i < 31
      → position w.current < 32 * t + i
      → held t i (tick w.current.index w).0 ≡ held t i w
  unfolding held
  held-tick w t i v h before =
      let j = w.current.index in
      rw (bucket-tick w j i (omega (arith, v.size, v.index))) (
        if_each (λ c. tasks_at t c ≡ tasks_at t (bucket i w)) (j == i)
          (λ e.
            let p : j ≡ i = ground arith in
            tasks_at-left t (incr w.current).tier (bucket j w)
              (λ q. omega (arith, (incr-tier w.current (omega arith)).0))
            ∙ ap (λ k. tasks_at t (bucket k w)) p)
          (λ e. refl))

  position-rounds :
      (n : ℕ) (w : Wheel T) → IsOnTime w → position (rounds n w).current ≡ position w.current + n
  unfolding rounds
  position-rounds zero w v = omega arith
  position-rounds (suc n) w v = omega (
    arith,
    position-rounds n (tick w.current.index w).0 (tick-IsOnTime w v),
    incr-position w.current v.index,
    ap position (tick-current w w.current.index),
  )

  held-rounds :
      (n : ℕ) (w : Wheel T) (t i : ℕ)
      → IsOnTime w
      → i < 31
      → position w.current + n ≤ 32 * t + i
      → held t i (rounds n w) ≡ held t i w
  unfolding rounds
  held-rounds zero w t i v h le = refl
  held-rounds (suc n) w t i v h le =
      let d = (tick w.current.index w).0 in
      held-rounds n d t i (tick-IsOnTime w v) h (
        omega
          (arith, incr-position w.current v.index, ap position (tick-current w w.current.index)))
      ∙ held-tick w t i v h (omega arith)

  runs-held :
      (w : Wheel T) (t i : ℕ)
      → IsOnTime w
      → i < 31
      → position w.current ≡ 32 * t + i
      → runs w ≡ held t i w
  unfolding runs held tick
  runs-held w t i v h here =
      let p : w.current.index ≡ i = omega (arith, v.index) in
      let (same, _, now) = incr-tier w.current (omega (arith, v.index)) in
      let q : (incr w.current).tier ≡ t = omega (arith, v.index) in
      let f : From t (bucket i w) =
        subst (λ b. From b (bucket i w)) (ground (arith, v.index)) (v.ahead i h) in
      subst (λ u. due u (bucket w.current.index w) ≡ tasks_at t (bucket i w)) (sym q)
        (subst (λ k. due t (bucket k w) ≡ tasks_at t (bucket i w)) (sym p)
          (due-tasks_at t (bucket i w) (v.rising i) f))

  -- On a wheel that is on time the tasks of tier `t` in a bucket other than the last are run, all of
  -- them and nothing else, in the round that the hand makes at their place, however many rounds that
  -- is ahead.
  pub rounds-punctual :
      (n : ℕ) (w : Wheel T) (t i : ℕ)
      → IsOnTime w
      → i < 31
      → position w.current + n ≡ 32 * t + i
      → runs (rounds n w) ≡ held t i w
  rounds-punctual n w t i v h e =
      runs-held (rounds n w) t i (rounds-IsOnTime n w v) h (omega (arith, position-rounds n w v))
      ∙ held-rounds n w t i v h (omega arith)
