-- ===== src/TimingWheel/Histories.antt =====
-- The wheels that `Init`, the rounds of its loop and calls of `AddOnce` make, in any order. A round
-- and a call are taken whole: the source has no lock, and a call within a round is not modelled.
use own_x_go.Base.{
  ℕ, zero, suc, ◌≡◌, refl, [], arith, Option, none, some, get_elem?, replicate, subst, sym,
}
use own_x_go.TimingWheel.Chain.{Chain}
use own_x_go.TimingWheel.Wheel.{Wheel, init, tick, bucket, add_once, added}
use own_x_go.TimingWheel.Insert.{Rising, From}
use own_x_go.TimingWheel.Schedule.{IsOnTime, tick-IsOnTime, next_tier}
use own_x_go.TimingWheel.Adding.{with_task-IsOnTime, added_is}

module _ {T : Type 0} where
  pub data Reach (now : ℕ) : Wheel T → Type 0 where
    starts : Reach now (init now)
    turns : {w : Wheel T} → Reach now w → Reach now (tick w.current.index w).0
    adds : {w u : Wheel T} (x : T) (ts : ℕ) → Reach now w → add_once w x ts ≡ added u → Reach now u

  abbrev or_nil : Option (Chain T) → Chain T
  or_nil none = []
  or_nil (some c) = c

  empty_buckets : (n i : ℕ) → or_nil (get_elem? (replicate n []) i) ≡ []
  empty_buckets zero i = refl
  empty_buckets (suc n) zero = refl
  empty_buckets (suc n) (suc i) = empty_buckets n i

  bucket-init : (now i : ℕ) → bucket i (init {T = T} now) ≡ []
  bucket-init now i = ground (arith, empty_buckets 32 i)

  init-IsOnTime : (now : ℕ) → IsOnTime (init {T = T} now)
  init-IsOnTime now = record {
    size = refl;
    index = omega arith;
    rising = λ i. subst Rising (sym (bucket-init now i)) tt;
    ahead =
        λ i h. subst (From (next_tier (init {T = T} now).current i)) (sym (bucket-init now i)) tt;
  }

  -- Every wheel that the program can come to is on time: 32 buckets whose tiers rise, a hand within
  -- them, and in every bucket but the last no task whose round is past.
  pub Reach-IsOnTime : {now : ℕ} {w : Wheel T} → Reach now w → IsOnTime w
  Reach-IsOnTime {now} starts = init-IsOnTime now
  Reach-IsOnTime (turns {w} r) = tick-IsOnTime w (Reach-IsOnTime r)
  Reach-IsOnTime (adds {w} {u} x ts r e) =
      let v = Reach-IsOnTime r in
      subst IsOnTime (added_is w u x ts v e) (with_task-IsOnTime w x ts v)
