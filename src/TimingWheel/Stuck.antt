-- ===== src/TimingWheel/Stuck.antt =====
-- The last bucket. The loop of `Init` advances the hand before it compares the tier, so that at the
-- last bucket it compares with the tier after the one that the bucket belongs to.
use own_x_go.Base.{
  ℕ, zero, suc, ◌+◌, ◌≤◌, ◌<◌, ◌≡◌, [], ◌∷◌, arith, length, ◌∙◌, subst, sym, if_each, ◌==◌,
}
use own_x_go.TimingWheel.Chain.{TierTask, Chain}
use own_x_go.TimingWheel.Wheel.{Wheel, Current, incr, tick, bucket, left, due}
use own_x_go.TimingWheel.Punctual.{rounds, runs}
use own_x_go.TimingWheel.Schedule.{length-tick, tick-current, bucket-tick}

incr-late :
    (c : Current)
    → c.index < 32
    → ((incr c).index < 32) × (c.tier ≤ (incr c).tier) × (c.index ≡ 31 → (incr c).tier ≡ c.tier + 1)
unfolding incr
incr-late c h = ground arith

module _ {T : Type 0} (n : TierTask T) (c : Chain T) where
  -- The last bucket starts with a tier that the hand has come to.
  pub record IsStuck (w : Wheel T) : Type 0 where
    pub size : length w.buckets ≡ 32
    pub index : w.current.index < 32
    pub head : bucket 31 w ≡ n ∷ c
    pub reached : n.tier ≤ w.current.tier

  late : (t : ℕ) (d : Chain T) → d ≡ n ∷ c → n.tier < t → (left t d ≡ n ∷ c) × (due t d ≡ [])
  late t [] e h = cc
  late t (m ∷ d) e h = ground arith

  late_last :
      (w : Wheel T)
      → IsStuck w
      → w.current.index ≡ 31
      → (left (incr w.current).tier (bucket w.current.index w) ≡ n ∷ c)
        × (due (incr w.current).tier (bucket w.current.index w) ≡ [])
  late_last w s e =
      late (incr w.current).tier (bucket w.current.index w)
        (subst (λ i. bucket i w ≡ n ∷ c) (sym e) s.head)
        (omega (arith, (incr-late w.current s.index).2 e, s.reached))

  tick-IsStuck : (w : Wheel T) → IsStuck w → IsStuck (tick w.current.index w).0
  tick-IsStuck w s = record {
    size = length-tick w w.current.index ∙ s.size;
    index = rw (tick-current w w.current.index) (incr-late w.current s.index).0;
    head = rw (bucket-tick w w.current.index 31 (omega (arith, s.size, s.index))) (
        if_each (λ d. d ≡ n ∷ c) (w.current.index == 31) (λ e. (late_last w s (ground arith)).0)
          (λ e. s.head));
    reached =
        rw (tick-current w w.current.index)
          (omega (arith, (incr-late w.current s.index).1, s.reached));
  }

  runs-IsStuck : (w : Wheel T) → IsStuck w → w.current.index ≡ 31 → runs w ≡ []
  unfolding runs tick
  runs-IsStuck w s e = (late_last w s e).1

  pub rounds-IsStuck : (k : ℕ) (w : Wheel T) → IsStuck w → IsStuck (rounds k w)
  unfolding rounds
  rounds-IsStuck zero w s = s
  rounds-IsStuck (suc k) w s = rounds-IsStuck k (tick w.current.index w).0 (tick-IsStuck w s)

  -- Once the hand has come to the tier at the start of the last bucket, no round ever takes that
  -- bucket's tasks, and the rounds of the last bucket run nothing.
  pub last_bucket_stuck :
      (k : ℕ) (w : Wheel T)
      → IsStuck w
      → (bucket 31 (rounds k w) ≡ n ∷ c)
        × ((rounds k w).current.index ≡ 31 → runs (rounds k w) ≡ [])
  last_bucket_stuck k w s = let r = rounds-IsStuck k w s in (r.head, runs-IsStuck (rounds k w) r)
