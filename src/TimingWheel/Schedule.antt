-- ===== src/TimingWheel/Schedule.antt =====
-- When the wheel runs a task. The place of a bucket and a tier is the number of rounds before it;
-- the hand stands at its own place.
use own_x_go.Base.{
  ℕ, ◌+◌, ◌-◌, ◌*◌, ◌≤◌, ◌<◌, ◌≡◌, ◌≢◌, refl, leb, ◌==◌, if◌then◌else◌, [], ◌∷◌, All, arith, length,
  set, length-set, ◌∙◌, if_both, ℕ_discrete, get_elem?-set_self, if_each, get_elem?-set_ne, subst,
  sym,
}
use own_x_go.TimingWheel.Chain.{TierTask, Chain}
use own_x_go.TimingWheel.Wheel.{Wheel, Current, incr, place, tick, left, bucket}
use own_x_go.TimingWheel.Insert.{Rising, From}

-- The rounds that the hand has made.
abbrev pub position : Current → ℕ
position c = 32 * c.tier + c.index

pub incr-position :
    (c : Current)
    → c.index < 32
    → (position (incr c) ≡ position c + 1)
      × ((incr c).index < 32)
      × ((incr c).timestamp ≡ c.timestamp + 1)
unfolding incr
incr-position c h = ground arith

-- With the hand within the buckets, a timestamp is placed as many rounds ahead of the hand as it
-- lies after the clock, and at the hand itself if it has passed, in one of the buckets.
pub place-position :
    (c : Current) (timestamp : ℕ)
    → c.index < 32
    → (32 * (place c timestamp).0 + (place c timestamp).1 ≡ position c + (timestamp - c.timestamp))
      × ((place c timestamp).1 < 32)
unfolding place
place-position c timestamp h = ground arith

-- The first tier of the bucket `i` that the hand has not passed.
abbrev pub next_tier : Current → ℕ → ℕ
next_tier c i = if leb c.index i then c.tier else c.tier + 1

next_tier-incr :
    (c : Current) (j : ℕ)
    → c.index < 32
    → j < 31
    → c.index ≢ j
    → next_tier (incr c) j ≡ next_tier c j
unfolding incr
next_tier-incr c j h k e = ground arith

pub incr-tier :
    (c : Current)
    → c.index < 31
    → ((incr c).tier ≡ c.tier)
      × (next_tier (incr c) c.index ≡ c.tier + 1)
      × (next_tier c c.index ≡ c.tier)
unfolding incr
incr-tier c h = ground arith

module _ {T : Type 0} where
  -- The last bucket is left out: see `Stuck`.
  pub record IsOnTime (w : Wheel T) : Type 0 where
    pub size : length w.buckets ≡ 32
    pub index : w.current.index < 32
    pub rising : (i : ℕ) → Rising (bucket i w)
    pub ahead : (i : ℕ) → i < 31 → From (next_tier w.current i) (bucket i w)

  pub bucket-set :
      (w : Wheel T) (i j : ℕ) (c : Chain T)
      → i < length w.buckets
      → bucket j (record w { buckets = set w.buckets i c }) ≡ (if i == j then c else bucket j w)
  bucket-set w i j c h = elim (ℕ_discrete i j) [
    | yes p ↦ ground (arith, get_elem?-set_self w.buckets i c h)
    | no p ↦ ground (arith, get_elem?-set_ne w.buckets i j c p)
  ]

  pub bucket-tick :
      (w : Wheel T) (i j : ℕ)
      → i < length w.buckets
      → bucket j (tick i w).0
        ≡ (if i == j then left (incr w.current).tier (bucket i w) else bucket j w)
  unfolding tick
  bucket-tick w i j h = bucket-set w i j (left (incr w.current).tier (bucket i w)) h

  pub length-tick : (w : Wheel T) (i : ℕ) → length (tick i w).0.buckets ≡ length w.buckets
  unfolding tick
  length-tick w i = length-set w.buckets i (left (incr w.current).tier (bucket i w))

  pub tick-current : (w : Wheel T) (i : ℕ) → (tick i w).0.current ≡ incr w.current
  unfolding tick
  tick-current w i = refl

  left-Rising : (t : ℕ) (c : Chain T) → Rising c → Rising (left t c)
  left-Rising t [] r = tt
  left-Rising t (n ∷ c) r = ground arith

  From-of_above :
      (b t : ℕ) (c : Chain T) → b ≤ t + 1 → All (λ (m : TierTask T). t < m.tier) c → From b c
  From-of_above b t [] h a = tt
  From-of_above b t (n ∷ c) h a = (omega arith, From-of_above b t c h a.1)

  left-From : (t : ℕ) (c : Chain T) → Rising c → From t c → From (t + 1) (left t c)
  left-From t [] r f = tt
  left-From t (n ∷ c) r f =
      ground (arith, From-of_above (t + 1) t c, From-of_above (t + 1) n.tier c)

  tick-From :
      (w : Wheel T)
      → IsOnTime w
      → w.current.index < 31
      → From
          (next_tier (incr w.current) w.current.index)
          (left (incr w.current).tier (bucket w.current.index w))
  tick-From w v h =
      let (same, after, now) = incr-tier w.current h in
      let c = bucket w.current.index w in
      let kept : From w.current.tier c = subst (λ b. From b c) now (v.ahead w.current.index h) in
      subst (λ b. From b (left (incr w.current).tier c)) (sym after)
        (subst (λ t. From (w.current.tier + 1) (left t c)) (sym same)
          (left-From w.current.tier c (v.rising w.current.index) kept))

  -- A round of the loop keeps the wheel on time, at the bucket where the hand stands.
  pub tick-IsOnTime : (w : Wheel T) → IsOnTime w → IsOnTime (tick w.current.index w).0
  tick-IsOnTime w v =
      let i = w.current.index in
      let h : i < length w.buckets = omega (arith, v.size, v.index) in
      record {
        size = length-tick w i ∙ v.size;
        index = rw (tick-current w i) (incr-position w.current v.index).1;
        rising = λ j.
            rw (bucket-tick w i j h)
              (if_both Rising (i == j) (left-Rising _ (bucket i w) (v.rising i)) (v.rising j));
        ahead = λ j k.
            rw (bucket-tick w i j h, tick-current w i)
              (if_each (From (next_tier (incr w.current) j)) (i == j)
                (λ e.
                  subst
                    (λ l.
                      From (next_tier (incr w.current) l) (left (incr w.current).tier (bucket i w)))
                    (ground arith) (tick-From w v (ground arith)))
                (λ e. rw (next_tier-incr w.current j v.index k (ground arith)) (v.ahead j k)));
      }
