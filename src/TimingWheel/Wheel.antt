-- ===== src/TimingWheel/Wheel.antt =====
-- timing_wheel/timing_wheel.go: the wheel, `AddOnce`, and a round of the loop of `Init`. What a
-- round takes off the wheel it runs, each task in its goroutine.
use own_x_go.Base.{
  ℕ, ◌+◌, ◌-◌, ◌/◌, ◌%◌, leb, ◌==◌, if◌then◌else◌, List, [], ◌∷◌, Option, none, some, get_elem?,
  set, replicate,
}
use own_x_go.TimingWheel.Chain.{Chain, Walk, chained, nil_pointer, through_prev, add_to}

abbrev pub default_bucket_length : ℕ
default_bucket_length = 32

pub record Current : Type 0 where
  pub timestamp : ℕ
  pub tier : ℕ
  pub index : ℕ

unfoldable pub tier_incr : Current → Current
tier_incr c = record c { tier = c.tier + 1; index = 0 }

unfoldable pub incr : Current → Current
unfolding tier_incr
incr c =
    let d : Current = record c { timestamp = c.timestamp + 1; index = c.index + 1 } in
    if d.index == default_bucket_length then tier_incr d else d

pub record Wheel (T : Type 0) : Type 0 where
  pub current : Current
  pub buckets : List (Chain T)

-- What `AddOnce` computes before it touches the bucket: the tier and the bucket of a timestamp.
unfoldable pub place : Current → ℕ → ℕ × ℕ
place c timestamp =
    let ts = if leb timestamp c.timestamp then c.timestamp else timestamp in
    let remain = ts - c.timestamp in
    let tier = c.tier + remain / default_bucket_length in
    let index = c.index + remain % default_bucket_length in
    if leb default_bucket_length index
    then (tier + 1, index % default_bucket_length)
    else (tier, index)

-- A wheel, or the fault that ends the call: an index out of range, or a nil pointer.
pub data Added (T : Type 0) : Type 0 where
  added : Wheel T → Added T
  out_of_range : Added T
  fault : Walk (Chain T) → Added T

module _ {T : Type 0} where
  -- `Init`, on the buckets of the global wheel, all nil.
  abbrev pub init : ℕ → Wheel T
  init now = record {
    current = record { timestamp = now; tier = 0; index = 0 };
    buckets = replicate default_bucket_length [];
  }

  abbrev pub store : Wheel T → ℕ → Walk (Chain T) → Added T
  store w i (chained c) = added (record w { buckets = set w.buckets i c })
  store w i nil_pointer = fault nil_pointer
  store w i through_prev = fault through_prev

  abbrev pub add_at : Wheel T → ℕ → ℕ → T → Option (Chain T) → Added T
  add_at w t i x none = out_of_range
  add_at w t i x (some c) = store w i (add_to t x c)

  unfoldable pub add_once : Wheel T → T → ℕ → Added T
  add_once w x timestamp =
      let (t, i) = place w.current timestamp in add_at w t i x (get_elem? w.buckets i)

  -- The head of the chain is due in the round.
  abbrev pub due : ℕ → Chain T → List T
  due t [] = []
  due t (n ∷ c) = if t == n.tier then n.tasks else []

  abbrev pub left : ℕ → Chain T → Chain T
  left t [] = []
  left t (n ∷ c) = if t == n.tier then c else n ∷ c

  abbrev pub bucket : ℕ → Wheel T → Chain T
  bucket i w = elim (get_elem? w.buckets i) [ none ↦ [] | some c ↦ c ]

  -- The body of the loop for the bucket `i`: the wheel after it, and the tasks that it runs.
  unfoldable pub tick : ℕ → Wheel T → Wheel T × List T
  unfolding incr
  tick i w =
      let d : Wheel T = record w { current = incr w.current } in
      let c = bucket i d in
      (record d { buckets = set d.buckets i (left d.current.tier c) }, due d.current.tier c)
