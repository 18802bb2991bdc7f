-- ===== src/TimingWheel/Chain.antt =====
-- timing_wheel/timing_wheel.go, `tierTask`, and the walk of `AddOnce` along the chain of a bucket.
use own_x_go.Base.{ℕ, ltb, ◌==◌, ◌&&◌, if◌then◌else◌, List, [], ◌∷◌, ◌++◌, Bool, true, false}

module _ {ℓ} (T : Type ℓ) where
  pub record TierTask : Type ℓ where
    pub tier : ℕ
    pub tasks : List T

  -- The nodes in the order of `next`; `[]` is nil.
  abbrev pub Chain : Type ℓ
  Chain = List TierTask

-- `nil_pointer` is the fault of `prev.next = …` where `prev` is nil, as it is at the head of every
-- chain. `through_prev` is the same branch at a later node, where it would insert by that node's
-- `prev`; that insertion is not modelled, and `walk` never comes to it from the head (`Insert`).
pub data Walk {ℓ} (A : Type ℓ) : Type ℓ where
  chained : A → Walk A
  nil_pointer : Walk A
  through_prev : Walk A

module _ {ℓ} {T : Type ℓ} where
  abbrev pub tier_task : ℕ → List T → TierTask T
  tier_task t ts = record { tier = t; tasks = ts }

  -- The third test of the loop, on the tier of the node and the rest of the chain.
  abbrev pub fits_after : ℕ → ℕ → Chain T → Bool
  fits_after t u [] = ltb u t
  fits_after t u (n ∷ _) = ltb u t && ltb t n.tier

  abbrev pub before : Bool → Walk (Chain T)
  before true = nil_pointer
  before false = through_prev

  abbrev pub behind : TierTask T → Walk (Chain T) → Walk (Chain T)
  behind n (chained c) = chained (n ∷ c)
  behind n nil_pointer = nil_pointer
  behind n through_prev = through_prev

  -- `at_head` says that `tierPointer.prev` is nil.
  unfoldable pub walk : Bool → ℕ → T → Chain T → Walk (Chain T)
  walk at_head t x [] = chained []
  walk at_head t x (n ∷ c) =
      let rest = walk false t x c in
      if ltb t n.tier
      then before at_head
      else if n.tier == t
      then chained (tier_task n.tier (n.tasks ++ (x ∷ [])) ∷ c)
      else if fits_after t n.tier c
      then chained (n ∷ tier_task t (x ∷ []) ∷ c)
      else behind n rest

  -- What `AddOnce` does to a bucket.
  unfoldable pub add_to : ℕ → T → Chain T → Walk (Chain T)
  unfolding walk
  add_to t x [] = chained (tier_task t (x ∷ []) ∷ [])
  add_to t x (n ∷ c) = walk true t x (n ∷ c)
