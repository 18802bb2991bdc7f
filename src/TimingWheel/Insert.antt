-- ===== src/TimingWheel/Insert.antt =====
-- The walk of `AddOnce` against the insertion into a list that is sorted by tier.
use own_x_go.Base.{
  ℕ, ◌≤◌, ◌<◌, ◌≡◌, refl, ltb, ◌==◌, if◌then◌else◌, List, [], ◌∷◌, ◌++◌, Bool, true, false, All,
  arith, Bool-cases, subst, inl, inr,
}
use own_x_go.TimingWheel.Chain.{TierTask, Chain, chained, nil_pointer, tier_task, walk, add_to}

module _ {T : Type 0} where
  -- The reference: an ordered insertion that keeps the tasks of one tier in one node.
  unfoldable pub insert_tier : ℕ → T → Chain T → Chain T
  insert_tier t x [] = tier_task t (x ∷ []) ∷ []
  insert_tier t x (n ∷ c) =
      let rest = insert_tier t x c in
      if ltb t n.tier
      then tier_task t (x ∷ []) ∷ n ∷ c
      else if n.tier == t
      then tier_task t (n.tasks ++ (x ∷ [])) ∷ c
      else n ∷ rest

  -- The tiers rise along the chain.
  abbrev pub Rising : Chain T → Type 0
  Rising [] = Unit {0}
  Rising (n ∷ c) = All (λ (m : TierTask T). n.tier < m.tier) c × Rising c

  -- The tasks of one tier.
  unfoldable pub tasks_at : ℕ → Chain T → List T
  tasks_at u [] = []
  tasks_at u (n ∷ c) = if n.tier == u then n.tasks else tasks_at u c

  -- No tier of the chain is below `b`.
  abbrev pub From : ℕ → Chain T → Type 0
  From b c = All (λ (m : TierTask T). b ≤ m.tier) c

  abbrev pub starts_above : ℕ → Chain T → Bool
  starts_above t [] = false
  starts_above t (n ∷ _) = ltb t n.tier

  walk-insert_tier :
      (b : Bool) (t : ℕ) (x : T) (n : TierTask T) (c : Chain T)
      → n.tier ≤ t
      → walk b t x (n ∷ c) ≡ chained (insert_tier t x (n ∷ c))
  unfolding walk insert_tier
  walk-insert_tier b t x n [] h = ground arith
  walk-insert_tier b t x n (m ∷ c) h = ground (arith, walk-insert_tier false t x m c)

  -- `AddOnce` inserts into the chain of its bucket as the reference does, except where the tier of
  -- the task comes before that of the head: there it faults, whatever the chain.
  pub add_to-insert_tier :
      (t : ℕ) (x : T) (c : Chain T)
      → add_to t x c ≡ (if starts_above t c then nil_pointer else chained (insert_tier t x c))
  unfolding add_to insert_tier
  add_to-insert_tier t x [] = refl
  add_to-insert_tier t x (n ∷ c) = ground (arith, walk-insert_tier true t x n c)

  insert_tier-above :
      (b t : ℕ) (x : T) (c : Chain T)
      → b < t
      → All (λ (m : TierTask T). b < m.tier) c
      → All (λ (m : TierTask T). b < m.tier) (insert_tier t x c)
  unfolding insert_tier
  insert_tier-above b t x [] h a = (h, tt)
  insert_tier-above b t x (n ∷ c) h a = ground (arith, insert_tier-above b t x c h a.1)

  pub insert_tier-From :
      (b t : ℕ) (x : T) (c : Chain T) → b ≤ t → From b c → From b (insert_tier t x c)
  unfolding insert_tier
  insert_tier-From b t x [] h a = (h, tt)
  insert_tier-From b t x (n ∷ c) h a = ground (arith, insert_tier-From b t x c h a.1)

  pub above_mono :
      (b d : ℕ) (c : Chain T)
      → b ≤ d
      → All (λ (m : TierTask T). d < m.tier) c
      → All (λ (m : TierTask T). b < m.tier) c
  above_mono b d [] h a = tt
  above_mono b d (n ∷ c) h a = (omega arith, above_mono b d c h a.1)

  pub insert_tier-Rising : (t : ℕ) (x : T) (c : Chain T) → Rising c → Rising (insert_tier t x c)
  unfolding insert_tier
  insert_tier-Rising t x [] r = (tt, tt)
  insert_tier-Rising t x (n ∷ c) r =
      ground
        (arith, above_mono t n.tier c, insert_tier-above n.tier t x c, insert_tier-Rising t x c r.1)

  pub none_above :
      (u : ℕ) (c : Chain T) → All (λ (m : TierTask T). u < m.tier) c → tasks_at u c ≡ []
  unfolding tasks_at
  none_above u [] a = refl
  none_above u (n ∷ c) a = ground (arith, none_above u c a.1)

  -- In a chain of rising tiers the new task comes last among those of its tier, and the other tiers
  -- keep their tasks.
  pub tasks_at-insert_tier :
      (t u : ℕ) (x : T) (c : Chain T)
      → Rising c
      → tasks_at u (insert_tier t x c) ≡ (if t == u then tasks_at u c ++ (x ∷ []) else tasks_at u c)
  unfolding tasks_at insert_tier
  tasks_at-insert_tier t u x [] r = refl
  tasks_at-insert_tier t u x (n ∷ c) r =
      ground (arith, tasks_at-insert_tier t u x c r.1, none_above u c, above_mono u n.tier c)

  add_to-chained :
      (t : ℕ) (x : T) (c d : Chain T) → add_to t x c ≡ chained d → insert_tier t x c ≡ d
  add_to-chained t x c d e = elim (Bool-cases (starts_above t c)) [
    | inl h ↦ absurd (cc (add_to-insert_tier t x c, h))
    | inr h ↦ cc (add_to-insert_tier t x c, h)
  ]

  -- Where the walk of `AddOnce` does not fault on a chain of rising tiers, the tiers of the new chain
  -- rise too, the task comes last among those of its tier, and the other tiers keep their tasks.
  pub tasks_at-add_to :
      (t : ℕ) (x : T) (c d : Chain T)
      → Rising c
      → add_to t x c ≡ chained d
      → Rising d
        × ((u : ℕ) → tasks_at u d ≡ (if t == u then tasks_at u c ++ (x ∷ []) else tasks_at u c))
  tasks_at-add_to t x c d r e =
      subst
        (λ (d' : Chain T).
          Rising d'
          × ((u : ℕ) → tasks_at u d' ≡ (if t == u then tasks_at u c ++ (x ∷ []) else tasks_at u c)))
        (add_to-chained t x c d e) (insert_tier-Rising t x c r, λ u. tasks_at-insert_tier t u x c r)
