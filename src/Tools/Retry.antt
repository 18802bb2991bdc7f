-- ===== src/Tools/Retry.antt =====
-- tools/utils.go: `DoWithRetry` and `DoWithRetryThreshold`. `f i` is the error of the call `i` of the
-- function, counted from 1, none for nil; the sleeps between calls are left out.
pub mod Thresholds
use own_x_go.Base.{ℕ, zero, suc, ◌+◌, ◌-◌, ◌==◌, if◌then◌else◌, Option, none, some, ℤ, pos, negsuc}

-- The error, and how many calls there have been.
module _ {E : Type 0} (f : ℕ → Option E) where
  -- `left` rounds from the call `i` on
  unfoldable pub retry_loop : (left i times : ℕ) → Option E × ℕ
  retry_loop zero i times = (none, i - 1)
  retry_loop (suc left) i times =
      let rest = retry_loop left (i + 1) times in
      elim (f i) [ none ↦ (none, i) | some e ↦ if i == times then (some e, i) else rest ]

  unfoldable pub do_with_retry : ℤ → Option E × ℕ
  unfolding retry_loop
  do_with_retry (negsuc _) = (none, 0)
  do_with_retry (pos times) = retry_loop times 1 times

  -- What the function returns: nil, or an error with the text of the last one of the calls.
  pub data Outcome : Type 0 where
    succeeded : Outcome
    exhausted : Option E → Outcome

  unfoldable pub threshold_loop : (left i count threshold : ℕ) → Option E → Outcome
  threshold_loop zero i count threshold msg = exhausted msg
  threshold_loop (suc left) i count threshold msg = elim (f i) [
    | none ↦
        if count + 1 == threshold
        then succeeded
        else threshold_loop left (i + 1) (count + 1) threshold msg
    | some e ↦ threshold_loop left (i + 1) 0 threshold (some e)
  ]

  -- A negative threshold is not reached, like 0.
  unfoldable pub do_with_retry_threshold : ℤ → ℕ → Outcome
  unfolding threshold_loop
  do_with_retry_threshold (negsuc _) threshold = exhausted none
  do_with_retry_threshold (pos times) threshold = threshold_loop times 1 0 threshold none
