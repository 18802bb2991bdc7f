-- ===== src/Tools/Retry/Thresholds.antt =====
-- When the retries of tools/utils.go succeed.
use own_x_go.Base.{
  ℕ_discrete, dec_le, ◌≢◌, subst, ℕ, zero, suc, ◌+◌, ◌<◌, ◌≤◌, ◌≡◌, refl, ◌==◌, true, false, Option,
  none, some, Option-cases, Bool-cases, inl, inr, ◌⊎◌, arith, pos, ◌↔◌, ap, ◌∙◌, sym,
}
use own_x_go.Tools.Retry.{
  retry_loop, do_with_retry, succeeded, threshold_loop, do_with_retry_threshold,
}

module _ {E : Type 0} (f : ℕ → Option E) where
  -- the `n` calls after the call `s` have no error
  abbrev pub Succeed : ℕ → ℕ → Type 0
  Succeed s n = (j : ℕ) → s < j → j ≤ s + n → f j ≡ none

  -- some `threshold` calls in a row of the first `times` have no error
  abbrev pub HasRun : ℕ → ℕ → Type 0
  HasRun times threshold = (s : ℕ) × (s + threshold ≤ times) × Succeed s threshold

  threshold_ok :
      (left i count threshold : ℕ) (msg : Option E)
      → f i ≡ none
      → (count + 1 == threshold) ≡ true
      → threshold_loop f (suc left) i count threshold msg ≡ succeeded
  unfolding threshold_loop
  threshold_ok left i count threshold msg e t = ground (arith, e, t)

  threshold_more :
      (left i count threshold : ℕ) (msg : Option E)
      → f i ≡ none
      → (count + 1 == threshold) ≡ false
      → threshold_loop f (suc left) i count threshold msg
        ≡ threshold_loop f left (i + 1) (count + 1) threshold msg
  unfolding threshold_loop
  threshold_more left i count threshold msg e t = ground (arith, e, t)

  threshold_back :
      (left i count threshold : ℕ) (msg : Option E) (e : E)
      → f i ≡ some e
      → threshold_loop f (suc left) i count threshold msg
        ≡ threshold_loop f left (i + 1) 0 threshold (some e)
  unfolding threshold_loop
  threshold_back left i count threshold msg e h = ground (arith, h)

  Succeed-next : (s n i : ℕ) → i ≡ s + n + 1 → Succeed s n → f i ≡ none → Succeed s (n + 1)
  Succeed-next s n i e h ok j a b = elim (ℕ_discrete j i) [
    | yes q ↦ ap f q ∙ ok
    | no q ↦ h j a (omega (arith, q))
  ]

  -- The count is that of the calls without an error after the call `s`, up to the call `i`.
  threshold_sound :
      (left i s count threshold times : ℕ) (msg : Option E)
      → i + left ≡ times + 1
      → i ≡ s + count + 1
      → Succeed s count
      → threshold_loop f left i count threshold msg ≡ succeeded
      → HasRun times threshold
  unfolding threshold_loop
  threshold_sound zero i s count threshold times msg n c h e = cc
  threshold_sound (suc left) i s count threshold times msg n c h e = elim (Option-cases (f i)) [
    | inl ok ↦
        let more = Succeed-next s count i c h ok in
        elim (Bool-cases (count + 1 == threshold)) [
          | inl t ↦
              let q : count + 1 ≡ threshold = ground arith in
              (s, omega (arith, n, c, q), λ j a b. more j a (omega (arith, q)))
          | inr t ↦
              threshold_sound left (i + 1) s (count + 1) threshold times msg (omega (arith, n))
                (omega (arith, c)) more (sym (threshold_more left i count threshold msg ok t) ∙ e)
        ]
    | inr (x, bad) ↦
        threshold_sound left (i + 1) i 0 threshold times (some x) (omega (arith, n)) (omega arith)
          (λ j a b. absurd (omega arith))
          (sym (threshold_back left i count threshold msg x bad) ∙ e)
  ]

  differ : {i : ℕ} {x : E} → f i ≡ none → f i ≡ some x → ⊥
  differ a b = cc

  -- The count does not fall behind a run of calls without an error after the call `s`.
  threshold_complete :
      (left i s count threshold times : ℕ) (msg : Option E)
      → i + left ≡ times + 1
      → count < threshold
      → i ≤ s + count + 1
      → i ≤ s + threshold
      → s + threshold ≤ times
      → Succeed s threshold
      → threshold_loop f left i count threshold msg ≡ succeeded
  threshold_complete zero i s count threshold times msg n c l m b h = absurd (omega arith)
  threshold_complete (suc left) i s count threshold times msg n c l m b h =
      elim (Option-cases (f i)) [
        | inl ok ↦ elim (Bool-cases (count + 1 == threshold)) [
          | inl t ↦ threshold_ok left i count threshold msg ok t
          | inr t ↦
              let q : count + 1 ≢ threshold = ground arith in
              threshold_more left i count threshold msg ok t
              ∙ threshold_complete left (i + 1) s (count + 1) threshold times msg (omega (arith, n))
                  (omega (arith, q, c)) (omega (arith, l)) (omega (arith, q, c, l)) b h
        ]
        | inr (x, bad) ↦
            let early : i ≤ s = elim (dec_le i s) [
              | yes p ↦ p
              | no p ↦ absurd (differ (h i (omega (arith, p)) m) bad)
            ] in
            threshold_back left i count threshold msg x bad
            ∙ threshold_complete left (i + 1) s 0 threshold times (some x) (omega (arith, n))
                (omega (arith, c)) (omega (arith, early)) (omega (arith, early, c)) b h
      ]

  -- DoWithRetryThreshold succeeds exactly if, for a threshold above 0, so many calls in a row of the
  -- first `times` have no error.
  pub do_with_retry_threshold_iff :
      (times threshold : ℕ)
      → 0 < threshold
      → (do_with_retry_threshold f (pos times) threshold ≡ succeeded) ↔ HasRun times threshold
  unfolding do_with_retry_threshold
  do_with_retry_threshold_iff times threshold h = (
    (λ e.
        threshold_sound times 1 0 0 threshold times none (omega arith) refl
          (λ j a b. absurd (omega arith)) e),
    (λ (s, b, r).
        threshold_complete times 1 s 0 threshold times none (omega arith) h (omega arith)
          (omega arith) b r),
  )

  retry_stop : (left i times : ℕ) → f i ≡ none → retry_loop f (suc left) i times ≡ (none, i)
  unfolding retry_loop
  retry_stop left i times e = ground (arith, e)

  retry_last :
      (left i times : ℕ) (x : E)
      → f i ≡ some x
      → i ≡ times
      → retry_loop f (suc left) i times ≡ (some x, i)
  unfolding retry_loop
  retry_last left i times x e h = ground (arith, e, h)

  retry_on :
      (left i times : ℕ) (x : E)
      → f i ≡ some x
      → i < times
      → retry_loop f (suc left) i times ≡ retry_loop f left (i + 1) times
  unfolding retry_loop
  retry_on left i times x e h = ground (arith, e, h)

  -- how the retries end: after the call `n`, that has no error or is the last one
  abbrev pub Ends : ℕ → Option E × ℕ → Type 0
  Ends times (r, n) =
      (r ≡ f n)
      × (n ≤ times)
      × ((r ≡ none) ⊎ (n ≡ times))
      × ((j : ℕ) → 0 < j → j < n → (x : E) × (f j ≡ some x))

  retry-Ends :
      (left i times : ℕ)
      → i + left ≡ times + 1
      → 0 < left
      → ((j : ℕ) → 0 < j → j < i → (x : E) × (f j ≡ some x))
      → Ends times (retry_loop f left i times)
  retry-Ends zero i times n z h = absurd (omega arith)
  retry-Ends (suc left) i times n z h = elim (Option-cases (f i)) [
    | inl ok ↦
        subst (Ends times) (sym (retry_stop left i times ok))
          (sym ok, omega (arith, n), inl refl, h)
    | inr (x, bad) ↦ elim (ℕ_discrete i times) [
      | yes q ↦
          subst (Ends times) (sym (retry_last left i times x bad q))
            (sym bad, omega (arith, q), inr q, h)
      | no q ↦ subst (Ends times) (sym (retry_on left i times x bad (omega (arith, n, q)))) (
          retry-Ends left (i + 1) times (omega (arith, n)) (omega (arith, n, q)) (λ j a b.
            elim (ℕ_discrete j i) [
              | yes p ↦ (x, ap f p ∙ bad)
              | no p ↦ h j a (omega (arith, b, p))
            ]))
    ]
  ]

  -- DoWithRetry of one time or more calls the function until a call has no error, or for the last
  -- time, and returns what that call returns.
  do_with_retry-Ends : (times : ℕ) → 0 < times → Ends times (do_with_retry f (pos times))
  unfolding do_with_retry
  do_with_retry-Ends times h =
      retry-Ends times 1 times (omega arith) h (λ j a b. absurd (omega arith))
