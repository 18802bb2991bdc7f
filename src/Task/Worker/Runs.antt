-- ===== src/Task/Worker/Runs.antt =====
-- How often a task runs, in which bucket, and what `Done` stops.
use own_x_go.Base.{
  ℕ, zero, suc, ◌+◌, ◌%◌, ◌-◌, ◌≤◌, ◌<◌, ◌≡◌, refl, ltb, if◌then◌else◌, List, [], ◌∷◌, ◌++◌, none,
  some, Bool, true, false, ◌==◌, length, get_elem?, set, replicate, arith, Bool-cases, inl, inr,
  Option-cases, ℕ_discrete, subst, le_of_get_elem?, sym, length-set, append-nil, ◌∙◌,
  get_elem?-set_self, ap, lt_of_get_elem?, append_assoc, get_elem?-set_ne, length-replicate,
}
use own_x_go.Task.Worker.{
  Task, Worker, new_worker, start_worker, exec_task, exec_runs, put_one, put, send_done, done,
}

module _ {D : Type 0} where
  -- How often a task may still be put back.
  abbrev pub budget : Task D → ℕ
  budget t = if t.need_retry then t.retry_limit - t.retry_times else 0

  exec_task-none : (b : Bool) (t : Task D) → exec_task b t ≡ none → b ≡ true → budget t ≡ 0
  unfolding exec_task
  exec_task-none b t e f = ground arith

  exec_task-some :
      (b : Bool) (t u : Task D) → exec_task b t ≡ some u → (b ≡ true) × (budget t ≡ suc (budget u))
  unfolding exec_task
  exec_task-some b t u e = ground arith

  -- The runs of `t` from the run `k` on end with the run `r`.
  pub record EndsWith (fails : ℕ → Bool) (k : ℕ) (t : Task D) (r : ℕ) : Type 0 where
    pub first : k ≤ r
    pub last : r ≤ k + budget t
    pub failed : (i : ℕ) → k ≤ i → i < r → fails i ≡ true
    pub succeeds : r < k + budget t → fails r ≡ false

  once :
      (fails : ℕ → Bool) (k : ℕ) (t : Task D) → exec_task (fails k) t ≡ none → EndsWith fails k t k
  once fails k t e = record {
    first = omega arith;
    last = omega arith;
    failed = λ i a b. absurd (omega (arith, a, b));
    succeeds = λ h. elim (Bool-cases (fails k)) [
      | inl f ↦ absurd (omega (arith, exec_task-none (fails k) t e f, h))
      | inr f ↦ f
    ];
  }

  again :
      (fails : ℕ → Bool) (k r : ℕ) (t u : Task D)
      → exec_task (fails k) t ≡ some u
      → EndsWith fails (suc k) u r
      → EndsWith fails k t r
  again fails k r t u e v =
      let (f, b) = exec_task-some (fails k) t u e in
      record {
        first = omega (arith, v.first);
        last = omega (arith, v.last, b);
        failed = λ i a c. elim (ℕ_discrete k i) [
          | yes q ↦ subst (λ j. fails j ≡ true) q f
          | no n ↦ v.failed i (omega (arith, a, n)) c
        ];
        succeeds = λ h. v.succeeds (omega (arith, h, b));
      }

  exec_runs-from :
      (n : ℕ) (fails : ℕ → Bool) (k : ℕ) (t : Task D)
      → budget t < n
      → (r : ℕ) × (exec_runs n fails k t ≡ some (suc r)) × EndsWith fails k t r
  unfolding exec_runs
  exec_runs-from zero fails k t h = absurd (omega (arith, h))
  exec_runs-from (suc n) fails k t h = elim (Option-cases (exec_task (fails k) t)) [
    | inl e ↦ (k, rw (e, exec_runs) refl, once fails k t e)
    | inr (u, e) ↦
        let (r, q, v) =
          exec_runs-from n fails (suc k) u (omega (arith, h, exec_task-some (fails k) t u e)) in
        (r, rw (e, exec_runs) q, again fails k r t u e v)
  ]

  -- A task runs until it succeeds or has been put back as often as its limit allows: with fuel for
  -- that many runs and one more, the runs end, each but the last has failed, and the last has
  -- succeeded if there was a retry left. A task that needs no retry runs once.
  pub exec_runs-EndsWith :
      (n : ℕ) (fails : ℕ → Bool) (t : Task D)
      → budget t < n
      → (r : ℕ) × (exec_runs n fails 0 t ≡ some (suc r)) × EndsWith fails 0 t r
  exec_runs-EndsWith n fails t h = exec_runs-from n fails 0 t h

  -- The tasks of the bucket `i`, out of `m`.
  unfoldable pub in_bucket : ℕ → ℕ → List (Task D) → List (Task D)
  in_bucket m i [] = []
  in_bucket m i (t ∷ ts) = let rest = in_bucket m i ts in if t.id % m == i then t ∷ rest else rest

  -- The bucket `i`; there is none past the end.
  abbrev pub bucket : ℕ → Worker D → List (Task D)
  bucket i w = elim (get_elem? w.buckets i) [ none ↦ [] | some b ↦ b ]

  bucket-set :
      (bs : List (List (Task D))) (i j p n' : ℕ) (b c : List (Task D))
      → get_elem? bs i ≡ some b
      → bucket j (record { buckets = set bs i (b ++ c); parallelism = p; running = n' })
        ≡ bucket j (record { buckets = bs; parallelism = p; running = n' })
          ++ (if i == j then c else [])
  bucket-set bs i j p n' b c e = elim (ℕ_discrete i j) [
    | yes q ↦ ground (arith, get_elem?-set_self bs i (b ++ c), lt_of_get_elem? bs i b, e, q)
    | no n ↦ ground (
      arith,
      get_elem?-set_ne bs i j (b ++ c),
      append-nil (bucket j (record { buckets = bs; parallelism = p; running = n' })),
    )
  ]

  put_one-bucket :
      (t : Task D) (w : Worker D)
      → 0 < length w.buckets
      → (u : Worker D) × (put_one t w ≡ some u)
        × (length u.buckets ≡ length w.buckets)
        × ((i : ℕ) → bucket i u ≡ bucket i w ++ in_bucket (length w.buckets) i (t ∷ []))
  unfolding put_one in_bucket
  put_one-bucket t w h =
      let i = t.id % length w.buckets in
      elim (Option-cases (get_elem? w.buckets i)) [
        | inl e ↦ absurd (omega (arith, h, le_of_get_elem? w.buckets i e))
        | inr (b, e) ↦ (
          record w { buckets = set w.buckets i (b ++ (t ∷ [])) },
          rw e refl,
          length-set w.buckets i (b ++ (t ∷ [])),
          λ j. bucket-set w.buckets i j w.parallelism w.running b (t ∷ []) e,
        )
      ]

  in_bucket-snoc :
      (m i : ℕ) (t : Task D) (ts : List (Task D))
      → in_bucket m i (t ∷ ts) ≡ in_bucket m i (t ∷ []) ++ in_bucket m i ts
  unfolding in_bucket
  in_bucket-snoc m i t ts = ground arith

  -- `Put` never runs past the buckets of a worker that has some, and appends to each bucket the
  -- tasks of the call whose id falls to it, in the order of the call.
  put-bucket :
      (ts : List (Task D)) (w : Worker D)
      → 0 < length w.buckets
      → (u : Worker D) × (put ts w ≡ some u)
        × ((i : ℕ) → bucket i u ≡ bucket i w ++ in_bucket (length w.buckets) i ts)
  unfolding put in_bucket
  put-bucket [] w h = (w, refl, λ i. sym (append-nil (bucket i w)))
  put-bucket (t ∷ ts) w h =
      let (v, e, l, a) = put_one-bucket t w h in
      let (u, f, b) = put-bucket ts v (subst (λ n. 0 < n) (sym l) h) in
      (
        u,
        rw (e, put) f,
        λ i.
            b i
            ∙ ap (◌++◌ (bucket i v)) (ap (λ n. in_bucket n i ts) l)
            ∙ ap (λ x. x ++ in_bucket (length w.buckets) i ts) (a i)
            ∙ append_assoc (bucket i w) (in_bucket (length w.buckets) i (t ∷ []))
                (in_bucket (length w.buckets) i ts)
            ∙ ap (◌++◌ (bucket i w)) (sym (in_bucket-snoc (length w.buckets) i t ts)),
      )

  send_done-running :
      (n : ℕ) (w : Worker D)
      → n ≤ w.running
      → send_done n w ≡ some (record w { running = w.running - n })
  unfolding send_done
  send_done-running zero w h = ground arith
  send_done-running (suc n) w h =
      ground (arith, send_done-running n (record w { running = w.running - 1 }))

  -- `Done` ends one goroutine for each bucket of a worker that has been started, and `Start` has
  -- begun two: as many as there are buckets go on.
  pub done-start_worker :
      (p : ℕ)
      → (u : Worker D) × (done (start_worker (new_worker p)) ≡ some u)
        × (u.running ≡ (if ltb p 1 then 1024 else p))
  unfolding done start_worker new_worker
  done-start_worker p =
      let n = if ltb p 1 then 1024 else p in
      let s : Worker D = start_worker (new_worker p) in
      let none_yet : List (Task D) = [] in
      let l : length (replicate n none_yet) ≡ n = length-replicate n none_yet in
      (
        record s { running = s.running - n },
        send_done-running n s (omega (arith, l)),
        omega (arith, l),
      )
