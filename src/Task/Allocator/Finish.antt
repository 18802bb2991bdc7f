-- ===== src/Task/Allocator/Finish.antt =====
-- Which call of `partitionDone` ends the round.
use own_x_go.Base.{
  ℕ, suc, ◌+◌, ◌≡◌, ◌≢◌, ◌≤◌, ◌<◌, ◌↔◌, refl, ltb, if◌then◌else◌, String, String_discrete, List, [],
  ◌∷◌, none, some, true, false, lookup, insert, arith, All, ite, Option-cases, inl, inr, sym, ◌∙◌,
  Bool-cases,
}
use own_x_go.Task.Allocator.{Allocator, Partition, Partitions, Effect, emit, ends_round, tells_done}
use own_x_go.Task.Allocator.Done.{
  blocks, intersection, all_done, finish_round, partition_done, call_round_done, tell_done,
}

-- The partition of the node `n`, if there is one and it is not that of `own`, is done.
abbrev pub IsDone : String → Partitions → String → Type 0
IsDone own ps n =
    (p : Partition) → lookup String_discrete n ps ≡ some p → own ≢ n → p.round_done ≡ true

-- The test at the first node, without and with a partition.
all_done-none :
    (own n : String) (ps : Partitions) (ns : List String)
    → lookup String_discrete n ps ≡ none
    → all_done own ps (intersection ps (n ∷ ns)) ≡ all_done own ps (intersection ps ns)
unfolding all_done intersection
all_done-none own n ps ns e = rw e refl

all_done-some :
    (own n : String) (ps : Partitions) (ns : List String) (p : Partition)
    → lookup String_discrete n ps ≡ some p
    → let rest = all_done own ps (intersection ps ns) in
      all_done own ps (intersection ps (n ∷ ns))
      ≡ ite (String_discrete own n) rest (if p.round_done then rest else false)
unfolding all_done intersection
all_done-some own n ps ns p e = rw e (rw (all_done, e) refl)

all_done-All :
    (own : String) (ps : Partitions) (alive : List String)
    → All (IsDone own ps) alive
    → all_done own ps (intersection ps alive) ≡ true
unfolding all_done intersection
all_done-All own ps [] h = refl
all_done-All own ps (n ∷ ns) h = elim (Option-cases (lookup String_discrete n ps)) [
  | inl e ↦ all_done-none own n ps ns e ∙ all_done-All own ps ns h.1
  | inr (p, e) ↦ ground (arith, all_done-some own n ps ns p e, h.0 p e, all_done-All own ps ns h.1)
]

All-all_done :
    (own : String) (ps : Partitions) (alive : List String)
    → all_done own ps (intersection ps alive) ≡ true
    → All (IsDone own ps) alive
All-all_done own ps [] h = tt
All-all_done own ps (n ∷ ns) h = elim (Option-cases (lookup String_discrete n ps)) [
  | inl e ↦ ((λ p f. cc), All-all_done own ps ns (sym (all_done-none own n ps ns e) ∙ h))
  | inr (p, e) ↦
      let k = all_done-some own n ps ns p e in
      ((λ q f other. ground (arith, e, k, h)), All-all_done own ps ns (ground (arith, k, h)))
]

lt_of_ltb : (m n : ℕ) → ltb m n ≡ true → m < n
lt_of_ltb m n e = ground arith

nobody_done : (own : String) (ps : Partitions) → all_done own ps [] ≡ true
unfolding all_done
nobody_done own ps = refl

module _ {D : Type 0} where
  -- How often the scheduler has been told that a round is over.
  unfoldable pub ended : List (Effect D) → ℕ
  ended [] = 0
  ended (ends_round r ∷ es) = suc (ended es)
  ended (_ ∷ es) = ended es

  tell_done-ended :
      (p : Partition) (ns : List String) (a : Allocator D)
      → ended (tell_done p ns a).trace ≡ ended a.trace
  unfolding tell_done ended
  tell_done-ended p [] a = refl
  tell_done-ended p (n ∷ ns) a = tell_done-ended p ns (emit (tells_done n p) a)

  finish_round-ended :
      (q : Partition) (names : List String) (a : Allocator D)
      → let d = (finish_round q names a).0 in
        (ended a.trace < ended d.trace) ↔ (all_done q.node_name a.node_partition names ≡ true)
  unfolding finish_round call_round_done ended
  finish_round-ended q [] a = ground (arith, nobody_done q.node_name a.node_partition)
  finish_round-ended q (n ∷ ns) a = ground (arith, tell_done-ended q (n ∷ ns) a)

  finish_round-blocks :
      (q : Partition) (names : List String) (a : Allocator D)
      → a.cancel_round_timeout ≡ false
      → let d = finish_round q names a in (ended a.trace < ended d.0.trace) ↔ (d.1 ≡ blocks)
  unfolding finish_round call_round_done ended
  finish_round-blocks q [] a closed = ground arith
  finish_round-blocks q (n ∷ ns) a closed = ground (arith, tell_done-ended q (n ∷ ns) a)

  -- A call of `partitionDone` of a node that has a partition tells the scheduler that the round is
  -- over exactly if it was the last batch of the node, and every other node that is alive and has a
  -- partition has reported its own.
  pub partition_done-ended :
      (me : String) (alive : List String) (p : Partition) (a : Allocator D)
      → lookup String_discrete me a.node_partition ≡ some p
      → let q : Partition = record p {
        fin_batch_count = p.fin_batch_count + 1;
        round_done = true;
      } in
        let ps = insert String_discrete me q a.node_partition in
        (ended a.trace < ended (partition_done me alive a).0.trace)
        ↔ ((p.batch_count ≤ p.fin_batch_count + 1) × All (IsDone p.node_name ps) alive)
  unfolding partition_done
  partition_done-ended me alive p a known =
      let q : Partition = record p { fin_batch_count = p.fin_batch_count + 1; round_done = true } in
      let ps = insert String_discrete me q a.node_partition in
      let f = finish_round-ended q (intersection ps alive) (record a { node_partition = ps }) in
      rw (known, partition_done)
        (elim (Bool-cases (ltb (p.fin_batch_count + 1) p.batch_count)) [
          | inl early ↦ rw early (
            (λ h. absurd (omega (arith, h))),
            (λ h.
                absurd (omega (arith, h.0, lt_of_ltb (p.fin_batch_count + 1) p.batch_count early))),
          )
          | inr late ↦ rw late (
            (λ h. (ground (arith, late), All-all_done p.node_name ps alive (f.0 h))),
            (λ h. f.1 (all_done-All p.node_name ps alive h.1)),
          )
        ])

  -- On an allocator whose channel `cancelRoundTimeout` was never made, as that of `newAllocator`,
  -- the calls that end the round are those that never return.
  pub partition_done-blocks :
      (me : String) (alive : List String) (a : Allocator D)
      → a.cancel_round_timeout ≡ false
      → (ended a.trace < ended (partition_done me alive a).0.trace)
        ↔ ((partition_done me alive a).1 ≡ blocks)
  unfolding partition_done
  partition_done-blocks me alive a closed =
      elim (Option-cases (lookup String_discrete me a.node_partition)) [
        | inl e ↦ rw (e, partition_done) (ground arith)
        | inr (p, e) ↦
            let q : Partition = record p {
              fin_batch_count = p.fin_batch_count + 1;
              round_done = true;
            } in
            let ps = insert String_discrete me q a.node_partition in
            let f =
              finish_round-blocks q (intersection ps alive) (record a { node_partition = ps })
                closed in
            rw (e, partition_done)
              (elim (Bool-cases (ltb (p.fin_batch_count + 1) p.batch_count)) [
                | inl early ↦ rw early (ground arith)
                | inr late ↦ rw late f
              ])
      ]
