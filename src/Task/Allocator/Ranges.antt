-- ===== src/Task/Allocator/Ranges.antt =====
-- The partitions of a round, and what a node does with its own.
use own_x_go.Base.{
  ◌-◌, ℕ, suc, ◌+◌, ◌==◌, ◌≡◌, if◌then◌else◌, String, String_discrete, List, [], ◌∷◌, some, true,
  length, lookup, insert, lookup-insert, arith, is_some, Option-cases, inl, inr, subst, ◌∙◌, ap,
  if_both,
}
use native.Mathlib.Nat.{div_self}
use own_x_go.Task.Worker.{Task}
use own_x_go.Task.Allocator.{Partition, Partitions, Allocator, partition_at, divide, partitions}
use own_x_go.Task.Allocator.Run.{build_all, run_batches, round_run}

-- One batch, of a round.
abbrev pub OneBatch : ℕ → Partition → Type 0
OneBatch r p = (p.batch_count ≡ 1) × (p.round ≡ r)

abbrev AllOne : ℕ → Partitions → Type 0
AllOne r ps = (n : String) (p : Partition) → lookup String_discrete n ps ≡ some p → OneBatch r p

partition_at-OneBatch : (r i : ℕ) (n : String) → OneBatch r (partition_at 1 r i n)
unfolding partition_at
partition_at-OneBatch r i n = ground arith

insert-AllOne :
    (r : ℕ) (n : String) (q : Partition) (ps : Partitions)
    → AllOne r ps
    → OneBatch r q
    → AllOne r (insert String_discrete n q ps)
insert-AllOne r n q ps h o m p e = ground (arith, lookup-insert String_discrete n m q ps, h m p, o)

divide-AllOne :
    (count r i : ℕ) (ns : List String) (ps : Partitions)
    → AllOne r ps
    → AllOne r (divide count 1 r i ns ps)
unfolding divide
divide-AllOne count r i [] ps h = h
divide-AllOne count r i (n ∷ ns) ps h =
    divide-AllOne count r (i + 1) ns
      (insert String_discrete n
        (if i + 1 == count
          then record (partition_at 1 r i n) { end_index = count - 1 }
          else partition_at 1 r i n)
        ps)
      (insert-AllOne r n _ ps h (
        if_both (OneBatch r) (i + 1 == count) (partition_at-OneBatch r i n)
          (partition_at-OneBatch r i n)))

-- `StartAlloc` gives each node one batch of one node, of the round.
partitions-AllOne : (r : ℕ) (n : String) (ns : List String) → AllOne r (partitions r (n ∷ ns))
unfolding partitions lookup
partitions-AllOne r n ns =
    rw (div_self {n = suc (length ns)} (omega arith))
      (divide-AllOne (suc (length ns)) r 0 (n ∷ ns) [] (λ m p e. cc))

module _ {D : Type 0} where
  run_one :
      (last : ℕ → Task D) (p : Partition) (ip : String) (ips spare : List String) (a : Allocator D)
      → p.batch_count ≡ 1
      → run_batches last p (ip ∷ ips) spare 1 0 a
        ≡ some (build_all (last 0) p.round (ip ∷ []) a.task_build_funcs a)
  unfolding run_batches
  run_one last p ip ips spare a one = ground (arith, one)

  -- On the partitions that `StartAlloc` makes of at least one node, and with at least one address,
  -- `roundRun` hands every builder of tasks the first address alone, whichever of the nodes it runs on.
  pub round_run-first :
      (last : ℕ → Task D) (me ip : String) (ips spare : List String) (r : ℕ) (n : String)
      (ns : List String) (a : Allocator D)
      → a.node_partition ≡ partitions r (n ∷ ns)
      → is_some (lookup String_discrete me a.node_partition) ≡ true
      → round_run last me (ip ∷ ips) spare a
        ≡ some (build_all (last 0) r (ip ∷ []) a.task_build_funcs a)
  unfolding round_run run_batches
  round_run-first last me ip ips spare r n ns a made known =
      elim (Option-cases (lookup String_discrete me a.node_partition)) [
        | inl e ↦ absurd (cc)
        | inr (p, e) ↦
            let one =
              partitions-AllOne r n ns me p
                (subst (λ ps. lookup String_discrete me ps ≡ some p) made e) in
            rw (e, round_run)
              (ap (λ k. run_batches last p (ip ∷ ips) spare k 0 a) one.0
                ∙ run_one last p ip ips spare a one.0
                ∙ ap (λ k. some (build_all (last 0) k (ip ∷ []) a.task_build_funcs a)) one.1)
      ]
