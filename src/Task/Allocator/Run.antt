-- ===== src/Task/Allocator/Run.antt =====
-- task/node/allocator.go, `syncPartitions`, `roundRun` and `batchDoneTask`: what a node does with its
-- partition.
use own_x_go.Base.{
  ℕ, zero, suc, ◌+◌, ◌-◌, ltb, leb, if◌then◌else◌, String, String_discrete, List, [], ◌∷◌, ◌++◌,
  Option, none, some, false, length, take, drop, lookup,
}
use own_x_go.Task.Allocator.{Allocator, Partition, Partitions, emit, puts}
use own_x_go.Task.Worker.{Task}

-- `nodes[lo:hi]` of a slice with the elements `spare` beyond its length.
abbrev pub slice : ℕ → ℕ → List String → List String → Option (List String)
slice lo hi nodes spare =
    if leb hi (length (nodes ++ spare))
    then some (take (hi - lo) (drop lo (nodes ++ spare)))
    else none

module _ {D : Type 0} where
  -- `batchDoneTask`, whose function is the number 0; its data is made by `data_of`.
  abbrev pub batch_done_task : (ℕ → D) → ℕ → ℕ → Task D
  batch_done_task data_of now index = record {
    id = now;
    f = 0;
    payload = data_of index;
    need_retry = false;
    retry_times = 0;
    retry_limit = 0;
  }

  -- The loop over the functions: one that fails is passed over.
  unfoldable pub build_all :
      Task D
      → ℕ
      → List String
      → List (ℕ → List String → Option (List (Task D)))
      → Allocator D
      → Allocator D
  build_all last r ips [] a = a
  build_all last r ips (f ∷ fs) a =
      build_all last r ips fs
        (elim (f r ips) [ none ↦ a | some ts ↦ emit (puts (ts ++ (last ∷ []))) a ])

  -- The loop over the batches, `n` of them from `index` on; none is the fault of a slice out of range.
  unfoldable pub run_batches :
      (ℕ → Task D)
      → Partition
      → List String
      → List String
      → ℕ
      → ℕ
      → Allocator D
      → Option (Allocator D)
  run_batches last p ips spare zero index a = some a
  run_batches last p ips spare (suc n) index a =
      elim (slice index (index + p.batch_count) ips spare) [
        | none ↦ none
        | some l ↦
            run_batches last p ips spare n (index + 1) (
              if ltb 0 (length l) then build_all (last index) p.round l a.task_build_funcs a else a)
      ]

  -- `roundRun`, on the name of the local node and the addresses of the nodes that are alive, which are
  -- taken to stay the same over its batches.
  unfoldable pub round_run :
      (ℕ → Task D) → String → List String → List String → Allocator D → Option (Allocator D)
  round_run last me ips spare a = elim (lookup String_discrete me a.node_partition) [
    | none ↦ some a
    | some p ↦ run_batches last p ips spare p.batch_count 0 a
  ]

  -- `syncPartitions`, on data of the right type.
  unfoldable pub sync_partitions :
      (ℕ → Task D)
      → String
      → List String
      → List String
      → Partitions
      → Allocator D
      → Option (Allocator D)
  sync_partitions last me ips spare ps a =
      round_run last me ips spare (record a { node_partition = ps })
