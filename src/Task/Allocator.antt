-- ===== src/Task/Allocator.antt =====
-- task/node/allocator.go and task/partition.go: a round is divided among the nodes, each node hands
-- its tasks to its worker, and the last node that is done ends the round. A Go map is an association
-- list, and a node's own partition is its entry there, which stands for the pointer. What a method
-- sends to the cluster, the scheduler or the worker is put in front of `trace`.
pub mod Run
pub mod Done
pub mod Cut
pub mod Ranges
pub mod Finish
pub mod Batches
pub mod Injected
use own_x_go.Base.{
  ℕ, zero, suc, ◌+◌, ◌*◌, ltb, leb, if◌then◌else◌, String, String_discrete, List, [], ◌∷◌, ◌++◌,
  map, Option, none, some, Bool, true, false, not, ite, length, take, drop, lookup, insert, has,
  is_some, ◌/◌, ◌==◌, ◌-◌, ◌%◌, ◌&&◌,
}
use own_x_go.Task.Worker.{Task}

pub record Partition : Type 0 where
  pub node_name : String
  pub start_index : ℕ
  pub end_index : ℕ
  pub sort_by : String
  pub round : ℕ
  pub round_done : Bool
  pub batch_count : ℕ
  pub fin_batch_count : ℕ
  pub batch_size : ℕ

abbrev pub Partitions : Type 0
Partitions = List (String × Partition)

-- `tells node ps` is the job `SyncPartition` for the node, `tells_done` is `SyncPartitionDone`,
-- `cuts_in` is `ManualCutInLine`; `ends_round` is `RoundDone` of the scheduler, and `puts` hands
-- tasks to the worker.
pub data Effect (D : Type 0) : Type 0 where
  tells : (node : String) (partitions : Partitions) → Effect D
  tells_done : (node : String) (partition : Partition) → Effect D
  cuts_in : (node : String) (ips : List String) → Effect D
  ends_round : (round : ℕ) → Effect D
  puts : (tasks : List (Task D)) → Effect D

-- `worker` says that the field is not nil, `cancel_round_timeout` that the channel is not.
pub record Allocator (D : Type 0) : Type 0 where
  pub name : String
  pub worker : Bool
  pub node_partition : Partitions
  pub task_build_funcs : List (ℕ → List String → Option (List (Task D)))
  pub cut_in_line_funcs : List (List String → Option (List (Task D)))
  pub cancel_round_timeout : Bool
  pub trace : List (Effect D)

-- The partition of the node `i` before the last one is cut; `each` is the number of nodes for each.
unfoldable pub partition_at : ℕ → ℕ → ℕ → String → Partition
partition_at each r i n = record {
  node_name = n;
  start_index = 0 + each * i;
  end_index = each + each * i;
  sort_by = "created_at";
  round = r;
  round_done = false;
  batch_count =
      (let size = (each + each * i) - (0 + each * i) in
        if ltb 0 (size % 1000) then size / 1000 + 1 else size / 1000);
  fin_batch_count = 0;
  batch_size = 1000;
}

-- The loop over the nodes, from the node `i` on: the last partition ends with the last index.
unfoldable pub divide : ℕ → ℕ → ℕ → ℕ → List String → Partitions → Partitions
divide count each r i [] ps = ps
divide count each r i (n ∷ ns) ps =
    let p = partition_at each r i n in
    divide count each r (i + 1) ns (
      insert String_discrete n (if i + 1 == count then record p { end_index = count - 1 } else p)
        ps)

-- `nodePartition` of `StartAlloc`, for at least one node.
unfoldable pub partitions : ℕ → List String → Partitions
partitions r ns = divide (length ns) (length ns / length ns) r 0 ns []

module _ {D : Type 0} where
  unfoldable pub new_allocator : String → Allocator D
  new_allocator n = record {
    name = n;
    worker = true;
    node_partition = [];
    task_build_funcs = [];
    cut_in_line_funcs = [];
    cancel_round_timeout = false;
    trace = [];
  }

  abbrev pub emit : Effect D → Allocator D → Allocator D
  emit e a = record a { trace = e ∷ a.trace }

  -- `prevCheck`: true is no error.
  unfoldable pub prev_check : Allocator D → Bool
  prev_check a = if length a.task_build_funcs == 0 then false else a.worker

  unfoldable pub tell_all : Partitions → List String → Allocator D → Allocator D
  tell_all ps [] a = a
  tell_all ps (n ∷ ns) a = tell_all ps ns (emit (tells n ps) a)

  -- `StartAlloc`, on the names of the nodes that are alive.
  unfoldable pub start_alloc : ℕ → List String → Allocator D → Allocator D
  start_alloc r names a =
      if prev_check a
      then (if length names == 0 then a else tell_all (partitions r names) names a)
      else a

  unfoldable pub registry_task_build :
      (ℕ → List String → Option (List (Task D))) → Allocator D → Allocator D
  registry_task_build f a = record a { task_build_funcs = a.task_build_funcs ++ (f ∷ []) }

  unfoldable pub registry_cut_in_line_task_build :
      (List String → Option (List (Task D))) → Allocator D → Allocator D
  registry_cut_in_line_task_build f a = record a {
    cut_in_line_funcs = a.cut_in_line_funcs ++ (f ∷ []);
  }

  -- `RegistryWorker`: whether it succeeds.
  unfoldable pub registry_worker : Allocator D → Allocator D × Bool
  registry_worker a = if a.worker then (a, false) else (record a { worker = true }, true)
