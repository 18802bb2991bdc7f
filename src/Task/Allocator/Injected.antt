-- ===== src/Task/Allocator/Injected.antt =====
-- task/node/allocator.go, `StartAfterInjected` and `roundDoneTimeout`: the allocator puts its methods
-- under names in the cluster and in the scheduler, and a round that is not over in time is ended.
use own_x_go.Base.{
  ℕ, ◌≡◌, ◌==◌, if◌then◌else◌, String, String_discrete, Option, none, some, true, ite, lookup,
  insert, lookup-insert, unequal, refl, ap, arith, ◌∙◌,
}
use own_x_go.Cluster.State.{Cluster, NodeMsg, runs, emit}
use own_x_go.Cluster.Messages.{JobInfo, register_func, push_task, msg_s_publish_job}
use own_x_go.Cluster.Server.{server_receive}
use own_x_go.Task.Scheduler.{Scheduler, calls_of, round_done, round_call_registry}
use own_x_go.Task.Scheduler as Scheduler
use own_x_go.Task.Allocator.{Allocator, prev_check}

abbrev pub sync_partition_name : String
sync_partition_name = "task_node_sync_partition"

abbrev pub sync_partition_done_name : String
sync_partition_done_name = "task_node_sync_partition_done"

abbrev pub manual_cut_in_line_name : String
manual_cut_in_line_name = "task_node_cut_in_line"

register_func-registry :
    (n : String) (f : ℕ) (c : Cluster)
    → ¬ (n ≡ "")
    → (register_func n f c).0.task_registry ≡ insert String_discrete n f c.task_registry
unfolding register_func
register_func-registry n f c named = ground arith

abbrev pub run_method : Option ℕ → String → Cluster → Cluster
run_method m payload c = elim m [ none ↦ c | some f ↦ emit (runs f payload) c ]

push_task-run :
    (name payload : String) (c : Cluster)
    → push_task name payload c ≡ run_method (lookup String_discrete name c.task_registry) payload c
unfolding push_task
push_task-run name payload c = refl

-- How the goroutine of `roundDoneTimeout` wakes: by a round from the channel, or after five seconds.
pub data Woken : Type 0 where
  cancelled : (rd : ℕ) → Woken
  timed_out : Woken

-- What the goroutine does for the round `r`: to the scheduler, with what that sends, and to the channel.
unfoldable pub wake : Woken → String → ℕ → Scheduler → (Scheduler × Option String) × Option ℕ
wake (cancelled rd) name r s = ((s, none), if rd == r then none else some rd)
wake timed_out name r s = (round_done name r s, none)

-- The numbers stand for `a.syncPartitions`, `a.syncPartitionDone`, `a.cutInLine` and `a.StartAlloc`.
module _ (sync sync_done cut : ℕ) where
  abbrev pub register_all : Cluster → Cluster
  register_all c =
      (register_func manual_cut_in_line_name cut
        (register_func sync_partition_done_name sync_done
          (register_func sync_partition_name sync c).0).0).0

  unfoldable pub start_after_injected :
      {D : Type 0} → ℕ → Allocator D → Cluster → Scheduler → Cluster × Scheduler
  start_after_injected alloc a c s =
      if prev_check a then (register_all c, round_call_registry a.name alloc s) else (c, s)

  -- The method for a job of this name, or else what the cluster had.
  abbrev pub method_for : String → Cluster → Option ℕ
  method_for name c = ite (String_discrete name manual_cut_in_line_name) (some cut) (
      ite (String_discrete name sync_partition_done_name) (some sync_done) (
        ite (String_discrete name sync_partition_name) (some sync)
          (lookup String_discrete name c.task_registry)))

  register_all-lookup :
      (name : String) (c : Cluster)
      → lookup String_discrete name (register_all c).task_registry ≡ method_for name c
  register_all-lookup name c =
      let d = (register_func sync_partition_name sync c).0 in
      let e = (register_func sync_partition_done_name sync_done d).0 in
      rw
        (
          register_func-registry manual_cut_in_line_name cut e
              (unequal manual_cut_in_line_name "" refl),
          register_func-registry sync_partition_done_name sync_done d
              (unequal sync_partition_done_name "" refl),
          register_func-registry sync_partition_name sync c (unequal sync_partition_name "" refl),
          lookup-insert String_discrete manual_cut_in_line_name name cut (
              insert String_discrete sync_partition_done_name sync_done
                (insert String_discrete sync_partition_name sync c.task_registry)),
          lookup-insert String_discrete sync_partition_done_name name sync_done
              (insert String_discrete sync_partition_name sync c.task_registry),
          lookup-insert String_discrete sync_partition_name name sync c.task_registry,
        )
        refl

  module _ {D : Type 0} (alloc : ℕ) (a : Allocator D) (c : Cluster) (s : Scheduler) where
    registry :
        prev_check a ≡ true
        → (name : String)
        → lookup String_discrete name (start_after_injected alloc a c s).0.task_registry
          ≡ method_for name c
    unfolding start_after_injected
    registry ready name = rw ready (register_all-lookup name c)

    -- After `StartAfterInjected` of an allocator that passes its check: a job that comes to the member
    -- runs the method of the allocator that has its name, and with any other name what it ran before;
    -- and a scheduler that passes its check calls `StartAlloc` under the name of the allocator.
    pub start_after_injected-dispatches :
        prev_check a ≡ true
        → Scheduler.prev_check s ≡ none
        → ((m : NodeMsg) (job : JobInfo) (now : ℕ)
            → let d = (start_after_injected alloc a c s).0 in
              server_receive msg_s_publish_job m job now d
              ≡ run_method (method_for job.name c) job.payload d)
          × (lookup String_discrete a.name (calls_of (start_after_injected alloc a c s).1)
              ≡ some alloc)
    unfolding server_receive start_after_injected round_call_registry
    start_after_injected-dispatches ready ok = (
      (λ m job now.
          push_task-run job.name job.payload (start_after_injected alloc a c s).0
          ∙ ap (λ r. run_method r job.payload (start_after_injected alloc a c s).0)
              (registry ready job.name)),
      rw (ready, ok, lookup-insert String_discrete a.name a.name alloc (calls_of s)) ground arith,
    )
