-- ===== src/Task/Tests.antt =====
-- Runs of the scheduler, the worker and the allocator, and the theorems at them.
use own_x_go.Base.{
  ℕ, is_some, negsuc, ◌≡◌, ◌<◌, ◌≤◌, ◌↔◌, refl, List, [], ◌∷◌, String, none, some, true,
  String_discrete, insert, lookup, All, if◌then◌else◌, ◌==◌,
}
use own_x_go.Task.Scheduler.{Scheduler, new_scheduler, round_done, calls_of, prev_check}
use own_x_go.Task.Scheduler.Rounds as Rounds
use own_x_go.Task.Scheduler.Rounds.{
  Event, starts, starts_all, dones, registers, round_done-run, round_done-start_new_round,
}
use own_x_go.Task.Worker.{Task}
use own_x_go.Task.Executor.{Host, job, remote_exec, exec, exited}
use own_x_go.Task.Allocator.{Allocator, Partition, partitions, new_allocator, partition_at, divide}
use own_x_go.Task.Allocator.Done.{partition_done, blocks}
use own_x_go.Task.Allocator.Finish.{ended, IsDone, partition_done-ended, partition_done-blocks}
use own_x_go.Task.Allocator as Allocator
use own_x_go.Task.Allocator.Injected.{
  start_after_injected, start_after_injected-dispatches, run_method, method_for,
}
use own_x_go.Cluster.State.{Cluster, NodeMsg}
use own_x_go.Cluster.Messages.{JobInfo, msg_s_publish_job}
use own_x_go.Cluster.Server.{server_receive}
use own_x_go.Cluster.Create.{fresh_cluster}

abbrev calls : List Event
calls = registers "a" 4 ∷ starts ∷ starts_all (λ n. 70) ∷ dones "a" 70 75 ∷ []

round_done-run_example :
    round_done "a" 70 (Rounds.run calls (new_scheduler "s"))
    ≡ (Rounds.run calls (new_scheduler "s"), none)
round_done-run_example = round_done-run "s" "a" 70 calls

abbrev registered : Scheduler
registered = record (new_scheduler "s") { round_call = some (("a", 4) ∷ []) }

registered-checks : prev_check registered ≡ none
unfolding prev_check new_scheduler
registered-checks = refl

registered-knows : lookup String_discrete "a" (calls_of registered) ≡ some 4
unfolding lookup String_discrete
registered-knows = refl

abbrev stubborn : Task ℕ
stubborn = record {
  id = 7;
  f = 1;
  payload = 0;
  need_retry = true;
  retry_times = 0;
  retry_limit = 3;
}

abbrev nodes : List String
nodes = "a" ∷ "b" ∷ []

abbrev allotted : Allocator ℕ
allotted = record (new_allocator "n") { node_partition = partitions 70 nodes }

allotted-knows : is_some (lookup String_discrete "b" allotted.node_partition) ≡ true
unfolding lookup String_discrete partitions divide insert
allotted-knows = refl

-- The node `b` has reported its partition, and `a` is at its only batch.
abbrev last_of_a : Partition
last_of_a = partition_at 1 70 0 "a"

abbrev ending : Allocator ℕ
ending = record allotted {
  node_partition =
      ("a", last_of_a) ∷ ("b", record (partition_at 1 70 1 "b") { round_done = true }) ∷ [];
}

ending-knows : lookup String_discrete "a" ending.node_partition ≡ some last_of_a
unfolding lookup String_discrete
ending-knows = refl

partition_done-ended_example :
    let q : Partition = record last_of_a { fin_batch_count = 1; round_done = true } in
    let ps = insert String_discrete "a" q ending.node_partition in
    (0 < ended (partition_done "a" nodes ending).0.trace)
    ↔ ((last_of_a.batch_count ≤ 1) × All (IsDone "a" ps) nodes)
unfolding partition_at new_allocator ended
partition_done-ended_example = partition_done-ended "a" nodes last_of_a ending ending-knows

partition_done-blocks_example :
    (0 < ended (partition_done "a" nodes ending).0.trace)
    ↔ ((partition_done "a" nodes ending).1 ≡ blocks)
unfolding new_allocator ended
partition_done-blocks_example = partition_done-blocks "a" nodes ending refl

-- No address answers in the first run, and each command fails from the second one on.
abbrev hosts : ℕ → Host
hosts k = record {
  connect = λ a. if k == 0 then some "timeout" else none;
  run_cmd = λ ip text. record { stdout = ""; stderr = "denied"; failed = true };
}

unreached :
    remote_exec (hosts 0) "a" (record { text = "ls"; output = none } ∷ [])
    ≡ some ("connect to host a failed. err=timeout" ∷ [])
unfolding remote_exec
unreached = refl

command_exits : exec (hosts 1) (job "a") ≡ exited
unfolding exec String_discrete
command_exits = refl

abbrev injected_allocator : Allocator ℕ
injected_allocator = record (new_allocator "n") {
  task_build_funcs = (λ r ips. some (stubborn ∷ [])) ∷ [];
}

abbrev bare : Cluster
bare = fresh_cluster (record { model = "single"; node_timeout = negsuc 4; nodes = [] }) 5

allocator-checks : Allocator.prev_check injected_allocator ≡ true
unfolding Allocator.prev_check new_allocator
allocator-checks = refl

start_after_injected-dispatches_example :
    ((m : NodeMsg) (j : JobInfo) (now : ℕ)
      → let d = (start_after_injected 1 2 3 4 injected_allocator bare registered).0 in
        server_receive msg_s_publish_job m j now d
        ≡ run_method (method_for 1 2 3 j.name bare) j.payload d)
    × (lookup String_discrete "n"
          (calls_of (start_after_injected 1 2 3 4 injected_allocator bare registered).1)
        ≡ some 4)
unfolding new_allocator
start_after_injected-dispatches_example =
    start_after_injected-dispatches 1 2 3 4 injected_allocator bare registered allocator-checks
      registered-checks
