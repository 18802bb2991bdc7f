-- ===== src/Cluster/Life.antt =====
-- The life cycle of a member: `StartUp`, `Close` and `createEvent` of cluster/service.go,
-- `updateMetrics` of cluster/metrics.go, and one round of `heartbeat` of cluster/contact.go.
use own_x_go.Base.{
  ℕ, ◌+◌, ltb, leb, if◌then◌else◌, String, String_discrete, ℕ_discrete, List, [], ◌∷◌, ◌++◌, take,
  length, Option, none, some, Bool, true, false, ite, keys, delete,
}
use own_x_go.Cluster.Node.{is_time_out}
use own_x_go.Cluster.State.{
  Cluster, Model, cluster, single, Stat, unset, follower, closed, ready_leader, ready_slave,
  not_ready, opens_service, sends, disconnects, emit, get_my_id, get_my_term, is_leader, is_closed,
  is_ready, modify, sign_leader, to_next_term,
}
use own_x_go.Cluster.Messages.{msg_s_broadcast_leader}

abbrev pub present : Option String → Bool
present none = false
present (some _) = true

unfoldable pub update_metrics : Cluster → Cluster
unfolding is_ready
update_metrics c =
    if present c.node_my
    then record c {
      gauge = some (
          if is_ready c
          then (if is_leader c.status then ready_leader else ready_slave)
          else not_ready);
    }
    else c

-- A send that the channel of 20 does not take is dropped; so is one to a nil channel.
abbrev pub offer : String × Stat → Option (List (String × Stat)) → Option (List (String × Stat))
offer e none = none
offer e (some q) = if ltb (length q) 20 then some (q ++ (e ∷ [])) else some q

unfoldable pub create_event : String → Cluster → Cluster
unfolding update_metrics
create_event name c =
    if is_closed c.status
    then c
    else update_metrics (record c { events = offer (name, c.status) c.events })

abbrev pub is_unset : Stat → Bool
is_unset unset = true
is_unset _ = false

abbrev pub open_service : Cluster → Cluster
open_service c = emit opens_service (record c { accepting = true })

-- The switch of `StartUp` and what follows it. None is the fault of a nil local node in
-- `signLeader`.
unfoldable pub start_model : Model → Option String → Cluster → Option Cluster
start_model cluster none c = some c
start_model cluster (some _) c =
    some (if is_unset c.status then open_service (record c { status = follower }) else c)
start_model single none c = none
start_model single (some me) c = some (sign_leader me c).0

unfoldable pub start_up : Cluster → Option Cluster
start_up c = let d = create_event "StartUp" c in start_model d.model d.node_my d

-- The loop over `nodesAll` in `Close`.
unfoldable pub disconnect_all : List String → Cluster → Cluster
unfolding modify
disconnect_all [] c = c
disconnect_all (i ∷ is) c = disconnect_all is (
    if (c.nodes i).connected
    then modify i (λ n. record n { connected = false }) (emit (disconnects i) c)
    else c)

unfoldable pub close : Cluster → Cluster
close c =
    if c.close_done
    then c
    else let d = create_event "Close" (record c { status = closed; close_done = true }) in
      disconnect_all d.nodes_all (record d { accepting = false; events = none })

-- What a leader does for one node: drop a silent one, and tell the others who leads.
unfoldable pub beat_node : ℕ → String → Cluster → Cluster
unfolding is_time_out
beat_node now i c = ite (String_discrete i (get_my_id c)) c (
    if (c.nodes i).connected
    then emit
        (if is_time_out now c.node_timeout (c.nodes i)
          then disconnects i
          else sends i msg_s_broadcast_leader (record {
            node_id = get_my_id c;
            term = get_my_term c;
            leader_id = get_my_id c;
            req_id = "";
            success = none;
            flag = "";
          }))
        c
    else c)

unfoldable pub beat_all : ℕ → List String → Cluster → Cluster
unfolding beat_node
beat_all now [] c = c
beat_all now (i ∷ is) c = beat_all now is (beat_node now i c)

-- What a member does about a leader that is silent, or that it has not had for six seconds.
unfoldable pub watch_leader : ℕ → Option String → Cluster → Cluster
unfolding is_time_out to_next_term
watch_leader now none c = if ltb (c.lost_leader_time + 6) now then to_next_term now c else c
watch_leader now (some l) c =
    if is_time_out now c.node_timeout (c.nodes l)
    then (if (c.nodes l).connected then emit (disconnects l) c else to_next_term now c)
    else c

-- `sort.Ints`
unfoldable pub insert_sorted : ℕ → List ℕ → List ℕ
insert_sorted x [] = x ∷ []
insert_sorted x (y ∷ ys) = if leb x y then x ∷ y ∷ ys else y ∷ insert_sorted x ys

unfoldable pub sort : List ℕ → List ℕ
unfolding insert_sorted
sort [] = []
sort (x ∷ xs) = insert_sorted x (sort xs)

unfoldable pub delete_all : {V : Type 0} → List ℕ → List (ℕ × V) → List (ℕ × V)
delete_all [] m = m
delete_all (k ∷ ks) m = delete_all ks (delete ℕ_discrete k m)

-- A map of more than 20 terms loses its ten lowest.
unfoldable pub trim : {V : Type 0} → List (ℕ × V) → List (ℕ × V)
unfolding sort delete_all
trim m = if ltb 20 (length m) then delete_all (take 10 (sort (keys m))) m else m

unfoldable pub trim_votes : Cluster → Cluster
unfolding modify trim
trim_votes c =
    modify (get_my_id c)
      (λ n. record n { vote_count = trim n.vote_count; vote_node = trim n.vote_node }) c

-- One round of `heartbeat`: the state, and whether the loop goes on.
unfoldable pub heartbeat : ℕ → Cluster → Cluster × Bool
heartbeat now c =
    if is_ready c
    then (
      trim_votes (
          if is_leader c.status
          then beat_all now c.nodes_all c
          else watch_leader now c.node_leader c),
      true,
    )
    else if is_closed c.status
    then (c, false)
    else (c, true)
