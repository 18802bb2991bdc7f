-- ===== src/Cluster/Member.antt =====
-- A member over a history: every entry point of the package that changes it, in any order. The
-- election is a call of `enter` or `advance` at any phase, so the histories are more than those
-- that the goroutines of the source can make.
use own_x_go.Base.{ℕ, ◌≡◌, String, List, [], ◌∷◌, some, Bool, arith, if_both, ltb}
use own_x_go.Cluster.State.{Cluster, NodeMsg, get_my_term, is_closed}
use own_x_go.Cluster.Leadership.{
  IsCoherent, on_session_connected-IsCoherent, learn-IsCoherent, on_session_closed-IsCoherent,
  release_old-IsCoherent, on_ask_leader-IsCoherent, reply_ok-IsCoherent, release_leader-IsCoherent,
  on_get_vote-IsCoherent, push_task-IsCoherent, on_told_leader-IsCoherent, on_vote-IsCoherent,
  accept_leader-IsCoherent, on_confirm-IsCoherent,
}
use own_x_go.Cluster.Connect.{hold_node, hold_all, hold_connection}
use own_x_go.Cluster.Life.{start_up, heartbeat, close}
use own_x_go.Cluster.Messages.{register_func, JobInfo}
use own_x_go.Cluster.Client.{client_receive, on_session_connected, on_session_closed}
use own_x_go.Cluster.Server.{server_receive, on_broadcast_leader, release_old, learn}
use own_x_go.Cluster.Tenure.{
  start_up-IsCoherent, heartbeat-IsCoherent, enter-IsCoherent, advance-IsCoherent, close-IsCoherent,
}
use own_x_go.Cluster.Election.{Phase, enter, advance}

pub data Event : Type 0 where
  -- `OnMessageReceived` of the acceptor, and of a connection to another node
  asked_by : (flag : ℕ) (msg : NodeMsg) (job : JobInfo) (now : ℕ) → Event
  answered_by : (flag : ℕ) (msg : NodeMsg) (now : ℕ) → Event
  -- `OnSessionConnected` and `OnSessionClosed`
  connects : (node : String) → Event
  loses : (node : String) (now : ℕ) → Event
  -- a round of `heartbeat`
  beats : (now : ℕ) → Event
  -- a stretch of `fightElection`
  enters : Event
  advances : (phase : Phase) (answers : List NodeMsg) → Event
  registers : (task_name : String) (job_func : ℕ) → Event
  closes : Event
  -- a round of `holdConnection`
  holds : (reaches : String → Bool) → Event

unfoldable pub handle : Event → Cluster → Cluster
handle (asked_by flag m job now) c = server_receive flag m job now c
handle (answered_by flag m now) c = client_receive flag m now c
handle (connects i) c = on_session_connected i c
handle (loses i now) c = on_session_closed i now c
handle (beats now) c = (heartbeat now c).0
handle enters c = (enter c).0
handle (advances p answers) c = (advance p answers c).0
handle (registers name f) c = (register_func name f c).0
handle closes c = close c
handle (holds reaches) c = (hold_connection reaches c).0

unfoldable pub run : List Event → Cluster → Cluster
run [] c = c
run (e ∷ es) c = run es (handle e c)

hold_all-IsCoherent :
    (me : String) (reaches : String → Bool) (is : List String) (c : Cluster)
    → IsCoherent me c
    → IsCoherent me (hold_all reaches is c)
unfolding hold_all hold_node
hold_all-IsCoherent me reaches [] c v = v
hold_all-IsCoherent me reaches (i ∷ is) c v =
    hold_all-IsCoherent me reaches is (hold_node reaches i c) (ground arith)

module _ (me : String) where
  hold_connection-IsCoherent :
      (reaches : String → Bool) (c : Cluster)
      → IsCoherent me c
      → IsCoherent me (hold_connection reaches c).0
  unfolding hold_connection
  hold_connection-IsCoherent reaches c v =
      if_both (λ (r : Cluster × Bool). IsCoherent me r.0) (is_closed c.status) v
        (hold_all-IsCoherent me reaches c.nodes_all c v)

module _ (me : String) (c : Cluster) (v : IsCoherent me c) where
  on_broadcast_leader-IsCoherent :
      (m : NodeMsg) (now : ℕ) → IsCoherent me (on_broadcast_leader m now c)
  unfolding on_broadcast_leader
  on_broadcast_leader-IsCoherent m now =
      let w = release_old-IsCoherent me c v m now in
      let x = learn-IsCoherent me (release_old m now c) w m now in
      let y = reply_ok-IsCoherent me _ x in
      if_both (IsCoherent me) (ltb m.term (get_my_term c)) (ground arith)
        (accept_leader-IsCoherent me _ y m)

  server_receive-IsCoherent :
      (flag : ℕ) (m : NodeMsg) (job : JobInfo) (now : ℕ)
      → IsCoherent me (server_receive flag m job now c)
  unfolding server_receive
  server_receive-IsCoherent flag m job now =
      if_both (IsCoherent me) _ (on_ask_leader-IsCoherent me c v m) (
        if_both (IsCoherent me) _ (on_get_vote-IsCoherent me c v m now) (
          if_both (IsCoherent me) _ (on_broadcast_leader-IsCoherent m now)
            (if_both (IsCoherent me) _ (push_task-IsCoherent me c v job.name job.payload) v)))

  client_receive-IsCoherent :
      (flag : ℕ) (m : NodeMsg) (now : ℕ) → IsCoherent me (client_receive flag m now c)
  unfolding client_receive
  client_receive-IsCoherent flag m now =
      let w = learn-IsCoherent me c v m now in
      let d = learn m now c in
      if_both (IsCoherent me) _ (release_leader-IsCoherent me c v now) (
        if_both (IsCoherent me) _ (on_told_leader-IsCoherent me d w m) (
          if_both (IsCoherent me) _ (on_vote-IsCoherent me d w m)
            (if_both (IsCoherent me) _ (on_confirm-IsCoherent me d w m now) w)))

  register_func-IsCoherent : (name : String) (f : ℕ) → IsCoherent me (register_func name f c).0
  unfolding register_func
  register_func-IsCoherent name f = ground arith

  pub handle-IsCoherent : (e : Event) → IsCoherent me (handle e c)
  unfolding handle
  handle-IsCoherent (asked_by flag m job now) = server_receive-IsCoherent flag m job now
  handle-IsCoherent (answered_by flag m now) = client_receive-IsCoherent flag m now
  handle-IsCoherent (connects i) = on_session_connected-IsCoherent me c v i
  handle-IsCoherent (loses i now) = on_session_closed-IsCoherent me c v i now
  handle-IsCoherent (beats now) = heartbeat-IsCoherent me c v now
  handle-IsCoherent enters = enter-IsCoherent me c v
  handle-IsCoherent (advances p answers) = advance-IsCoherent me c v p answers
  handle-IsCoherent (registers name f) = register_func-IsCoherent name f
  handle-IsCoherent closes = close-IsCoherent me c v
  handle-IsCoherent (holds reaches) = hold_connection-IsCoherent me reaches c v

pub run_keeps-IsCoherent :
    (me : String) (es : List Event) (c : Cluster) → IsCoherent me c → IsCoherent me (run es c)
unfolding run
run_keeps-IsCoherent me [] c v = v
run_keeps-IsCoherent me (e ∷ es) c v =
    run_keeps-IsCoherent me es (handle e c) (handle-IsCoherent me c v e)

-- Start a member whose status and leader agree, in either model, and let any history follow: they
-- agree still. The node that it takes for the leader is itself exactly when its status is leader,
-- apart from a closed member.
pub run-IsCoherent :
    (me : String) (es : List Event) (c d : Cluster)
    → IsCoherent me c
    → start_up c ≡ some d
    → IsCoherent me (run es d)
run-IsCoherent me es c d v e = run_keeps-IsCoherent me es d (start_up-IsCoherent me c v e)
