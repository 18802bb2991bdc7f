-- ===== src/Cluster/Tenure.antt =====
-- Who leads, under the life cycle (Life) and the election (Election) of a member.
use own_x_go.Base.{
  ℕ, ◌≡◌, String, List, [], ◌∷◌, Option, none, some, Bool, true, false, arith, if_both, if_each,
  ◌||◌,
}
use own_x_go.Cluster.State.{
  cluster, single, Cluster, NodeMsg, modify, closed, is_leader, sign_leader, Model, get_my_id,
  is_closed,
}
use own_x_go.Cluster.Leadership.{IsCoherent, sign_leader-IsCoherent}
use own_x_go.Cluster.Life.{
  start_up, close, beat_node, disconnect_all, watch_leader, trim_votes, beat_all, create_event,
  heartbeat, start_model,
}
use own_x_go.Cluster.Election.{
  leave, ask, send_all, enter, send_and_wait, confirm, advance, stop_waiting, poll, Phase,
  count_votes, become_candidate, vote_self, asking, asked, running, polled, confirming, done, stand,
}
use own_x_go.Cluster.Node.{Node}
use own_x_go.Cluster.Client.{has_leader}

create_event-IsCoherent :
    (me name : String) (c : Cluster) → IsCoherent me c → IsCoherent me (create_event name c)
unfolding create_event
create_event-IsCoherent me name c v = ground arith

disconnect_all-IsCoherent :
    (me : String) (is : List String) (c : Cluster)
    → IsCoherent me c
    → IsCoherent me (disconnect_all is c)
unfolding disconnect_all
disconnect_all-IsCoherent me [] c v = v
disconnect_all-IsCoherent me (i ∷ is) c v =
    disconnect_all-IsCoherent me is _
      (if_both (IsCoherent me) (c.nodes i).connected (ground arith) v)

beat_node-IsCoherent :
    (me : String) (now : ℕ) (i : String) (c : Cluster)
    → IsCoherent me c
    → IsCoherent me (beat_node now i c)
unfolding beat_node
beat_node-IsCoherent me now i c v = ground arith

beat_all-IsCoherent :
    (me : String) (now : ℕ) (is : List String) (c : Cluster)
    → IsCoherent me c
    → IsCoherent me (beat_all now is c)
unfolding beat_all
beat_all-IsCoherent me now [] c v = v
beat_all-IsCoherent me now (i ∷ is) c v =
    beat_all-IsCoherent me now is (beat_node now i c) (beat_node-IsCoherent me now i c v)

send_all-IsCoherent :
    (me : String) (is : List String) (flag : ℕ) (m : NodeMsg) (c : Cluster)
    → IsCoherent me c
    → IsCoherent me (send_all is flag m c)
unfolding send_all
send_all-IsCoherent me [] flag m c v = v
send_all-IsCoherent me (i ∷ is) flag m c v = send_all-IsCoherent me is flag m _ (ground arith)

start_model-IsCoherent :
    (me : String) (model : Model) (my : Option String) (c : Cluster)
    → IsCoherent me c
    → {d : Cluster} → start_model model my c ≡ some d
    → IsCoherent me d
unfolding start_model
start_model-IsCoherent me cluster none c v e = ground arith
start_model-IsCoherent me cluster (some i) c v e = ground arith
start_model-IsCoherent me single none c v e = cc
start_model-IsCoherent me single (some i) c v e = ground (arith, sign_leader-IsCoherent me c v i)

module _ (me : String) (c : Cluster) (v : IsCoherent me c) where
  pub start_up-IsCoherent : {d : Cluster} → start_up c ≡ some d → IsCoherent me d
  unfolding start_up
  start_up-IsCoherent e =
      start_model-IsCoherent me (create_event "StartUp" c).model (create_event "StartUp" c).node_my
        _ (create_event-IsCoherent me "StartUp" c v) e

  pub close-IsCoherent : IsCoherent me (close c)
  unfolding close
  close-IsCoherent =
      let b : Cluster = record c { status = closed; close_done = true } in
      let d = create_event "Close" b in
      let w : IsCoherent me d = create_event-IsCoherent me "Close" b (ground arith) in
      if_both (IsCoherent me) c.close_done v (
        disconnect_all-IsCoherent me d.nodes_all (record d { accepting = false; events = none })
          (record { here = w.here; leading = w.leading; led = w.led }))

  watch_leader-IsCoherent : (now : ℕ) (l : Option String) → IsCoherent me (watch_leader now l c)
  unfolding watch_leader
  watch_leader-IsCoherent now none = ground arith
  watch_leader-IsCoherent now (some l) = ground arith

  trim_votes-IsCoherent : IsCoherent me (trim_votes c)
  unfolding trim_votes
  trim_votes-IsCoherent = ground arith

  leave-IsCoherent : (again : Bool) → IsCoherent me (leave again c).0
  unfolding leave
  leave-IsCoherent again = create_event-IsCoherent me "ElectionFinish" _ (ground arith)

  send_and_wait-IsCoherent : (flag : ℕ) (m : NodeMsg) → IsCoherent me (send_and_wait flag m c)
  unfolding send_and_wait
  send_and_wait-IsCoherent flag m = send_all-IsCoherent me c.nodes_all flag m _ (ground arith)

  stop_waiting-IsCoherent : IsCoherent me (stop_waiting c)
  stop_waiting-IsCoherent = ground arith

  modify-IsCoherent : (i : String) (f : Node → Node) → IsCoherent me (modify i f c)
  unfolding modify
  modify-IsCoherent i f = ground arith

  vote_self-IsCoherent : (t : ℕ) → IsCoherent me (vote_self t c)
  unfolding vote_self
  vote_self-IsCoherent t = ground arith

-- The state that a stretch of the election leaves.
abbrev Leaves : String → Cluster × Phase → Type 0
Leaves me r = IsCoherent me r.0

module _ (me : String) (c : Cluster) (v : IsCoherent me c) where
  pub enter-IsCoherent : IsCoherent me (enter c).0
  unfolding enter
  enter-IsCoherent =
      let b = create_event "ElectionStart" c in
      let w = create_event-IsCoherent me "ElectionStart" c v in
      let d : Cluster = record b { fighting = true } in
      let x : IsCoherent me d = record { here = w.here; leading = w.leading; led = w.led } in
      if_both (Leaves me) _ (create_event-IsCoherent me "ElectionFinish" b w)
        (if_both (Leaves me) _ (modify-IsCoherent me d x _ _) (leave-IsCoherent me d x true))

  ask-IsCoherent : (t : ℕ) → IsCoherent me (ask t c).0
  unfolding ask
  ask-IsCoherent t =
      if_both (Leaves me) _ (leave-IsCoherent me c v false)
        (if_both (Leaves me) _ (send_and_wait-IsCoherent me c v _ _) v)

  candidate-IsCoherent :
      (has_leader c.node_leader || is_closed c.status || is_leader c.status) ≡ false
      → IsCoherent me (record (stop_waiting c) { status = stand c.status })
  candidate-IsCoherent e = ground arith

  become_candidate-IsCoherent : (t : ℕ) → IsCoherent me (become_candidate t c).0
  unfolding become_candidate
  become_candidate-IsCoherent t =
      let w = stop_waiting-IsCoherent me c v in
      if_each (Leaves me) (has_leader c.node_leader || is_closed c.status || is_leader c.status)
        (λ e. leave-IsCoherent me (stop_waiting c) w false)
        (λ e.
          modify-IsCoherent me (record (stop_waiting c) { status = stand (stop_waiting c).status })
            (candidate-IsCoherent e) _ _)

  poll-IsCoherent : (t : ℕ) → IsCoherent me (poll t c).0
  unfolding poll
  poll-IsCoherent t = if_both (Leaves me) _ (leave-IsCoherent me c v false) (
      if_both (Leaves me) _ (leave-IsCoherent me c v true)
        (if_both (Leaves me) _ (send_and_wait-IsCoherent me c v _ _) v))

  count_votes-IsCoherent : (t : ℕ) → IsCoherent me (count_votes t c).0
  unfolding count_votes
  count_votes-IsCoherent t =
      let d = vote_self t (stop_waiting c) in
      let w = vote_self-IsCoherent me (stop_waiting c) (stop_waiting-IsCoherent me c v) t in
      if_both (Leaves me) _ (send_and_wait-IsCoherent me d w _ _) (leave-IsCoherent me d w true)

  confirm-IsCoherent : (answers : List NodeMsg) → IsCoherent me (confirm answers c).0
  unfolding confirm
  confirm-IsCoherent answers =
      let d = stop_waiting c in
      let w = stop_waiting-IsCoherent me c v in
      if_both (Leaves me) _
        (leave-IsCoherent me (sign_leader (get_my_id d) d).0 (sign_leader-IsCoherent me d w _) _)
        (leave-IsCoherent me d w true)

  pub advance-IsCoherent :
      (p : Phase) (answers : List NodeMsg) → IsCoherent me (advance p answers c).0
  unfolding advance
  advance-IsCoherent (asking t) answers = ask-IsCoherent t
  advance-IsCoherent (asked t) answers = become_candidate-IsCoherent t
  advance-IsCoherent (running t) answers = poll-IsCoherent t
  advance-IsCoherent (polled t) answers = count_votes-IsCoherent t
  advance-IsCoherent (confirming t) answers = confirm-IsCoherent answers
  advance-IsCoherent (done again) answers = v

  pub heartbeat-IsCoherent : (now : ℕ) → IsCoherent me (heartbeat now c).0
  unfolding heartbeat
  heartbeat-IsCoherent now =
      let w =
        if_both (IsCoherent me) (is_leader c.status) (beat_all-IsCoherent me now c.nodes_all c v)
          (watch_leader-IsCoherent me c v now c.node_leader) in
      if_both (λ (r : Cluster × Bool). IsCoherent me r.0) _ (trim_votes-IsCoherent me _ w)
        (if_both (λ (r : Cluster × Bool). IsCoherent me r.0) _ v v)
