-- ===== src/Cluster/Terms/Histories.antt =====
-- The terms that a member records, over any history of the entry points of cluster/.
use own_x_go.Base.{
  ℕ, ◌≡◌, refl, ◌∙◌, String, List, [], ◌∷◌, none, some, Option, Bool, true, false, not,
  if◌then◌else◌, if_both, arith,
}
use own_x_go.Cluster.Node.{set_term, clear}
use own_x_go.Cluster.State.{
  Cluster, NodeMsg, emit, sends, disconnects, closed, get_my_id, get_my_term, is_leader, is_closed,
  is_ready, modify, sign_leader,
}
use own_x_go.Cluster.Messages.{
  register_func, msg_s_get_vote, msg_s_ask_leader, msg_s_broadcast_leader,
}
use own_x_go.Cluster.Client.{on_session_connected, on_session_closed}
use own_x_go.Cluster.Connect.{hold_node, hold_all, hold_connection}
use own_x_go.Cluster.Life.{
  create_event, beat_node, beat_all, watch_leader, disconnect_all, close, trim_votes, heartbeat,
}
use own_x_go.Cluster.Election.{
  Phase, asking, asked, running, polled, confirming, done, advance, enter, ask, become_candidate,
  poll, vote_self, count_votes, confirm, leave, send_all, send_and_wait, stop_waiting, message,
}
use own_x_go.Cluster.Leadership.{IsCoherent}
use own_x_go.Cluster.Terms.{SameTerms, Grows, server_receive-Grows, client_receive-Grows}
use own_x_go.Cluster.Member.{
  Event, handle, run, handle-IsCoherent, asked_by, answered_by, connects, loses, beats, enters,
  advances, registers, closes, holds,
}

SameTerms-trans : (c d e : Cluster) → SameTerms c d → SameTerms d e → SameTerms c e
SameTerms-trans c d e p q i = q i ∙ p i

SameTerms-Grows : (me : String) (c d : Cluster) → SameTerms c d → Grows me c d
SameTerms-Grows me c d s = record {
  le = λ i. omega (arith, s i);
  bounded = λ b i. omega (arith, s i, s me, b i);
}

module _ (c : Cluster) where
  create_event-terms : (name : String) → SameTerms c (create_event name c)
  unfolding create_event
  create_event-terms name i = ground arith

  create_event-my : (name : String) → (create_event name c).node_my ≡ c.node_my
  unfolding create_event
  create_event-my name = ground arith

  sign_leader-same : (l : String) → SameTerms c (sign_leader l c).0
  unfolding sign_leader
  sign_leader-same l i = ground arith

  on_session_connected-terms : (t : String) → SameTerms c (on_session_connected t c)
  unfolding on_session_connected
  on_session_connected-terms t i = ground arith

  on_session_closed-terms : (t : String) (now : ℕ) → SameTerms c (on_session_closed t now c)
  unfolding on_session_closed
  on_session_closed-terms t now i = ground arith

  register_func-terms : (name : String) (f : ℕ) → SameTerms c (register_func name f c).0
  unfolding register_func
  register_func-terms name f i = ground arith

  beat_node-terms : (now : ℕ) (j : String) → SameTerms c (beat_node now j c)
  unfolding beat_node
  beat_node-terms now j i = ground arith

  watch_leader-terms : (now : ℕ) (l : Option String) → SameTerms c (watch_leader now l c)
  unfolding watch_leader
  watch_leader-terms now none i = ground arith
  watch_leader-terms now (some l) i = ground arith

  trim_votes-terms : SameTerms c (trim_votes c)
  unfolding trim_votes
  trim_votes-terms i = ground arith

  disconnect-terms :
      (j : String)
      → SameTerms c (
          if (c.nodes j).connected
          then modify j (λ n. record n { connected = false }) (emit (disconnects j) c)
          else c)
  unfolding modify
  disconnect-terms j i = ground arith

  leave-terms : (again : Bool) → SameTerms c (leave again c).0
  unfolding leave create_event
  leave-terms again i = ground arith

  vote_self-terms : (t : ℕ) → SameTerms c (vote_self t c)
  unfolding vote_self
  vote_self-terms t i = ground arith

beat_all-terms : (now : ℕ) (is : List String) (c : Cluster) → SameTerms c (beat_all now is c)
unfolding beat_all
beat_all-terms now [] c i = refl
beat_all-terms now (j ∷ is) c i =
    beat_all-terms now is (beat_node now j c) i ∙ beat_node-terms c now j i

disconnect_all-terms : (is : List String) (c : Cluster) → SameTerms c (disconnect_all is c)
unfolding disconnect_all
disconnect_all-terms [] c i = refl
disconnect_all-terms (j ∷ is) c i = disconnect_all-terms is _ i ∙ disconnect-terms c j i

close-terms : (c : Cluster) → SameTerms c (close c)
unfolding close
close-terms c =
    let b = record c { status = closed; close_done = true } in
    let d = create_event "Close" b in
    if_both (SameTerms c) c.close_done (λ i. refl)
      (λ i.
        disconnect_all-terms d.nodes_all (record d { accepting = false; events = none }) i
        ∙ create_event-terms b "Close" i)

heartbeat-terms : (now : ℕ) (c : Cluster) → SameTerms c (heartbeat now c).0
unfolding heartbeat
heartbeat-terms now c =
    let beat =
      if_both (SameTerms c) (is_leader c.status) (beat_all-terms now c.nodes_all c)
        (watch_leader-terms c now c.node_leader) in
    if_both (λ (r : Cluster × Bool). SameTerms c r.0) (is_ready c)
      (λ i. trim_votes-terms _ i ∙ beat i)
      (if_both (λ (r : Cluster × Bool). SameTerms c r.0) (is_closed c.status) (λ i. refl)
        (λ i. refl))

hold_all-terms :
    (reaches : String → Bool) (is : List String) (c : Cluster) → SameTerms c (hold_all reaches is c)
unfolding hold_all hold_node
hold_all-terms reaches [] c i = refl
hold_all-terms reaches (j ∷ is) c i =
    ground (arith, hold_all-terms reaches is (hold_node reaches j c) i)

hold_connection-terms :
    (reaches : String → Bool) (c : Cluster) → SameTerms c (hold_connection reaches c).0
unfolding hold_connection
hold_connection-terms reaches c =
    if_both (λ (r : Cluster × Bool). SameTerms c r.0) (is_closed c.status) (λ i. refl)
      (hold_all-terms reaches c.nodes_all c)

send_all-terms :
    (is : List String) (flag : ℕ) (m : NodeMsg) (c : Cluster) → SameTerms c (send_all is flag m c)
unfolding send_all
send_all-terms [] flag m c i = refl
send_all-terms (j ∷ is) flag m c i =
    ground
      (arith, send_all-terms is flag m c i, send_all-terms is flag m (emit (sends j flag m) c) i)

send_and_wait-terms : (flag : ℕ) (m : NodeMsg) (c : Cluster) → SameTerms c (send_and_wait flag m c)
unfolding send_and_wait
send_and_wait-terms flag m c i = send_all-terms c.nodes_all flag m (record c { waiting = true }) i

advance-terms :
    (p : Phase) (answers : List NodeMsg) (c : Cluster) → SameTerms c (advance p answers c).0
unfolding advance ask become_candidate poll count_votes confirm modify clear
advance-terms (asking t) answers c i = ground (
  arith,
  leave-terms c false i,
  send_and_wait-terms msg_s_ask_leader (message (get_my_id c) t "" "" "") c i,
)
advance-terms (asked t) answers c i = ground (arith, leave-terms (stop_waiting c) false i)
advance-terms (running t) answers c i = ground (
  arith,
  leave-terms c false i,
  leave-terms c true i,
  send_and_wait-terms msg_s_get_vote (message (get_my_id c) (get_my_term c) "" "" "") c i,
)
advance-terms (polled t) answers c i =
    let d = vote_self t (stop_waiting c) in
    let m = message (get_my_id d) t (get_my_id d) "" "1" in
    ground (
      arith,
      vote_self-terms (stop_waiting c) t i,
      leave-terms d true i,
      send_and_wait-terms msg_s_broadcast_leader m d i,
    )
advance-terms (confirming t) answers c i =
    let d = stop_waiting c in
    let (e, signed) = sign_leader (get_my_id d) d in
    ground (
      arith,
      leave-terms d true i,
      leave-terms e (not signed) i,
      sign_leader-same d (get_my_id d) i,
    )
advance-terms (done again) answers c i = refl

module _ (me : String) where
  enter-Grows : (c : Cluster) → c.node_my ≡ some me → Grows me c (enter c).0
  unfolding enter modify set_term
  enter-Grows c here =
      let b = create_event "ElectionStart" c in
      let d = record b { fighting = true } in
      record {
        le = λ i. ground (
          arith,
          here,
          create_event-my c "ElectionStart",
          create_event-terms c "ElectionStart" i,
          create_event-terms b "ElectionFinish" i,
          leave-terms d true i,
        );
        bounded = λ f i. ground (
          arith,
          here,
          f i,
          create_event-my c "ElectionStart",
          create_event-terms c "ElectionStart" i,
          create_event-terms c "ElectionStart" me,
          create_event-terms b "ElectionFinish" i,
          create_event-terms b "ElectionFinish" me,
          leave-terms d true i,
          leave-terms d true me,
        );
      }

  handle-Grows : (c : Cluster) (e : Event) → c.node_my ≡ some me → Grows me c (handle e c)
  unfolding handle
  handle-Grows c (asked_by flag m job now) h = server_receive-Grows me c h now m flag job
  handle-Grows c (answered_by flag m now) h = client_receive-Grows me c h now m flag
  handle-Grows c (connects j) h = SameTerms-Grows me c _ (on_session_connected-terms c j)
  handle-Grows c (loses j now) h = SameTerms-Grows me c _ (on_session_closed-terms c j now)
  handle-Grows c (beats now) h = SameTerms-Grows me c _ (heartbeat-terms now c)
  handle-Grows c enters h = enter-Grows c h
  handle-Grows c (advances p ms) h = SameTerms-Grows me c _ (advance-terms p ms c)
  handle-Grows c (registers name f) h = SameTerms-Grows me c _ (register_func-terms c name f)
  handle-Grows c (holds reaches) h = SameTerms-Grows me c _ (hold_connection-terms reaches c)
  handle-Grows c closes h = SameTerms-Grows me c _ (close-terms c)

  -- Over any history of the entry points of a member no term that it records of a node goes down; and
  -- none passes the term of the local node, if none did before.
  pub run-Grows : (es : List Event) (c : Cluster) → IsCoherent me c → Grows me c (run es c)
  unfolding run
  run-Grows [] c v = record { le = λ i. omega arith; bounded = λ b. b }
  run-Grows (e ∷ es) c v =
      let d = handle e c in
      let g = handle-Grows c e v.here in
      let r = run-Grows es d (handle-IsCoherent me c v e) in
      record { le = λ i. omega (arith, g.le i, r.le i); bounded = λ b. r.bounded (g.bounded b) }
