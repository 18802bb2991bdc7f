-- ===== src/Cluster/Ballots/Handlers.antt =====
-- What the entry points of cluster/ do to votes, but for a request for a vote and the answer to one.
use own_x_go.Base.{ℕ, ◌≡◌, ◌≢◌, ◌≤◌, String, some, arith, if_both, if_each, ◌==◌, length, ltb, ◌&&◌}
use own_x_go.Cluster.State.{Cluster, NodeMsg, get_my_term}
use own_x_go.Cluster.Messages.{
  JobInfo, msg_s_get_vote, msg_s_ask_leader, msg_r_get_vote, msg_r_leader, msg_r_ask_leader,
  register_func,
}
use own_x_go.Cluster.Server.{server_receive, learn}
use own_x_go.Cluster.Client.{
  client_receive, on_told_leader, on_confirm, has_leader, on_session_connected, on_session_closed,
}
use own_x_go.Cluster.Connect.{hold_connection}
use own_x_go.Cluster.Life.{heartbeat, close}
use own_x_go.Cluster.Election.{enter}
use own_x_go.Cluster.Member.{
  Event, handle, asked_by, answered_by, connects, loses, beats, enters, advances, registers, closes,
  holds,
}
use own_x_go.Cluster.Ballots.{
  Quiet, Quiet-refl, Quiet-trans, release_leader-Quiet, learn-Quiet, on_ask_leader-Quiet,
  on_broadcast_leader-Quiet, push_task-Quiet, on_told_leader-Quiet, on_confirm-Quiet,
  on_session_connected-Quiet, on_session_closed-Quiet, register_func-Quiet, heartbeat-Quiet,
  close-Quiet, hold_connection-Quiet,
}
use own_x_go.Cluster.Ballots.Stretches.{Settles, Quiet-Settles, advance-Settles, enter-Quiet}

-- An event that is neither a request for a vote nor the answer to one, and no round of heartbeat that
-- trims the terms of a member.
abbrev pub IsLocal : String → Cluster → Event → Type 0
IsLocal me c (asked_by flag m job now) = flag ≢ msg_s_get_vote
IsLocal me c (answered_by flag m now) = flag ≢ msg_r_get_vote
IsLocal me c (beats now) =
    (length (c.nodes me).vote_count ≤ 20) × (length (c.nodes me).vote_node ≤ 20)
IsLocal me c _ = Unit {0}

module _ (me : String) (c : Cluster) where
  server_receive-Quiet :
      (flag : ℕ) (m : NodeMsg) (job : JobInfo) (now : ℕ)
      → flag ≢ msg_s_get_vote
      → Quiet me c (server_receive flag m job now c)
  unfolding server_receive
  server_receive-Quiet flag m job now other =
      if_each (Quiet me c) (flag == msg_s_ask_leader) (λ _. on_ask_leader-Quiet me c m)
        (λ _.
          if_each (Quiet me c) (flag == msg_s_get_vote) (λ e. absurd (other (ground (arith, e))))
            (λ _. if_both (Quiet me c) _ (on_broadcast_leader-Quiet me m now c) (
              if_both (Quiet me c) _ (push_task-Quiet me c job.name job.payload)
                (Quiet-refl me c))))

  client_receive-Quiet :
      (flag : ℕ) (m : NodeMsg) (now : ℕ)
      → flag ≢ msg_r_get_vote
      → Quiet me c (client_receive flag m now c)
  unfolding client_receive
  client_receive-Quiet flag m now other =
      let d = learn m now c in
      let q = learn-Quiet me c m now in
      if_each (Quiet me c) (has_leader c.node_leader && ltb (get_my_term c) m.term)
        (λ _. release_leader-Quiet me c now)
        (λ _.
          if_each (Quiet me c) (flag == msg_r_ask_leader)
            (λ _. Quiet-trans me c d (on_told_leader m d) q (on_told_leader-Quiet me d m))
            (λ _.
              if_each (Quiet me c) (flag == msg_r_get_vote)
                (λ e. absurd (other (ground (arith, e))))
                (λ _.
                  if_both (Quiet me c) (flag == msg_r_leader)
                    (Quiet-trans me c d (on_confirm m now d) q (on_confirm-Quiet me d m now)) q)))

  -- A local event settles the votes of every term.
  pub handle-Settles :
      (t : ℕ) (e : Event)
      → c.node_my ≡ some me
      → me ≢ ""
      → IsLocal me c e
      → Settles t me c (handle e c)
  unfolding handle
  handle-Settles t (asked_by flag m job now) h n l =
      Quiet-Settles t me c (server_receive flag m job now c) (server_receive-Quiet flag m job now l)
  handle-Settles t (answered_by flag m now) h n l =
      Quiet-Settles t me c (client_receive flag m now c) (client_receive-Quiet flag m now l)
  handle-Settles t (connects i) h n l =
      Quiet-Settles t me c (on_session_connected i c) (on_session_connected-Quiet me c i)
  handle-Settles t (loses i now) h n l =
      Quiet-Settles t me c (on_session_closed i now c) (on_session_closed-Quiet me c i now)
  handle-Settles t (beats now) h n (a, b) =
      Quiet-Settles t me c (heartbeat now c).0 (heartbeat-Quiet me now c h a b)
  handle-Settles t enters h n l = Quiet-Settles t me c (enter c).0 (enter-Quiet me c)
  handle-Settles t (advances p answers) h n l = advance-Settles me t p answers c h n
  handle-Settles t (registers name f) h n l =
      Quiet-Settles t me c (register_func name f c).0 (register_func-Quiet me c name f)
  handle-Settles t (holds reaches) h n l =
      Quiet-Settles t me c (hold_connection reaches c).0 (hold_connection-Quiet me reaches c)
  handle-Settles t closes h n l = Quiet-Settles t me c (close c) (close-Quiet me c)
