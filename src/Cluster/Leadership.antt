-- ===== src/Cluster/Leadership.antt =====
-- Who leads, in the eyes of one member, under the handlers of cluster/contact.go.
use own_x_go.Base.{ℕ, ◌≡◌, ◌⊎◌, String, some, arith}
use own_x_go.Cluster.State.{
  Cluster, NodeMsg, leader, closed, to_next_term, sign_leader, release_leader,
}
use own_x_go.Cluster.Server.{
  learn, on_get_vote, reply_ok, step_down, accept_leader, release_old, on_ask_leader,
}
use own_x_go.Cluster.Client.{
  on_confirm, deliver, on_session_connected, on_vote, on_told_leader, on_session_closed,
}
use own_x_go.Cluster.Messages.{push_task}

-- The member `me` leads exactly when its status says so, but for a closed one.
pub record IsCoherent (me : String) (c : Cluster) : Type 0 where
  pub here : c.node_my ≡ some me
  pub leading : c.status ≡ leader → c.node_leader ≡ some me
  pub led : c.node_leader ≡ some me → (c.status ≡ leader) ⊎ (c.status ≡ closed)

module _ (me : String) (c : Cluster) (v : IsCoherent me c) where
  pub sign_leader-IsCoherent : (i : String) → IsCoherent me (sign_leader i c).0
  unfolding sign_leader
  sign_leader-IsCoherent i = ground arith

  pub release_leader-IsCoherent : (now : ℕ) → IsCoherent me (release_leader now c)
  unfolding release_leader
  release_leader-IsCoherent now = ground arith

  pub on_ask_leader-IsCoherent : (m : NodeMsg) → IsCoherent me (on_ask_leader m c)
  unfolding on_ask_leader
  on_ask_leader-IsCoherent m = ground arith

  pub step_down-IsCoherent : (now : ℕ) → IsCoherent me (step_down now c)
  unfolding step_down
  step_down-IsCoherent now = ground arith

  pub on_get_vote-IsCoherent : (m : NodeMsg) (now : ℕ) → IsCoherent me (on_get_vote m now c)
  unfolding on_get_vote
  on_get_vote-IsCoherent m now = ground arith

  pub learn-IsCoherent : (m : NodeMsg) (now : ℕ) → IsCoherent me (learn m now c)
  unfolding learn
  learn-IsCoherent m now = ground arith

  pub release_old-IsCoherent : (m : NodeMsg) (now : ℕ) → IsCoherent me (release_old m now c)
  unfolding release_old
  release_old-IsCoherent m now = ground arith

  pub reply_ok-IsCoherent : IsCoherent me (reply_ok c)
  unfolding reply_ok
  reply_ok-IsCoherent = ground arith

  pub push_task-IsCoherent : (name payload : String) → IsCoherent me (push_task name payload c)
  unfolding push_task
  push_task-IsCoherent name payload = ground arith

  pub deliver-IsCoherent : (m : NodeMsg) → IsCoherent me (deliver m c)
  unfolding deliver
  deliver-IsCoherent m = ground arith

  pub to_next_term-IsCoherent : (now : ℕ) → IsCoherent me (to_next_term now c)
  unfolding to_next_term
  to_next_term-IsCoherent now = ground arith

  pub accept_leader-IsCoherent : (m : NodeMsg) → IsCoherent me (accept_leader m c)
  unfolding accept_leader
  accept_leader-IsCoherent m = ground (arith, sign_leader-IsCoherent m.leader_id)

  pub on_vote-IsCoherent : (m : NodeMsg) → IsCoherent me (on_vote m c)
  unfolding on_vote
  on_vote-IsCoherent m = ground arith

  pub on_confirm-IsCoherent : (m : NodeMsg) (now : ℕ) → IsCoherent me (on_confirm m now c)
  unfolding on_confirm
  on_confirm-IsCoherent m now = ground arith

  pub on_told_leader-IsCoherent : (m : NodeMsg) → IsCoherent me (on_told_leader m c)
  unfolding on_told_leader
  on_told_leader-IsCoherent m = ground (arith, sign_leader-IsCoherent m.leader_id)

  pub on_session_connected-IsCoherent : (i : String) → IsCoherent me (on_session_connected i c)
  unfolding on_session_connected
  on_session_connected-IsCoherent i = ground arith

  pub on_session_closed-IsCoherent :
      (i : String) (now : ℕ) → IsCoherent me (on_session_closed i now c)
  unfolding on_session_closed
  on_session_closed-IsCoherent i now = ground arith
