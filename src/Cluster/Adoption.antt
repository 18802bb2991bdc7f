-- ===== src/Cluster/Adoption.antt =====
-- From where a member takes a new leader, on the messages of cluster/contact.go,
-- `genServiceAcceptorHandler`.
use own_x_go.Base.{
  ℕ, ◌≤◌, ◌≡◌, ◌≢◌, String, String_discrete, some, true, arith, has, Bool-cases, inl, inr, ltb,
}
use own_x_go.Cluster.State.{Cluster, NodeMsg, sign_leader, get_my_term}
use own_x_go.Cluster.Messages.{JobInfo, push_task}
use own_x_go.Cluster.Server.{
  on_ask_leader, on_get_vote, step_down, release_old, learn, accept_leader, reply_ok,
  on_broadcast_leader, server_receive,
}

-- `d` has no leader that `c` did not have.
abbrev pub Keeps : Cluster → Cluster → Type 0
Keeps c d = (l : String) → d.node_leader ≡ some l → c.node_leader ≡ some l

module _ (c : Cluster) where
  on_ask_leader-Keeps : (m : NodeMsg) → Keeps c (on_ask_leader m c)
  unfolding on_ask_leader
  on_ask_leader-Keeps m l e = ground (arith, e)

  on_get_vote-Keeps : (m : NodeMsg) (now : ℕ) → Keeps c (on_get_vote m now c)
  unfolding on_get_vote step_down
  on_get_vote-Keeps m now l e = ground (arith, e)

  push_task-Keeps : (n p : String) → Keeps c (push_task n p c)
  unfolding push_task
  push_task-Keeps n p l e = ground (arith, e)

  before_accept-Keeps :
      (m : NodeMsg) (now : ℕ) → Keeps c (reply_ok (learn m now (release_old m now c)))
  unfolding reply_ok learn release_old
  before_accept-Keeps m now l e = ground (arith, e)

  accept_leader-adopts :
      (m : NodeMsg) (l : String)
      → (accept_leader m c).node_leader ≡ some l
      → c.node_leader ≢ some l
      → (l ≡ m.leader_id) × (has String_discrete l c.nodes_all ≡ true)
  unfolding accept_leader sign_leader
  accept_leader-adopts m l e n = ground (arith, e, n)

module _ (m : NodeMsg) (now : ℕ) (c : Cluster) where
  before_accept-all : (reply_ok (learn m now (release_old m now c))).nodes_all ≡ c.nodes_all
  unfolding reply_ok learn release_old
  before_accept-all = ground arith

  on_broadcast_leader-adopts :
      (l : String)
      → (on_broadcast_leader m now c).node_leader ≡ some l
      → c.node_leader ≢ some l
      → (l ≡ m.leader_id) × (has String_discrete l c.nodes_all ≡ true) × (get_my_term c ≤ m.term)
  unfolding on_broadcast_leader
  on_broadcast_leader-adopts l e n = elim (Bool-cases (ltb m.term (get_my_term c))) [
    | inl old ↦ absurd (ground (arith, old, e, n))
    | inr fresh ↦
        let b = reply_ok (learn m now (release_old m now c)) in
        let f : (accept_leader m b).node_leader ≡ some l = ground (arith, fresh, e) in
        let (same, known) =
          accept_leader-adopts b m l f (λ k. n (before_accept-Keeps c m now l k)) in
        (same, rw⁻¹ before_accept-all known, ground (arith, fresh))
  ]

  -- A message to the acceptor gives a member a leader that it did not have only if it is a broadcast
  -- for that leader, which is one of the nodes, and the term of the broadcast is not behind that of
  -- the member.
  pub server_receive-adopts :
      (flag : ℕ) (job : JobInfo) (l : String)
      → (server_receive flag m job now c).node_leader ≡ some l
      → c.node_leader ≢ some l
      → (flag ≡ 14)
        × (l ≡ m.leader_id)
        × (has String_discrete l c.nodes_all ≡ true)
        × (get_my_term c ≤ m.term)
  unfolding server_receive
  server_receive-adopts flag job l e n = ground (
    arith,
    e,
    n,
    on_broadcast_leader-adopts l,
    on_ask_leader-Keeps c m l,
    on_get_vote-Keeps c m now l,
    push_task-Keeps c job.name job.payload l,
  )
