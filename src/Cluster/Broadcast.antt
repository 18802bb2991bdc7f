-- ===== src/Cluster/Broadcast.antt =====
-- `msgSBroadcastLeader` of cluster/contact.go: whom a member follows afterwards.
use own_x_go.Base.{
  ℕ, ◌≤◌, ◌≡◌, String, none, some, true, false, arith, has, ltb, String_discrete, Option-cases, ◌∙◌,
  inl, inr, ◌≢◌,
}
use own_x_go.Cluster.State.{Cluster, NodeMsg, sign_leader, get_my_term, follower}
use own_x_go.Cluster.Terms.{Bounded, learn-me, learn-Bounded, same_term, accept_leader-nodes}
use own_x_go.Cluster.Server.{learn, on_broadcast_leader, accept_leader, release_old, reply_ok}

module _ (me : String) (c : Cluster) (m : NodeMsg) where
  learn-leader :
      (now : ℕ)
      → c.node_my ≡ some me
      → Bounded me c
      → has String_discrete m.leader_id c.nodes_all ≡ true
      → (c.nodes me).term ≤ m.term
      → ((learn m now c).nodes m.leader_id).term ≡ m.term
  unfolding learn
  learn-leader now here b known fresh = ground (arith, b m.leader_id)

  sign_leader-follows :
      c.node_my ≡ some me
      → Bounded me c
      → (c.nodes me).term ≤ (c.nodes m.leader_id).term
      → ((sign_leader m.leader_id c).0.node_leader ≡ some m.leader_id)
        × ((sign_leader m.leader_id c).1 ≡ true)
  unfolding sign_leader
  sign_leader-follows here b fresh = elim (Option-cases c.node_leader) [
    | inl e ↦ ground arith
    | inr (l, e) ↦ ground (arith, b l)
  ]

  accept_leader-follows :
      c.node_my ≡ some me
      → Bounded me c
      → has String_discrete m.leader_id c.nodes_all ≡ true
      → (c.nodes me).term ≤ (c.nodes m.leader_id).term
      → (accept_leader m c).node_leader ≡ some m.leader_id
  unfolding accept_leader
  accept_leader-follows here b known fresh = ground (arith, sign_leader-follows here b fresh)

  accept_leader-follower :
      c.node_my ≡ some me
      → c.node_leader ≡ none
      → has String_discrete m.leader_id c.nodes_all ≡ true
      → (c.nodes me).term ≤ (c.nodes m.leader_id).term
      → m.leader_id ≢ me
      → (accept_leader m c).status ≡ follower
  unfolding accept_leader sign_leader
  accept_leader-follower here e known fresh other = ground arith

module _ (me : String) (m : NodeMsg) (now : ℕ) where
  learn-frame :
      (c : Cluster)
      → ((reply_ok (learn m now c)).node_my ≡ c.node_my)
        × ((reply_ok (learn m now c)).nodes_all ≡ c.nodes_all)
        × ((reply_ok (learn m now c)).nodes ≡ (learn m now c).nodes)
  unfolding learn reply_ok
  learn-frame c = ground arith

  release_old-frame :
      (c : Cluster)
      → ((release_old m now c).node_my ≡ c.node_my)
        × ((release_old m now c).nodes_all ≡ c.nodes_all)
        × ((release_old m now c).nodes ≡ c.nodes)
  unfolding release_old
  release_old-frame c = ground arith

  follows :
      (c : Cluster)
      → c.node_my ≡ some me
      → Bounded me c
      → has String_discrete m.leader_id c.nodes_all ≡ true
      → (c.nodes me).term ≤ m.term
      → ((accept_leader m (reply_ok (learn m now c))).node_leader ≡ some m.leader_id)
        × (((accept_leader m (reply_ok (learn m now c))).nodes me).term ≡ m.term)
  follows c here b known fresh =
      let (my, all, nodes) = learn-frame c in
      let d = learn m now c in
      let mine = (learn-me m now c me here).0 fresh in
      let theirs = learn-leader me c m now here b known fresh in
      (
        accept_leader-follows me (reply_ok d) m (my ∙ here)
            (λ i. rw nodes (learn-Bounded m now c me here b i)) (rw all known)
            (rw nodes (omega arith)),
        same_term (accept_leader-nodes m (reply_ok d) ∙ nodes) me ∙ mine,
      )

  learn-leader_none :
      (c : Cluster) → c.node_leader ≡ none → (reply_ok (learn m now c)).node_leader ≡ none
  unfolding learn reply_ok
  learn-leader_none c e = ground arith

  release_old_idle : (c : Cluster) → c.node_leader ≡ none → release_old m now c ≡ c
  unfolding release_old
  release_old_idle c e = ground arith

  module _ (c : Cluster) (here : c.node_my ≡ some me) where
    -- A leader that is one of the nodes, and whose term is not behind, is followed: the member takes
    -- it for the leader and has its term, if no node was recorded with a term above the member's.
    pub on_broadcast_leader-follows :
        Bounded me c
        → has String_discrete m.leader_id c.nodes_all ≡ true
        → (c.nodes me).term ≤ m.term
        → ((on_broadcast_leader m now c).node_leader ≡ some m.leader_id)
          × (((on_broadcast_leader m now c).nodes me).term ≡ m.term)
    unfolding on_broadcast_leader
    on_broadcast_leader-follows b known fresh =
        let (my, all, nodes) = release_old-frame c in
        let e : ltb m.term (get_my_term c) ≡ false = ground arith in
        rw e (
          follows (release_old m now c) (my ∙ here) (λ i. rw nodes (b i)) (rw all known)
            (rw nodes fresh))

    -- A closed member is no longer closed after the broadcast of another node that it may follow.
    on_broadcast_leader-reopens :
        Bounded me c
        → has String_discrete m.leader_id c.nodes_all ≡ true
        → (c.nodes me).term ≤ m.term
        → c.node_leader ≡ none
        → m.leader_id ≢ me
        → (on_broadcast_leader m now c).status ≡ follower
    unfolding on_broadcast_leader
    on_broadcast_leader-reopens b known fresh none_yet other =
        let e : ltb m.term (get_my_term c) ≡ false = ground arith in
        let (my, all, nodes) = learn-frame c in
        let d = learn m now c in
        let mine = (learn-me m now c me here).0 fresh in
        let theirs = learn-leader me c m now here b known fresh in
        rw (e, release_old_idle c none_yet)
          (accept_leader-follower me (reply_ok d) m (my ∙ here) (learn-leader_none c none_yet)
            (rw all known) (rw nodes (omega arith)) other)
