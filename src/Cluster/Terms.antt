-- ===== src/Cluster/Terms.antt =====
-- The terms that a member records, under the handlers of cluster/contact.go.
pub mod Histories
use own_x_go.Base.{
  ℕ, ◌≤◌, ◌≡◌, String, some, arith, Bool-cases, ltb, inl, inr, refl, ◌∙◌, ap, false, if_both,
}
use own_x_go.Cluster.State.{Cluster, NodeMsg, sign_leader, get_my_term, release_leader}
use own_x_go.Cluster.Server.{
  learn, accept_leader, release_old, on_get_vote, on_ask_leader, server_receive,
  on_broadcast_leader, reply_ok, reply_leader,
}
use own_x_go.Cluster.Messages.{push_task, JobInfo}
use own_x_go.Cluster.Client.{on_told_leader, client_receive, on_vote, on_confirm}
use own_x_go.Cluster.Node.{Node}

-- No node is recorded with a term above that of the local node `me`.
abbrev pub Bounded : String → Cluster → Type 0
Bounded me c = (i : String) → (c.nodes i).term ≤ (c.nodes me).term

-- `d` records the terms of `c`.
abbrev pub SameTerms : Cluster → Cluster → Type 0
SameTerms c d = (i : String) → (d.nodes i).term ≡ (c.nodes i).term

module _ (m : NodeMsg) (now : ℕ) (c : Cluster) where
  learn-le : (i : String) → (c.nodes i).term ≤ ((learn m now c).nodes i).term
  unfolding learn
  learn-le i = ground arith

  module _ (me : String) (here : c.node_my ≡ some me) where
    pub learn-me :
        ((c.nodes me).term ≤ m.term → ((learn m now c).nodes me).term ≡ m.term)
        × (m.term ≤ ((learn m now c).nodes me).term)
    unfolding learn
    learn-me = ground arith

    pub learn-Bounded : Bounded me c → Bounded me (learn m now c)
    unfolding learn
    learn-Bounded b i = ground (arith, b i)

sign_leader-terms : (i : String) (c : Cluster) → (sign_leader i c).0.nodes ≡ c.nodes
unfolding sign_leader
sign_leader-terms i c = ground arith

sign_leader-my : (i : String) (c : Cluster) → (sign_leader i c).0.node_my ≡ c.node_my
unfolding sign_leader
sign_leader-my i c = ground arith

release_leader-nodes : (now : ℕ) (c : Cluster) → (release_leader now c).nodes ≡ c.nodes
unfolding release_leader
release_leader-nodes now c = refl

reply_ok-nodes : (c : Cluster) → (reply_ok c).nodes ≡ c.nodes
unfolding reply_ok
reply_ok-nodes c = refl

pub same_term : {f g : String → Node} → f ≡ g → (i : String) → (f i).term ≡ (g i).term
same_term e i = ap (λ (n : String → Node). (n i).term) e

pub accept_leader-nodes : (m : NodeMsg) (c : Cluster) → (accept_leader m c).nodes ≡ c.nodes
unfolding accept_leader
accept_leader-nodes m c = ground (arith, sign_leader-terms m.leader_id c)

-- Terms only grow, and none passes that of the local node.
pub record Grows (me : String) (c d : Cluster) : Type 0 where
  pub le : (i : String) → (c.nodes i).term ≤ (d.nodes i).term
  pub bounded : Bounded me c → Bounded me d

module _ (me : String) (c : Cluster) where
  Grows-of_nodes : (d : Cluster) → d.nodes ≡ c.nodes → Grows me c d
  Grows-of_nodes d e = record { le = λ i. ground arith; bounded = λ b i. ground (arith, b i) }

  on_get_vote-Grows : (m : NodeMsg) (now : ℕ) → Grows me c (on_get_vote m now c)
  unfolding on_get_vote
  on_get_vote-Grows m now = record { le = λ i. ground arith; bounded = λ b i. ground (arith, b i) }

  on_ask_leader-Grows : (m : NodeMsg) → Grows me c (on_ask_leader m c)
  unfolding on_ask_leader
  on_ask_leader-Grows m = Grows-of_nodes (on_ask_leader m c) refl

  push_task-Grows : (name payload : String) → Grows me c (push_task name payload c)
  unfolding push_task
  push_task-Grows name payload = Grows-of_nodes _ (ground arith)

  release_old-nodes :
      (m : NodeMsg) (now : ℕ)
      → ((release_old m now c).nodes ≡ c.nodes) × ((release_old m now c).node_my ≡ c.node_my)
  unfolding release_old
  release_old-nodes m now = ground arith

module _ (me : String) (c : Cluster) (here : c.node_my ≡ some me) (now : ℕ) (m : NodeMsg) where
  learn-Grows : Grows me c (learn m now c)
  learn-Grows = record { le = learn-le m now c; bounded = learn-Bounded m now c me here }

  on_told_leader-nodes : (d : Cluster) → (on_told_leader m d).nodes ≡ d.nodes
  unfolding on_told_leader
  on_told_leader-nodes d = ground (arith, sign_leader-terms m.leader_id d)

  on_confirm-nodes : (d : Cluster) → (on_confirm m now d).nodes ≡ d.nodes
  unfolding on_confirm
  on_confirm-nodes d = ground arith

  on_vote-term : (d : Cluster) (i : String) → ((on_vote m d).nodes i).term ≡ (d.nodes i).term
  unfolding on_vote
  on_vote-term d i = ground arith

-- `d` records the terms of `c`.
Grows-of_terms :
    (me : String) (c d e : Cluster)
    → Grows me c d
    → ((i : String) → (e.nodes i).term ≡ (d.nodes i).term)
    → Grows me c e
Grows-of_terms me c d e g h = record {
  le = λ i. omega (arith, h i, g.le i);
  bounded = λ b i. omega (arith, h i, h me, g.bounded b i);
}

Grows-from : (me : String) (c d e : Cluster) → d.nodes ≡ c.nodes → Grows me d e → Grows me c e
Grows-from me c d e h g = record {
  le = λ i. ground (arith, g.le i);
  bounded = λ b i. g.bounded (λ j. ground (arith, b j)) i;
}

module _ (me : String) (c : Cluster) (here : c.node_my ≡ some me) (now : ℕ) (m : NodeMsg) where
  on_broadcast_leader-Grows : Grows me c (on_broadcast_leader m now c)
  unfolding on_broadcast_leader
  on_broadcast_leader-Grows = elim (Bool-cases (ltb m.term (get_my_term c))) [
    | inl old ↦ rw old (Grows-of_nodes me c (reply_leader m false c) refl)
    | inr fresh ↦ rw fresh (
        let b = release_old m now c in
        let d = learn m now b in
        Grows-of_terms me c d (accept_leader m (reply_ok d))
          (Grows-from me c b d (release_old-nodes me c m now).0
            (learn-Grows me b ((release_old-nodes me c m now).1 ∙ here) now m))
          (same_term (accept_leader-nodes m (reply_ok d) ∙ reply_ok-nodes d)))
  ]

  -- Whatever message comes to the acceptor, no recorded term goes down, and none passes that of
  -- the local node if none did before.
  pub server_receive-Grows :
      (flag : ℕ) (job : JobInfo) → Grows me c (server_receive flag m job now c)
  unfolding server_receive
  server_receive-Grows flag job = if_both (Grows me c) _ (on_ask_leader-Grows me c m) (
      if_both (Grows me c) _ (on_get_vote-Grows me c m now) (
        if_both (Grows me c) _ on_broadcast_leader-Grows (
          if_both (Grows me c) _ (push_task-Grows me c job.name job.payload)
            (Grows-of_nodes me c c refl))))

  -- Likewise for the messages that come back on the connections that the member has opened.
  pub client_receive-Grows : (flag : ℕ) → Grows me c (client_receive flag m now c)
  unfolding client_receive
  client_receive-Grows flag =
      let d = learn m now c in
      let g = learn-Grows me c here now m in
      if_both (Grows me c) _
        (Grows-of_nodes me c (release_leader now c) (release_leader-nodes now c))
        (if_both (Grows me c) _
          (Grows-of_terms me c d (on_told_leader m d) g
            (same_term (on_told_leader-nodes me c here now m d)))
          (if_both (Grows me c) _
            (Grows-of_terms me c d (on_vote m d) g (on_vote-term me c here now m d))
            (if_both (Grows me c) _
              (Grows-of_terms me c d (on_confirm m now d) g
                (same_term (on_confirm-nodes me c here now m d)))
              g)))
