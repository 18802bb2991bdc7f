-- ===== src/Cluster/Ballots/Requests.antt =====
-- What a request for a vote and the answer to one (cluster/contact.go) do to votes.
use own_x_go.Base.{
  ℕ, ◌+◌, ◌≡◌, ◌≢◌, ◌≤◌, ◌∙◌, String, List, ◌∷◌, none, some, Option, arith, if_both, ℕ_discrete,
  lookup-insert, ◌==◌, ltb, ◌&&◌, if◌then◌else◌,
}
use own_x_go.Cluster.Node.{Node, get_vote_count, get_vote_to_node, vote_to_node, add_vote_count}
use own_x_go.Cluster.State.{
  Cluster, NodeMsg, Effect, reply, get_my_id, get_my_term, modify, release_leader,
}
use own_x_go.Cluster.Messages.{JobInfo, msg_s_get_vote, msg_r_get_vote}
use own_x_go.Cluster.Server.{server_receive, on_get_vote, learn, step_down, answer}
use own_x_go.Cluster.Client.{client_receive, on_vote, has_leader, is_true}
use own_x_go.Cluster.Ballots.{Quiet, release_leader-Quiet, learn-Quiet}
use own_x_go.Cluster.Ballots.Stretches.{has_voted}

-- The message that a handler has sent back last.
abbrev pub last_reply : List Effect → Option NodeMsg
last_reply (reply flag m ∷ _) = some m
last_reply _ = none

-- 1 for an answer that gives the vote of term `t`.
abbrev pub ballot : ℕ → NodeMsg → ℕ
ballot t m = if is_true m.success && (m.term == t) then 1 else 0

-- A request for a vote: what comes of it, and the answer `r`.
pub record Answers (t : ℕ) (me : String) (c d : Cluster) (r : NodeMsg) : Type 0 where
  pub my : d.node_my ≡ c.node_my
  pub all : d.nodes_all ≡ c.nodes_all
  pub counts : get_vote_count t (d.nodes me) ≡ get_vote_count t (c.nodes me)
  pub gives : has_voted t (d.nodes me) ≡ has_voted t (c.nodes me) + ballot t r
  pub back : last_reply d.trace ≡ some r

-- The answer to one: it is counted, unless the member drops the message for its term.
pub record Counts (t : ℕ) (me : String) (c d : Cluster) (m : NodeMsg) : Type 0 where
  pub my : d.node_my ≡ c.node_my
  pub all : d.nodes_all ≡ c.nodes_all
  pub more : get_vote_count t (c.nodes me) ≤ get_vote_count t (d.nodes me)
  pub most : get_vote_count t (d.nodes me) ≤ get_vote_count t (c.nodes me) + ballot t m
  pub gives : has_voted t (d.nodes me) ≡ has_voted t (c.nodes me)

vote_lem :
    (t u : ℕ) (who : String) (n : Node)
    → who ≢ ""
    → has_voted t (vote_to_node u who n).0
      ≡ has_voted t n + (if (vote_to_node u who n).1 && (u == t) then 1 else 0)
unfolding vote_to_node has_voted get_vote_to_node
vote_lem t u who n named = ground (arith, lookup-insert ℕ_discrete u t who n.vote_node)

vote-counts :
    (t u : ℕ) (who : String) (n : Node)
    → get_vote_count t (vote_to_node u who n).0 ≡ get_vote_count t n
unfolding vote_to_node get_vote_count
vote-counts t u who n = ground arith

step_down-nodes : (now : ℕ) (c : Cluster) → (step_down now c).nodes ≡ c.nodes
unfolding step_down
step_down-nodes now c = ground arith

Quiet-get_vote_count :
    (t : ℕ) (me : String) (c d : Cluster)
    → Quiet me c d
    → get_vote_count t (d.nodes me) ≡ get_vote_count t (c.nodes me)
unfolding get_vote_count
Quiet-get_vote_count t me c d q = ground (arith, q.counts)

Quiet-Counts :
    (t : ℕ) (me : String) (c d : Cluster) (m : NodeMsg) → Quiet me c d → Counts t me c d m
unfolding has_voted get_vote_count get_vote_to_node
Quiet-Counts t me c d m q = record {
  my = q.my;
  all = q.all;
  more = ground (arith, q.counts);
  most = ground (arith, q.counts);
  gives = ground (arith, q.gives);
}

add_vote_count-counts :
    (t u : ℕ) (n : Node)
    → get_vote_count t (add_vote_count u n) ≡ get_vote_count t n + (if u == t then 1 else 0)
unfolding add_vote_count get_vote_count
add_vote_count-counts t u n =
    ground (arith, lookup-insert ℕ_discrete u t (get_vote_count u n + 1) n.vote_count)

on_vote-Counts :
    (t : ℕ) (me : String) (c : Cluster) (m : NodeMsg)
    → c.node_my ≡ some me
    → Counts t me c (on_vote m c) m
unfolding on_vote modify has_voted get_vote_to_node
on_vote-Counts t me c m here = record {
  my = ground arith;
  all = ground arith;
  more = ground (arith, here, add_vote_count-counts t m.term (c.nodes me));
  most = ground (arith, here, add_vote_count-counts t m.term (c.nodes me));
  gives = ground (arith, here);
}

Quiet-Counts-trans :
    (t : ℕ) (me : String) (c d e : Cluster) (m : NodeMsg)
    → Quiet me c d
    → Counts t me d e m
    → Counts t me c e m
Quiet-Counts-trans t me c d e m q k =
    let p = Quiet-Counts t me c d m q in
    record {
      my = k.my ∙ q.my;
      all = k.all ∙ q.all;
      more = omega (arith, p.more, k.more);
      most = omega (arith, Quiet-get_vote_count t me c d q, k.most);
      gives = k.gives ∙ p.gives;
    }

module _ (t : ℕ) (me : String) (c : Cluster) (here : c.node_my ≡ some me) where
  pub server_receive-Answers :
      (m : NodeMsg) (job : JobInfo) (now : ℕ)
      → m.node_id ≢ ""
      → (r : NodeMsg) × Answers t me c (server_receive msg_s_get_vote m job now c) r
  unfolding server_receive on_get_vote modify
  server_receive-Answers m job now named =
      let given = vote_to_node m.term m.node_id (c.nodes me) in
      let same = step_down-nodes now c in
      (
        answer (get_my_id c) m.term m.req_id
            (some (vote_to_node m.term m.node_id (c.nodes (get_my_id c))).1),
        record {
          my = ground arith;
          all = ground arith;
          counts = ground (arith, here, same, vote-counts t m.term m.node_id (c.nodes me));
          gives = ground (arith, here, same, vote_lem t m.term m.node_id (c.nodes me) named);
          back = ground arith;
        },
      )

  pub client_receive-Counts :
      (m : NodeMsg) (now : ℕ) → Counts t me c (client_receive msg_r_get_vote m now c) m
  unfolding client_receive
  client_receive-Counts m now =
      let d = learn m now c in
      let q = learn-Quiet me c m now in
      if_both (λ (e : Cluster). Counts t me c e m)
        (has_leader c.node_leader && ltb (get_my_term c) m.term)
        (Quiet-Counts t me c (release_leader now c) m (release_leader-Quiet me c now))
        (Quiet-Counts-trans t me c d (on_vote m d) m q (on_vote-Counts t me d m (q.my ∙ here)))
