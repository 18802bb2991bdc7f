-- ===== src/Cluster/Server.antt =====
-- cluster/contact.go, `genServiceAcceptorHandler`: what a member does on a message that another
-- sends to its acceptor. A message comes decoded, and `now` is the clock. The local node is there:
-- `StartUp` opens the acceptor only then.
use own_x_go.Base.{
  ℕ, ltb, leb, ◌==◌, if◌then◌else◌, String, String_discrete, Option, none, some, Bool, true, false,
  not, ◌&&◌, ite, has,
}
use own_x_go.Cluster.Node.{Node, vote_to_node}
use own_x_go.Cluster.State.{
  Cluster, NodeMsg, reply, emit, get_my_id, get_my_term, is_leader, leads, modify, set_my_term,
  refresh, sign_leader, release_leader,
}
use own_x_go.Cluster.Messages.{
  JobInfo, push_task, msg_ok, msg_s_get_vote, msg_s_ask_leader, msg_s_broadcast_leader,
  msg_s_publish_job, msg_r_get_vote, msg_r_leader, msg_r_ask_leader,
}

-- `&NodeMsg{NodeId: …, Term: …, ReqId: …, Success: …}`
abbrev pub answer : String → ℕ → String → Option Bool → NodeMsg
answer me t req ok = record {
  node_id = me;
  term = t;
  leader_id = "";
  req_id = req;
  success = ok;
  flag = "";
}

-- The leader that is told, with its term, if that is not behind the term of the question.
abbrev pub told : ℕ → ℕ → Option String → (String → Node) → String × ℕ
told t mine none nodes = ("", mine)
told t mine (some l) nodes = if leb t (nodes l).term then (l, (nodes l).term) else ("", mine)

unfoldable pub on_ask_leader : NodeMsg → Cluster → Cluster
on_ask_leader m c =
    let (l, t) = told m.term (get_my_term c) c.node_leader c.nodes in
    emit
      (reply msg_r_ask_leader (record {
        node_id = get_my_id c;
        term = t;
        leader_id = l;
        req_id = m.req_id;
        success = none;
        flag = "";
      }))
      c

unfoldable pub step_down : ℕ → Cluster → Cluster
unfolding release_leader
step_down now c = if is_leader c.status then release_leader now c else c

unfoldable pub on_get_vote : NodeMsg → ℕ → Cluster → Cluster
unfolding step_down modify vote_to_node
on_get_vote m now c =
    let me = get_my_id c in
    let choose_you = (vote_to_node m.term m.node_id (c.nodes me)).1 in
    emit (reply msg_r_get_vote (answer me m.term m.req_id (some choose_you)))
      (modify me (λ n. (vote_to_node m.term m.node_id n).0) (step_down now c))

abbrev pub led_by_another : String → Option String → Bool
led_by_another i none = false
led_by_another i (some l) = not (leads i (some l))

-- A newer term under another leader ends the old leadership.
unfoldable pub release_old : NodeMsg → ℕ → Cluster → Cluster
unfolding release_leader
release_old m now c =
    if ltb (get_my_term c) m.term && led_by_another m.leader_id c.node_leader
    then release_leader now c
    else c

-- The terms and heartbeats that a message brings.
unfoldable pub learn : NodeMsg → ℕ → Cluster → Cluster
unfolding set_my_term refresh
learn m now c = refresh m.leader_id m.term now (refresh m.node_id m.term now (set_my_term m.term c))

abbrev pub known_leader : NodeMsg → Option String → (String → Node) → Bool
known_leader m none nodes = false
known_leader m (some l) nodes = leads m.leader_id (some l) && ((nodes l).term == m.term)

abbrev pub reply_leader : NodeMsg → Bool → Cluster → Cluster
reply_leader m ok c =
    emit (reply msg_r_leader (answer (get_my_id c) (get_my_term c) m.req_id (some ok))) c

-- The leader of the message is known already, or is signed if it is one of the nodes.
unfoldable pub accept_leader : NodeMsg → Cluster → Cluster
unfolding sign_leader has
accept_leader m c =
    if known_leader m c.node_leader c.nodes
    then ite (String_discrete m.flag "1") (reply_leader m true c) c
    else if has String_discrete m.leader_id c.nodes_all
    then (let (d, ok) = sign_leader m.leader_id c in reply_leader m ok d)
    else c

unfoldable pub reply_ok : Cluster → Cluster
reply_ok c = emit (reply msg_ok (answer (get_my_id c) (get_my_term c) "" none)) c

unfoldable pub on_broadcast_leader : NodeMsg → ℕ → Cluster → Cluster
unfolding release_old learn reply_ok accept_leader
on_broadcast_leader m now c =
    if ltb m.term (get_my_term c)
    then reply_leader m false c
    else accept_leader m (reply_ok (learn m now (release_old m now c)))

-- `OnMessageReceived`. An unknown flag is logged.
unfoldable pub server_receive : ℕ → NodeMsg → JobInfo → ℕ → Cluster → Cluster
unfolding on_ask_leader on_get_vote on_broadcast_leader push_task
server_receive flag m job now c =
    if flag == msg_s_ask_leader
    then on_ask_leader m c
    else if flag == msg_s_get_vote
    then on_get_vote m now c
    else if flag == msg_s_broadcast_leader
    then on_broadcast_leader m now c
    else if flag == msg_s_publish_job
    then push_task job.name job.payload c
    else c
