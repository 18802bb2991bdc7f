-- ===== src/Cluster/Client.antt =====
-- cluster/contact.go, `genNodeHandler`: what a member does when its connection to another node
-- opens, closes, or brings a message.
use own_x_go.Base.{
  ℕ, ◌+◌, ◌/◌, ltb, leb, ◌==◌, if◌then◌else◌, String, String_discrete, ◌∷◌, length, Option, none,
  some, Bool, true, false, ◌&&◌, ◌||◌, ite, has, erase,
}
use own_x_go.Cluster.Node.{add_vote_count}
use own_x_go.Cluster.State.{
  Cluster, NodeMsg, delivers, emit, get_my_id, get_my_term, is_closed, leads, modify, sign_leader,
  release_leader, to_next_term,
}
use own_x_go.Cluster.Messages.{msg_r_get_vote, msg_r_leader, msg_r_ask_leader}
use own_x_go.Cluster.Server.{learn}

-- `nodesAlive.Store(id, node)`
unfoldable pub on_session_connected : String → Cluster → Cluster
unfolding has
on_session_connected target c =
    if has String_discrete target c.nodes_alive
    then c
    else record c { nodes_alive = target ∷ c.nodes_alive }

-- `len(cluster.GetAliveNodeNames())`: the local node is counted with the others.
abbrev pub online_count : Cluster → ℕ
online_count c = length c.nodes_alive + 1

unfoldable pub on_session_closed : String → ℕ → Cluster → Cluster
unfolding modify to_next_term erase
on_session_closed target now c =
    let d =
      modify target (λ n. record n { connected = false })
        (record c { nodes_alive = erase String_discrete target c.nodes_alive }) in
    if leads target c.node_leader
    then (if is_closed d.status then d else to_next_term now d)
    else if leb (online_count d) (length d.nodes_all / 2)
    then (if is_closed d.status || d.fighting then d else to_next_term now d)
    else d

-- The send to `sendAndWaitChan`.
unfoldable pub deliver : NodeMsg → Cluster → Cluster
deliver m c = if c.waiting then emit (delivers m) c else c

abbrev pub is_true : Option Bool → Bool
is_true (some true) = true
is_true _ = false

abbrev pub is_false : Option Bool → Bool
is_false (some false) = true
is_false _ = false

unfoldable pub on_told_leader : NodeMsg → Cluster → Cluster
unfolding deliver sign_leader has
on_told_leader m c = ite (String_discrete m.leader_id "") (deliver m c) (
    if has String_discrete m.leader_id c.nodes_alive
    then deliver m
        (if has String_discrete m.leader_id c.nodes_all then (sign_leader m.leader_id c).0 else c)
    else c)

unfoldable pub on_vote : NodeMsg → Cluster → Cluster
unfolding deliver modify add_vote_count
on_vote m c =
    deliver m (if is_true m.success then modify (get_my_id c) (add_vote_count m.term) c else c)

unfoldable pub on_confirm : NodeMsg → ℕ → Cluster → Cluster
unfolding deliver release_leader
on_confirm m now c =
    deliver m
      (if is_false m.success && leads (get_my_id c) c.node_leader then release_leader now c else c)

abbrev pub has_leader : Option String → Bool
has_leader none = false
has_leader (some _) = true

-- `OnMessageReceived`. A newer term than that of the local node ends a leadership, and the message
-- is dropped. `msgOk` and an unknown flag do no more than bring their terms.
unfoldable pub client_receive : ℕ → NodeMsg → ℕ → Cluster → Cluster
unfolding release_leader learn on_told_leader on_vote on_confirm
client_receive flag m now c =
    if has_leader c.node_leader && ltb (get_my_term c) m.term
    then release_leader now c
    else let d = learn m now c in
      if flag == msg_r_ask_leader
      then on_told_leader m d
      else if flag == msg_r_get_vote
      then on_vote m d
      else if flag == msg_r_leader
      then on_confirm m now d
      else d
