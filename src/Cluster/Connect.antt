-- ===== src/Cluster/Connect.antt =====
-- cluster/contact.go: `holdConnection` and `connectToNode`, which open the connections to the other
-- nodes, `openServiceAcceptor`, and `broadcastLeader`. Whether a node is reached, and whether the
-- acceptor opens, is an argument.
use own_x_go.Base.{
  ℕ, zero, suc, ◌+◌, if◌then◌else◌, String, String_discrete, List, [], ◌∷◌, Option, none, some,
  Bool, true, false, ite,
}
use own_x_go.Cluster.Node.{clear}
use own_x_go.Cluster.State.{Cluster, sends, emit, get_my_id, get_my_term, is_closed, modify}
use own_x_go.Cluster.Messages.{msg_s_broadcast_leader}

-- `CreateConnector` fails only without a handler, and there is one.
unfoldable pub connect_to_node : Bool → String → Cluster → Cluster × Bool
unfolding modify clear
connect_to_node reached i c =
    if reached then (modify i (λ n. record (clear n) { connected = true }) c, true) else (c, false)

-- The visit of `holdConnection` to the node `i`.
unfoldable pub hold_node : (String → Bool) → String → Cluster → Cluster
unfolding connect_to_node
hold_node reaches i c =
    ite (String_discrete i (get_my_id c)) c
      (if (c.nodes i).connected then c else (connect_to_node (reaches i) i c).0)

unfoldable pub hold_all : (String → Bool) → List String → Cluster → Cluster
unfolding hold_node
hold_all reaches [] c = c
hold_all reaches (i ∷ is) c = hold_all reaches is (hold_node reaches i c)

-- One round of `holdConnection`: the state, and whether the loop goes on.
unfoldable pub hold_connection : (String → Bool) → Cluster → Cluster × Bool
unfolding hold_all
hold_connection reaches c =
    if is_closed c.status then (c, false) else (hold_all reaches c.nodes_all c, true)

-- How `openServiceAcceptor` ends.
pub data Opening (E : Type 0) : Type 0 where
  opened : Cluster → Opening E
  panics : E → Opening E

module _ {E : Type 0} (open_errors : ℕ → Option E) where
  -- The tries from `i` on, `left` of them after it; the last one that fails panics.
  unfoldable pub open_loop : (left i : ℕ) → Cluster → Opening E
  open_loop zero i c = elim (open_errors i) [
    | none ↦ opened (record c { accepting = true })
    | some err ↦ panics err
  ]
  open_loop (suc left) i c =
      let rest = open_loop left (i + 1) c in
      elim (open_errors i) [ none ↦ opened (record c { accepting = true }) | some err ↦ rest ]

  unfoldable pub open_service_acceptor : Cluster → Opening E
  unfolding open_loop
  open_service_acceptor c = open_loop 3 1 c

-- No other function calls `broadcastLeader`.
unfoldable pub broadcast_leader : String → List String → Cluster → Cluster
broadcast_leader l [] c = c
broadcast_leader l (i ∷ is) c = broadcast_leader l is (
    ite (String_discrete i (get_my_id c)) c (
      ite (String_discrete i l) c (
        if (c.nodes i).connected
        then emit
            (sends i msg_s_broadcast_leader (record {
              node_id = get_my_id c;
              term = get_my_term c;
              leader_id = l;
              req_id = "";
              success = none;
              flag = "";
            }))
            c
        else c)))
