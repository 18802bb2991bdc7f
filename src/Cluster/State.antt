-- ===== src/Cluster/State.antt =====
-- cluster/service.go, const.go and event.go: the state of a member and the methods that the
-- handlers share. A method returns the new state; what it sends, logs apart, or starts with `go`
-- is put in front of `trace`.
use own_x_go.Base.{
  ℕ, ltb, if◌then◌else◌, String, String_discrete, List, ◌∷◌, Option, none, some, Bool, true, false,
  not, ◌&&◌, ite, has,
}
use own_x_go.Cluster.Node.{Node, set_term, update_hb_time}

-- `unset` is the zero value of `stat`.
pub data Stat : Type 0 where
  unset leader candidate follower closed : Stat

pub data Model : Type 0 where
  cluster single : Model

pub record NodeMsg : Type 0 where
  pub node_id : String
  pub term : ℕ
  pub leader_id : String
  pub req_id : String
  pub success : Option Bool
  pub flag : String

pub data Effect : Type 0 where
  -- `session.Write(flag, msg)`
  reply : (flag : ℕ) (msg : NodeMsg) → Effect
  -- `node.SendMessage(flag, msg)`
  sends : (node : String) (flag : ℕ) (msg : NodeMsg) → Effect
  -- `node.SendMessage(msgSPublishJob, job)`
  sends_job : (node : String) (job_name : String) (job_data : String) → Effect
  -- `node.nodeConnector.Close()`
  disconnects : (node : String) → Effect
  -- `cluster.sendAndWaitChan <- msg`
  delivers : (msg : NodeMsg) → Effect
  -- `go cluster.createEvent(name)`
  raises : (event : String) → Effect
  -- `go cluster.fightElection()`
  starts_election : Effect
  -- the acceptor is opened, and the loops of `openService` are started
  opens_service : Effect
  -- `go f(data)`, for the function that `pushTask` finds
  runs : (job_func : ℕ) (job_data : String) → Effect

-- The value of the gauge `cluster_status`: 1, 0 and -1.
pub data Gauge : Type 0 where
  ready_leader ready_slave not_ready : Gauge

-- `nodes` holds the node objects by id, which stand for their pointers; `nodes_all`, `nodes_alive`,
-- `node_my` and `node_leader` are the ids of those they point to. `task_registry` maps a name to a
-- number that stands for the function. `waiting`, `accepting` and `close_done` say that
-- `sendAndWaitChan` and `serviceAcceptor` are not nil and that `closeOnce` has run; `events` is none
-- where the channel is nil.
pub record Cluster : Type 0 where
  pub model : Model
  pub node_timeout : ℕ
  pub nodes : String → Node
  pub nodes_all : List String
  pub nodes_alive : List String
  pub node_my : Option String
  pub node_leader : Option String
  pub lost_leader_time : ℕ
  pub status : Stat
  pub fighting : Bool
  pub waiting : Bool
  pub accepting : Bool
  pub close_done : Bool
  pub task_registry : List (String × ℕ)
  pub events : Option (List (String × Stat))
  pub gauge : Option Gauge
  pub trace : List Effect

abbrev pub id_of : Option String → String
id_of none = ""
id_of (some i) = i

abbrev pub get_my_id : Cluster → String
get_my_id c = id_of c.node_my

abbrev pub my_term : Option String → (String → Node) → ℕ
my_term none nodes = 0
my_term (some i) nodes = (nodes i).term

abbrev pub get_my_term : Cluster → ℕ
get_my_term c = my_term c.node_my c.nodes

abbrev pub is_leader : Stat → Bool
is_leader leader = true
is_leader _ = false

abbrev pub is_closed : Stat → Bool
is_closed closed = true
is_closed _ = false

-- `IsReady` by status.
abbrev pub is_member : Stat → Bool
is_member leader = true
is_member candidate = true
is_member follower = true
is_member _ = false

unfoldable pub is_ready : Cluster → Bool
is_ready c = is_member c.status && not c.fighting

abbrev pub emit : Effect → Cluster → Cluster
emit e c = record c { trace = e ∷ c.trace }

-- A write through the pointer to node `i`.
unfoldable pub modify : String → (Node → Node) → Cluster → Cluster
modify i f c = record c { nodes = λ j. ite (String_discrete j i) (f (c.nodes j)) (c.nodes j) }

-- `cluster.GetMyNode().setTerm(t)`; the handlers run only where there is a local node.
unfoldable pub set_my_term : ℕ → Cluster → Cluster
unfolding modify set_term
set_my_term t c = modify (get_my_id c) (λ n. (set_term t n).0) c

-- The two blocks `if value, ok := cluster.nodesAll.Load(id); ok` of the handlers.
unfoldable pub refresh : String → ℕ → ℕ → Cluster → Cluster
unfolding modify set_term update_hb_time has
refresh i t now c =
    if has String_discrete i c.nodes_all
    then modify i (λ n. update_hb_time now (set_term t n).0) c
    else c

abbrev pub older_than_leader : ℕ → Option String → (String → Node) → Bool
older_than_leader t none nodes = false
older_than_leader t (some l) nodes = ltb t (nodes l).term

abbrev pub leads : String → Option String → Bool
leads i none = false
leads i (some l) = ite (String_discrete l i) true false

-- What `signLeader` does once its three checks let it pass.
unfoldable pub follow : String → Cluster → Cluster
follow i c =
    ite (String_discrete (get_my_id c) i)
      (emit (raises "SignLeader") (record c { node_leader = some i; status = leader }))
      (emit (raises "SignFollower") (record c { node_leader = some i; status = follower }))

unfoldable pub sign_leader : String → Cluster → Cluster × Bool
unfolding follow
sign_leader i c =
    if ltb (c.nodes i).term (get_my_term c)
    then (c, false)
    else if older_than_leader (c.nodes i).term c.node_leader c.nodes
    then (c, false)
    else if leads i c.node_leader
    then (c, true)
    else (follow i c, true)

unfoldable pub release_leader : ℕ → Cluster → Cluster
release_leader now c =
    emit (raises "ReleaseLeader")
      (record c { node_leader = none; lost_leader_time = now; status = follower })

unfoldable pub to_next_term : ℕ → Cluster → Cluster
unfolding release_leader
to_next_term now c = emit starts_election (release_leader now c)
