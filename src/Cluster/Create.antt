-- ===== src/Cluster/Create.antt =====
-- cluster/service.go: `Create`, with `loadAllNodes` and `findMyNode`. What the machine tells is a
-- parameter, and so is the text of a port; the range over `nodesAll` takes the nodes as they came.
pub mod Loading
pub mod Finding
pub mod Starting
mod Tests
use Prim.Native.String.{◌++◌ as cat}
use own_x_go.Base.{
  ℕ, zero, suc, String, String_discrete, List, [], ◌∷◌, ◌++◌, Option, none, some, Bool, true, false,
  ite, if◌then◌else◌, has, ℤ, pos, negsuc,
}
use own_x_go.Cluster.Node.{Node}
use own_x_go.Cluster.State.{Cluster, Model, cluster, single, unset}
use own_x_go.Cluster.Life.{create_event, present}

pub record NodeConf : Type 0 where
  pub name : String
  pub ip : String
  pub port : ℕ

pub record Conf : Type 0 where
  pub model : String
  pub node_timeout : ℤ
  pub nodes : List NodeConf

-- `program_dir` is what `findMyNode` leaves of `env.GetProgramPath()`, the last directory in it;
-- `intranet_ips` is none where `GetIntranetIp` fails; `to_string` is `ToString` of a port.
pub record Machine : Type 0 where
  pub program_dir : String
  pub intranet_ips : Option (List String)
  pub host_ip : String
  pub to_string : ℕ → String

abbrev pub blank_conf : Conf
blank_conf = record { model = ""; node_timeout = pos 0; nodes = [] }

abbrev pub blank_node : Node
blank_node = record {
  term = 0;
  name = "";
  ip = "";
  port = 0;
  vote_count = [];
  vote_node = [];
  connected = false;
  hb_time = none;
}

unfoldable pub chosen_model : String → Model
chosen_model m = ite (String_discrete m "cluster") cluster single

unfoldable pub chosen_timeout : ℤ → ℕ
chosen_timeout (pos zero) = 10
chosen_timeout (pos (suc n)) = suc n
chosen_timeout (negsuc _) = 10

-- `node.Ip + ":" + ToString(node.Port)`
unfoldable pub id_for : Machine → NodeConf → String
id_for w n = cat n.ip (cat ":" (w.to_string n.port))

unfoldable pub node_for : NodeConf → Node
node_for n = record blank_node {
  name = ite (String_discrete n.name "") n.ip n.name;
  ip = n.ip;
  port = n.port;
}

-- `cluster.nodesAll.Store(i, n)`
unfoldable pub store_node : String → Node → Cluster → Cluster
store_node i n c = record c {
  nodes = λ j. ite (String_discrete j i) n (c.nodes j);
  nodes_all = if has String_discrete i c.nodes_all then c.nodes_all else c.nodes_all ++ (i ∷ []);
}

unfoldable pub load_all_nodes : Machine → List NodeConf → Cluster → Cluster
unfolding store_node id_for node_for
load_all_nodes w [] c = c
load_all_nodes w (n ∷ ns) c = load_all_nodes w ns (store_node (id_for w n) (node_for n) c)

-- The first node in a range over `nodesAll` with that name, or with that address.
unfoldable pub first_named : String → (String → Node) → List String → Option String
first_named s nodes [] = none
first_named s nodes (i ∷ is) =
    ite (String_discrete (nodes i).name s) (some i) (first_named s nodes is)

unfoldable pub first_with_ip : String → (String → Node) → List String → Option String
first_with_ip ip nodes [] = none
first_with_ip ip nodes (i ∷ is) =
    ite (String_discrete (nodes i).ip ip) (some i) (first_with_ip ip nodes is)

-- `cluster.nodeMy = _node`, where a node is found
abbrev pub take_node : Option String → Cluster → Cluster
take_node none c = c
take_node (some i) c = record c { node_my = some i }

unfoldable pub find_by_ips : List String → Cluster → Cluster
unfolding first_with_ip
find_by_ips [] c = c
find_by_ips (ip ∷ ips) c = find_by_ips ips (take_node (first_with_ip ip c.nodes c.nodes_all) c)

-- The node without an id that a single member makes for itself.
unfoldable pub fall_back : Machine → String → Model → Cluster → Cluster
fall_back w ip cluster c = c
fall_back w ip single c =
    let hip = ite (String_discrete w.host_ip "") ip w.host_ip in
    record c {
      node_my = some "";
      nodes =
          λ j. ite (String_discrete j "") (record blank_node { name = hip; ip = hip }) (c.nodes j);
    }

unfoldable pub find_local : Machine → Option (List String) → Cluster → Cluster
unfolding find_by_ips fall_back
find_local w none c = c
find_local w (some []) c = c
find_local w (some (ip ∷ ips)) c =
    let d = find_by_ips (ip ∷ ips) c in if present d.node_my then d else fall_back w ip d.model d

unfoldable pub find_by_dir : String → Cluster → Cluster
unfolding first_named
find_by_dir dir c =
    ite (String_discrete dir "") c (take_node (first_named (cat "node_" dir) c.nodes c.nodes_all) c)

unfoldable pub find_my_node : Machine → Cluster → Cluster
unfolding find_by_dir find_local
find_my_node w c =
    let d = find_by_dir w.program_dir c in
    if present d.node_my then d else find_local w w.intranet_ips d

abbrev pub or_blank_conf : Option Conf → Conf
or_blank_conf none = blank_conf
or_blank_conf (some k) = k

unfoldable pub fresh_cluster : Conf → ℕ → Cluster
unfolding chosen_model chosen_timeout
fresh_cluster k now = record {
  model = chosen_model k.model;
  node_timeout = chosen_timeout k.node_timeout;
  nodes = λ i. blank_node;
  nodes_all = [];
  nodes_alive = [];
  node_my = none;
  node_leader = none;
  lost_leader_time = now;
  status = unset;
  fighting = false;
  waiting = false;
  accepting = false;
  close_done = false;
  task_registry = [];
  events = some [];
  gauge = none;
  trace = [];
}

unfoldable pub create : Machine → Option Conf → ℕ → Cluster
unfolding fresh_cluster load_all_nodes find_my_node
create w conf now =
    let k = or_blank_conf conf in
    find_my_node w (load_all_nodes w k.nodes (create_event "Init" (fresh_cluster k now)))
