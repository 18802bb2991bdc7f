-- ===== src/Cluster/Messages.antt =====
-- cluster/const.go: the flags of messages; and jobs, of cluster/publish.go.
use own_x_go.Base.{
  ℕ, String, String_discrete, none, some, Bool, true, false, ite, lookup, insert, List, Option,
  if◌then◌else◌, ◌∷◌, [],
}
use own_x_go.Cluster.State.{Cluster, runs, emit, sends_job}
use own_x_go.Cluster.Node.{Node}

abbrev pub msg_ok : ℕ
msg_ok = 200

abbrev pub msg_s_get_vote : ℕ
msg_s_get_vote = 12

abbrev pub msg_s_ask_leader : ℕ
msg_s_ask_leader = 13

abbrev pub msg_s_broadcast_leader : ℕ
msg_s_broadcast_leader = 14

abbrev pub msg_s_publish_job : ℕ
msg_s_publish_job = 15

abbrev pub msg_r_get_vote : ℕ
msg_r_get_vote = 30

abbrev pub msg_r_leader : ℕ
msg_r_leader = 31

abbrev pub msg_r_ask_leader : ℕ
msg_r_ask_leader = 32

-- `Data` is taken as its text.
pub record JobInfo : Type 0 where
  pub name : String
  pub payload : String

-- An empty name is an error and registers nothing: the answer is false.
unfoldable pub register_func : String → ℕ → Cluster → Cluster × Bool
register_func task_name f c =
    ite (String_discrete task_name "") (c, false)
      (record c { task_registry = insert String_discrete task_name f c.task_registry }, true)

-- A job without a registered function is logged, and no more.
unfoldable pub push_task : String → String → Cluster → Cluster
push_task job_name payload c = elim (lookup String_discrete job_name c.task_registry) [
  | none ↦ c
  | some f ↦ emit (runs f payload) c
]

-- The loop of `PublishJob` over `nodesAlive`: it ends at the first node of that name.
unfoldable pub alive_named : String → List String → (String → Node) → Option String
alive_named n [] nodes = none
alive_named n (i ∷ is) nodes =
    let rest = alive_named n is nodes in ite (String_discrete (nodes i).name n) (some i) rest

abbrev pub send_job : String → String → Option String → Cluster → Cluster
send_job job_name payload none c = c
send_job job_name payload (some i) c =
    if (c.nodes i).connected then emit (sends_job i job_name payload) c else c

abbrev pub is_named : String → Option String → (String → Node) → Bool
is_named n none nodes = false
is_named n (some i) nodes = ite (String_discrete (nodes i).name n) true false

-- One entry of `PublishJob`: the local node runs the job itself.
unfoldable pub publish_one : String → String → String → Cluster → Cluster
unfolding push_task alive_named
publish_one job_name n payload c =
    if is_named n c.node_my c.nodes
    then push_task job_name payload c
    else send_job job_name payload (alive_named n c.nodes_alive c.nodes) c

-- `PublishJob`, where there is a local node, on the data by the names of the nodes; `CallFunc` is the case of one entry.
unfoldable pub publish_job : String → List (String × String) → Cluster → Cluster
unfolding publish_one
publish_job job_name [] c = c
publish_job job_name ((n, payload) ∷ jobs) c =
    publish_job job_name jobs (publish_one job_name n payload c)
