-- ===== src/Cluster/Create/Loading.antt =====
-- What `loadAllNodes` of cluster/service.go leaves in `nodesAll`.
use own_x_go.Base.{
  if_each, ite_each, ℕ, ◌≡◌, ◌≢◌, refl, ◌∙◌, String, String_discrete, List, [], ◌∷◌, ◌++◌, Option,
  none, some, is_some, true, false, ◌||◌, ite, has, arith, if_both,
}
use own_x_go.Cluster.State.{Cluster, Model, cluster, single}
use own_x_go.Cluster.Life.{create_event, update_metrics, present}
use own_x_go.Cluster.Create.{
  NodeConf, Conf, Machine, id_for, node_for, store_node, load_all_nodes, take_node, first_with_ip,
  find_by_ips, fall_back, find_local, find_by_dir, find_my_node, fresh_cluster, create, blank_node,
}

-- the last node of the configuration with that id
abbrev pub configured : Machine → String → List NodeConf → Option NodeConf
configured w i [] = none
configured w i (n ∷ ns) = elim (configured w i ns) [
  | some k ↦ some k
  | none ↦ ite (String_discrete i (id_for w n)) (some n) none
]

abbrev pub Distinct : List String → Type 0
Distinct [] = Unit {0}
Distinct (i ∷ is) = (has String_discrete i is ≡ false) × Distinct is

has-append :
    (i j : String) (is : List String)
    → has String_discrete j (is ++ (i ∷ []))
      ≡ (has String_discrete j is || ite (String_discrete j i) true false)
unfolding has
has-append i j [] = ground arith
has-append i j (k ∷ is) = ground (arith, has-append i j is)

Distinct-append :
    (i : String) (is : List String)
    → has String_discrete i is ≡ false
    → Distinct is
    → Distinct (is ++ (i ∷ []))
unfolding has
Distinct-append i [] h d = (refl, tt)
Distinct-append i (k ∷ is) h d =
    (ground (arith, has-append i k is, d.0), Distinct-append i is (ground arith) d.1)

module _ (w : Machine) where
  has-load_all_nodes :
      (i : String) (ns : List NodeConf) (c : Cluster)
      → has String_discrete i (load_all_nodes w ns c).nodes_all
        ≡ (is_some (configured w i ns) || has String_discrete i c.nodes_all)
  unfolding load_all_nodes store_node
  has-load_all_nodes i [] c = refl
  has-load_all_nodes i (n ∷ ns) c = ground (
    arith,
    has-load_all_nodes i ns (store_node (id_for w n) (node_for n) c),
    has-append (id_for w n) i c.nodes_all,
  )

  nodes-load_all_nodes :
      (i : String) (ns : List NodeConf) (c : Cluster)
      → (load_all_nodes w ns c).nodes i
        ≡ elim (configured w i ns) [ some n ↦ node_for n | none ↦ c.nodes i ]
  unfolding load_all_nodes store_node
  nodes-load_all_nodes i [] c = refl
  nodes-load_all_nodes i (n ∷ ns) c =
      ground (arith, nodes-load_all_nodes i ns (store_node (id_for w n) (node_for n) c))

  load_all_nodes-Distinct :
      (ns : List NodeConf) (c : Cluster)
      → Distinct c.nodes_all
      → Distinct (load_all_nodes w ns c).nodes_all
  unfolding load_all_nodes store_node
  load_all_nodes-Distinct [] c d = d
  load_all_nodes-Distinct (n ∷ ns) c d =
      load_all_nodes-Distinct ns (store_node (id_for w n) (node_for n) c) (
        if_each Distinct (has String_discrete (id_for w n) c.nodes_all) (λ h. d)
          (λ h. Distinct-append (id_for w n) c.nodes_all h d))

-- `d` is `c` but for the local node, and for the node without an id
pub record Keeps (c d : Cluster) : Type 0 where
  pub nodes_all : d.nodes_all ≡ c.nodes_all
  pub nodes : (i : String) → i ≢ "" → d.nodes i ≡ c.nodes i
  pub model : d.model ≡ c.model
  pub status : d.status ≡ c.status
  pub node_leader : d.node_leader ≡ c.node_leader
  pub fighting : d.fighting ≡ c.fighting

Keeps-self : (c : Cluster) → Keeps c c
Keeps-self c = record {
  nodes_all = refl;
  nodes = λ i h. refl;
  model = refl;
  status = refl;
  node_leader = refl;
  fighting = refl;
}

Keeps-compose : {c d e : Cluster} → Keeps c d → Keeps d e → Keeps c e
Keeps-compose p q = record {
  nodes_all = q.nodes_all ∙ p.nodes_all;
  nodes = λ i h. q.nodes i h ∙ p.nodes i h;
  model = q.model ∙ p.model;
  status = q.status ∙ p.status;
  node_leader = q.node_leader ∙ p.node_leader;
  fighting = q.fighting ∙ p.fighting;
}

pub take_node-Keeps : (o : Option String) (c : Cluster) → Keeps c (take_node o c)
take_node-Keeps none c = Keeps-self c
take_node-Keeps (some i) c = record {
  nodes_all = refl;
  nodes = λ j h. refl;
  model = refl;
  status = refl;
  node_leader = refl;
  fighting = refl;
}

pub find_by_ips-Keeps : (ips : List String) (c : Cluster) → Keeps c (find_by_ips ips c)
unfolding find_by_ips
find_by_ips-Keeps [] c = Keeps-self c
find_by_ips-Keeps (ip ∷ ips) c =
    let o = first_with_ip ip c.nodes c.nodes_all in
    Keeps-compose (take_node-Keeps o c) (find_by_ips-Keeps ips (take_node o c))

module _ (w : Machine) where
  fall_back-Keeps : (ip : String) (m : Model) (c : Cluster) → Keeps c (fall_back w ip m c)
  unfolding fall_back
  fall_back-Keeps ip cluster c = Keeps-self c
  fall_back-Keeps ip single c = record {
    nodes_all = refl;
    nodes = λ i h. ground (arith, h);
    model = refl;
    status = refl;
    node_leader = refl;
    fighting = refl;
  }

  find_local-Keeps : (o : Option (List String)) (c : Cluster) → Keeps c (find_local w o c)
  unfolding find_local
  find_local-Keeps none c = Keeps-self c
  find_local-Keeps (some []) c = Keeps-self c
  find_local-Keeps (some (ip ∷ ips)) c =
      let d = find_by_ips (ip ∷ ips) c in
      let k = find_by_ips-Keeps (ip ∷ ips) c in
      if_both (Keeps c) (present d.node_my) k (Keeps-compose k (fall_back-Keeps ip d.model d))

  pub find_my_node-Keeps : (c : Cluster) → Keeps c (find_my_node w c)
  unfolding find_my_node find_by_dir
  find_my_node-Keeps c =
      let d = find_by_dir w.program_dir c in
      let k : Keeps c d =
        ite_each (Keeps c) (String_discrete w.program_dir "") (λ h. Keeps-self c)
          (λ h. take_node-Keeps _ c) in
      if_both (Keeps c) (present d.node_my) k (Keeps-compose k (find_local-Keeps w.intranet_ips d))

-- After Create, nodesAll has each id once, and has exactly the ids of the configuration; under each
-- id other than the empty one it holds what the last node of the configuration with that id says.
pub create-nodes_all :
    (w : Machine) (k : Conf) (now : ℕ) (i : String)
    → i ≢ ""
    → Distinct (create w (some k) now).nodes_all
      × (has String_discrete i (create w (some k) now).nodes_all ≡ is_some (configured w i k.nodes))
      × ((create w (some k) now).nodes i
          ≡ elim (configured w i k.nodes) [ some n ↦ node_for n | none ↦ blank_node ])
unfolding create fresh_cluster create_event update_metrics has
create-nodes_all w k now i h =
    let c = create_event "Init" (fresh_cluster k now) in
    let s = find_my_node-Keeps w (load_all_nodes w k.nodes c) in
    (
      rw s.nodes_all (load_all_nodes-Distinct w k.nodes c tt),
      ground (arith, s.nodes_all, has-load_all_nodes w i k.nodes c),
      s.nodes i h ∙ nodes-load_all_nodes w i k.nodes c,
    )
