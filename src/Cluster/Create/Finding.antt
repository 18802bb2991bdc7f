-- ===== src/Cluster/Create/Finding.antt =====
-- The local node that `findMyNode` of cluster/service.go finds, and `StartUp` after `Create`.
use Prim.Native.String.{◌++◌ as cat}
use own_x_go.Base.{
  ◌≢◌, if_pos, if_neg, ap, if◌then◌else◌, ℕ, ◌≡◌, refl, sym, subst, ◌∙◌, ◌⊎◌, String,
  String_discrete, List, [], ◌∷◌, Option, none, some, true, has, arith, inl, inr,
}
use own_x_go.Cluster.Node.{Node}
use own_x_go.Cluster.State.{Cluster, Model, cluster, single}
use own_x_go.Cluster.Life.{create_event, update_metrics, present}
use own_x_go.Cluster.Create.{
  NodeConf, store_node, id_for, node_for, Conf, Machine, load_all_nodes, take_node, first_named,
  first_with_ip, find_by_ips, fall_back, find_local, find_by_dir, find_my_node, fresh_cluster,
  create,
}

-- The node `i` of the cluster `c` is named after the directory of the program.
pub record IsNamed (w : Machine) (c : Cluster) (i : String) : Type 0 where
  pub dir : w.program_dir ≢ ""
  pub here : has String_discrete i c.nodes_all ≡ true
  pub name : (c.nodes i).name ≡ cat "node_" w.program_dir

-- It has one of the addresses.
pub record IsAt (ips : List String) (c : Cluster) (i : String) : Type 0 where
  pub here : has String_discrete i c.nodes_all ≡ true
  pub ip : has String_discrete (c.nodes i).ip ips ≡ true

-- The local node that there is to be in the cluster `c`, by the first of the ways in which there is
-- one.
pub data IsFound (w : Machine) (c : Cluster) : Option String → Type 0 where
  by_dir : {i : String} → IsNamed w c i → IsFound w c (some i)
  by_ip :
      {i : String} {ips : List String}
      → ((j : String) → ¬ IsNamed w c j)
      → w.intranet_ips ≡ some ips
      → IsAt ips c i
      → IsFound w c (some i)
  made :
      {ips : List String}
      → ((j : String) → ¬ IsNamed w c j)
      → w.intranet_ips ≡ some ips
      → ((j : String) → ¬ IsAt ips c j)
      → c.model ≡ single
      → IsFound w c (some "")
  nowhere :
      {ips : List String}
      → ((j : String) → ¬ IsNamed w c j)
      → w.intranet_ips ≡ some ips
      → ((j : String) → ¬ IsAt ips c j)
      → c.model ≡ cluster
      → IsFound w c none
  no_address :
      ((j : String) → ¬ IsNamed w c j)
      → (w.intranet_ips ≡ none) ⊎ (w.intranet_ips ≡ some [])
      → IsFound w c none

first_named_lem :
    (s i : String) (nodes : String → Node) (is : List String)
    → first_named s nodes is ≡ some i
    → (has String_discrete i is ≡ true) × ((nodes i).name ≡ s)
unfolding first_named has
first_named_lem s i nodes [] e = cc
first_named_lem s i nodes (j ∷ is) e = ground (arith, first_named_lem s i nodes is)

first_with_ip_lem :
    (ip i : String) (nodes : String → Node) (is : List String)
    → first_with_ip ip nodes is ≡ some i
    → (has String_discrete i is ≡ true) × ((nodes i).ip ≡ ip)
unfolding first_with_ip has
first_with_ip_lem ip i nodes [] e = cc
first_with_ip_lem ip i nodes (j ∷ is) e = ground (arith, first_with_ip_lem ip i nodes is)

first_named-none :
    (s i : String) (nodes : String → Node) (is : List String)
    → first_named s nodes is ≡ none
    → has String_discrete i is ≡ true
    → (nodes i).name ≢ s
unfolding first_named has
first_named-none s i nodes [] e h n = cc h
first_named-none s i nodes (j ∷ is) e h n = ground (arith, first_named-none s i nodes is)

first_with_ip-none :
    (ip i : String) (nodes : String → Node) (is : List String)
    → first_with_ip ip nodes is ≡ none
    → has String_discrete i is ≡ true
    → (nodes i).ip ≢ ip
unfolding first_with_ip has
first_with_ip-none ip i nodes [] e h n = cc h
first_with_ip-none ip i nodes (j ∷ is) e h n = ground (arith, first_with_ip-none ip i nodes is)

Option-cases : (q : Option String) → (q ≡ none) ⊎ ((i : String) × (q ≡ some i))
Option-cases none = inl refl
Option-cases (some i) = inr (i, refl)

-- The search by the directory finds a node that is named after it, or there is none and nothing changes.
find_by_dir_lem :
    (w : Machine) (c : Cluster)
    → ((find_by_dir w.program_dir c ≡ c) × ((j : String) → ¬ IsNamed w c j))
      ⊎ ((i : String) × IsNamed w c i × ((find_by_dir w.program_dir c).node_my ≡ some i))
unfolding find_by_dir
find_by_dir_lem w c =
    let s = cat "node_" w.program_dir in
    elim (String_discrete w.program_dir "") [
      | yes e ↦ inl (if_pos (String_discrete w.program_dir "") e _ _, λ j n. n.dir e)
      | no dir ↦ elim (Option-cases (first_named s c.nodes c.nodes_all)) [
        | inl q ↦ inl (
          if_neg (String_discrete w.program_dir "") dir _ _ ∙ ap (λ o. take_node o c) q,
          λ j n. first_named-none s j c.nodes c.nodes_all q n.here n.name,
        )
        | inr (i, q) ↦
            let r = first_named_lem s i c.nodes c.nodes_all q in
            inr (
              i,
              record { dir = dir; here = r.0; name = r.1 },
              ap (λ (d : Cluster). d.node_my)
                  (if_neg (String_discrete w.program_dir "") dir _ _ ∙ ap (λ o. take_node o c) q),
            )
      ]
    ]

IsAt-none : (c : Cluster) (j : String) → ¬ IsAt [] c j
unfolding has
IsAt-none c j n = cc (n.ip)

IsAt-cons :
    (ip : String) (ips : List String) (c : Cluster) (j : String)
    → IsAt ips c j
    → IsAt (ip ∷ ips) c j
unfolding has
IsAt-cons ip ips c j n = record { here = n.here; ip = ground (arith, n.ip) }

IsAt-head :
    (ip : String) (ips : List String) (c : Cluster) (j : String)
    → has String_discrete j c.nodes_all ≡ true
    → (c.nodes j).ip ≡ ip
    → IsAt (ip ∷ ips) c j
unfolding has
IsAt-head ip ips c j h e = record { here = h; ip = ground (arith, e) }

IsAt-absent :
    (ip : String) (ips : List String) (c : Cluster)
    → first_with_ip ip c.nodes c.nodes_all ≡ none
    → ((j : String) → ¬ IsAt ips c j)
    → (j : String) → ¬ IsAt (ip ∷ ips) c j
unfolding has
IsAt-absent ip ips c q none_later j n = elim (String_discrete (c.nodes j).ip ip) [
  | yes e ↦ first_with_ip-none ip j c.nodes c.nodes_all q n.here e
  | no other ↦ none_later j (record { here = n.here; ip = ground (arith, n.ip, other) })
]

-- So with the search by the addresses, of which the last that finds a node counts.
find_by_ips_lem :
    (ips : List String) (c : Cluster)
    → ((find_by_ips ips c ≡ c) × ((j : String) → ¬ IsAt ips c j))
      ⊎ ((i : String) × IsAt ips c i × ((find_by_ips ips c).node_my ≡ some i))
unfolding find_by_ips
find_by_ips_lem [] c = inl (refl, IsAt-none c)
find_by_ips_lem (ip ∷ ips) c = elim (Option-cases (first_with_ip ip c.nodes c.nodes_all)) [
  | inl q ↦
      let same = ap (λ o. find_by_ips ips (take_node o c)) q in
      elim (find_by_ips_lem ips c) [
        | inl (e, later) ↦ inl (same ∙ e, IsAt-absent ip ips c q later)
        | inr (i, n, e) ↦ inr (i, IsAt-cons ip ips c i n, ap (λ (d : Cluster). d.node_my) same ∙ e)
      ]
  | inr (j, q) ↦
      let same = ap (λ o. find_by_ips ips (take_node o c)) q in
      let r = first_with_ip_lem ip j c.nodes c.nodes_all q in
      let mine = ap (λ (d : Cluster). d.node_my) same in
      elim (find_by_ips_lem ips (record c { node_my = some j })) [
        | inl (e, later) ↦
            inr (j, IsAt-head ip ips c j r.0 r.1, mine ∙ ap (λ (d : Cluster). d.node_my) e)
        | inr (i, n, e) ↦
            inr (i, IsAt-cons ip ips c i (record { here = n.here; ip = n.ip }), mine ∙ e)
      ]
]

module _ (w : Machine) (c : Cluster) (unset : c.node_my ≡ none)
    (unnamed : (j : String) → ¬ IsNamed w c j) where
  fall_back-IsFound :
      (ip : String) (ips : List String) (m : Model)
      → w.intranet_ips ≡ some ips
      → ((j : String) → ¬ IsAt ips c j)
      → c.model ≡ m
      → IsFound w c (fall_back w ip m c).node_my
  unfolding fall_back
  fall_back-IsFound ip ips cluster h absent e =
      subst (IsFound w c) (sym unset) (nowhere unnamed h absent e)
  fall_back-IsFound ip ips single h absent e = made unnamed h absent e

  find_local-IsFound :
      (o : Option (List String)) → w.intranet_ips ≡ o → IsFound w c (find_local w o c).node_my
  unfolding find_local
  find_local-IsFound none h = subst (IsFound w c) (sym unset) (no_address unnamed (inl h))
  find_local-IsFound (some []) h = subst (IsFound w c) (sym unset) (no_address unnamed (inr h))
  find_local-IsFound (some (ip ∷ ips)) h = elim (find_by_ips_lem (ip ∷ ips) c) [
    | inl (e, absent) ↦
        let here = λ (d : Cluster). if present d.node_my then d else fall_back w ip d.model d in
        let same = ap (λ (d : Cluster). (here d).node_my) e in
        let back = ap (λ o. (if present o then c else fall_back w ip c.model c).node_my) unset in
        subst (IsFound w c) (sym (same ∙ back))
          (fall_back-IsFound ip (ip ∷ ips) c.model h absent refl)
    | inr (i, n, e) ↦
        let d = find_by_ips (ip ∷ ips) c in
        let back = ap (λ o. (if present o then d else fall_back w ip d.model d).node_my) e in
        subst (IsFound w c) (sym (back ∙ e)) (by_ip unnamed h n)
  ]

find_my_node-IsFound :
    (w : Machine) (c : Cluster) → c.node_my ≡ none → IsFound w c (find_my_node w c).node_my
unfolding find_my_node
find_my_node-IsFound w c unset = elim (find_by_dir_lem w c) [
  | inl (e, unnamed) ↦
      let here = λ (d : Cluster). if present d.node_my then d else find_local w w.intranet_ips d in
      let same = ap (λ (d : Cluster). (here d).node_my) e in
      let on = ap (λ o. (if present o then c else find_local w w.intranet_ips c).node_my) unset in
      subst (IsFound w c) (sym (same ∙ on))
        (find_local-IsFound w c unset unnamed w.intranet_ips refl)
  | inr (i, n, e) ↦
      let d = find_by_dir w.program_dir c in
      let on = ap (λ o. (if present o then d else find_local w w.intranet_ips d).node_my) e in
      subst (IsFound w c) (sym (on ∙ e)) (by_dir n)
]

load_all_nodes-node_my :
    (w : Machine) (ns : List NodeConf) (c : Cluster) → (load_all_nodes w ns c).node_my ≡ c.node_my
unfolding load_all_nodes store_node
load_all_nodes-node_my w [] c = refl
load_all_nodes-node_my w (n ∷ ns) c =
    load_all_nodes-node_my w ns (store_node (id_for w n) (node_for n) c)

-- The nodes that Create has when it looks for the local one.
abbrev pub loaded : Machine → Conf → ℕ → Cluster
loaded w k now = load_all_nodes w k.nodes (create_event "Init" (fresh_cluster k now))

-- Create takes for the local node a loaded one that is named after the directory of the program; if
-- there is none, a loaded one with an address of the machine; if there is none either, in the single
-- model one made for the purpose, and in the cluster model none. Without an address of the machine
-- there is none but by the directory.
pub create-IsFound :
    (w : Machine) (k : Conf) (now : ℕ) → IsFound w (loaded w k now) (create w (some k) now).node_my
unfolding create fresh_cluster create_event update_metrics
create-IsFound w k now =
    find_my_node-IsFound w (loaded w k now)
      (load_all_nodes-node_my w k.nodes (create_event "Init" (fresh_cluster k now)))
