-- ===== src/Cluster/Names.antt =====
-- cluster/service.go: the names and addresses that a member gives of itself and of the nodes. A range
-- over a map takes its keys in the order of the list.
use own_x_go.Base.{
  ℕ, String, String_discrete, List, [], ◌∷◌, map, Option, none, some, Bool, false, not, ◌||◌, ite,
  if◌then◌else◌, has,
}
use own_x_go.Cluster.Node.{is_time_out}
use own_x_go.Cluster.State.{Cluster, get_my_id}

abbrev pub text_of : Option String → (String → String) → String
text_of none f = ""
text_of (some i) f = f i

abbrev pub get_my_ip : Cluster → String
get_my_ip c = text_of c.node_my (λ i. (c.nodes i).ip)

abbrev pub get_my_name : Cluster → String
get_my_name c = text_of c.node_my (λ i. (c.nodes i).name)

abbrev pub get_all_node_names : Cluster → List String
get_all_node_names c = map (λ i. (c.nodes i).name) c.nodes_all

-- None is the panic of a nil local node.
abbrev pub get_alive_node_names : Cluster → Option (List String)
get_alive_node_names c = elim c.node_my [
  | none ↦ none
  | some me ↦ some ((c.nodes me).name ∷ map (λ i. (c.nodes i).name) c.nodes_alive)
]

abbrev pub unless_blank : List String → List String
unless_blank (ip ∷ []) = ite (String_discrete ip "") [] (ip ∷ [])
unless_blank ips = ips

abbrev pub get_alive_node_ips : Cluster → Option (List String)
get_alive_node_ips c = elim c.node_my [
  | none ↦ none
  | some me ↦ some (unless_blank ((c.nodes me).ip ∷ map (λ i. (c.nodes i).ip) c.nodes_alive))
]

-- The test of the loops of `GetLostNodeNames` and `GetLostNodeIps`.
abbrev pub is_lost : ℕ → Cluster → String → Bool
is_lost now c i =
    ite (String_discrete i (get_my_id c)) false
      (not (has String_discrete i c.nodes_alive) || is_time_out now c.node_timeout (c.nodes i))

abbrev pub lost : ℕ → Cluster → List String → List String
lost now c [] = []
lost now c (i ∷ is) = let rest = lost now c is in if is_lost now c i then i ∷ rest else rest

abbrev pub get_lost_node_names : ℕ → Cluster → List String
get_lost_node_names now c = map (λ i. (c.nodes i).name) (lost now c c.nodes_all)

abbrev pub get_lost_node_ips : ℕ → Cluster → List String
get_lost_node_ips now c = map (λ i. (c.nodes i).ip) (lost now c c.nodes_all)
