-- ===== src/Cluster/Create/Tests.antt =====
-- Members as `Create` of cluster/service.go makes them, and the theorems at them.
use own_x_go.Base.{◌≡◌, refl, String_discrete, [], ◌∷◌, some, true, has, negsuc}
use own_x_go.Cluster.State.{Cluster, single, leader, is_ready}
use own_x_go.Cluster.Life.{start_up, create_event}
use own_x_go.Cluster.Create.{
  fresh_cluster, load_all_nodes, find_my_node, Conf, Machine, create, chosen_model,
}
use own_x_go.Cluster.Create.Finding.{IsFound, loaded, create-IsFound}
use own_x_go.Cluster.Create.Starting.{start_up-create}

abbrev machine : Machine
machine = record {
  program_dir = "";
  intranet_ips = some ("10.0.0.2" ∷ []);
  host_ip = "";
  to_string = λ n. "80";
}

-- Two entries for one id, of which the second counts.
abbrev conf : Conf
conf = record {
  model = "single";
  node_timeout = negsuc 4;
  nodes =
      record { name = "a"; ip = "10.0.0.1"; port = 80 }
      ∷ record { name = "b"; ip = "10.0.0.2"; port = 80 }
      ∷ record { name = "c"; ip = "10.0.0.2"; port = 80 }
      ∷ [];
}

create-IsFound_example :
    IsFound machine (loaded machine conf 7) (create machine (some conf) 7).node_my
create-IsFound_example = create-IsFound machine conf 7

single_model : chosen_model "single" ≡ single
unfolding chosen_model String_discrete
single_model = refl

start_up-create_example :
    (d : Cluster) × (start_up (create machine (some conf) 7) ≡ some d)
    × (d.status ≡ leader)
    × (d.node_leader ≡ (create machine (some conf) 7).node_my)
    × (is_ready d ≡ true)
start_up-create_example = start_up-create machine conf 7 "10.0.0.2" [] single_model refl

abbrev started : Cluster
started = (start_up-create machine conf 7 "10.0.0.2" [] single_model refl).0

starts : start_up (create machine (some conf) 7) ≡ some started
starts = (start_up-create machine conf 7 "10.0.0.2" [] single_model refl).1

finds_itself : (create machine (some conf) 7).node_my ≡ some "10.0.0.2:80"
unfolding create fresh_cluster load_all_nodes find_my_node create_event String_discrete has
finds_itself = refl
