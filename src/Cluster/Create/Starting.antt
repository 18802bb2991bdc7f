-- ===== src/Cluster/Create/Starting.antt =====
-- `StartUp` of cluster/service.go on a member that `Create` has made, and what may follow.
use own_x_go.Base.{
  inl, inr, ℕ, ◌≡◌, refl, sym, subst, ◌∙◌, String, List, [], ◌∷◌, Option, none, some, true, false,
  arith,
}
use own_x_go.Cluster.State.{Cluster, Model, single, leader, unset, follow, sign_leader, is_ready}
use own_x_go.Cluster.Life.{create_event, update_metrics, start_up, start_model}
use own_x_go.Cluster.Leadership.{IsCoherent}
use own_x_go.Cluster.Member.{Event, run, run-IsCoherent}
use own_x_go.Cluster.Create.{
  NodeConf, Conf, Machine, load_all_nodes, store_node, id_for, node_for, fresh_cluster, create,
  chosen_model,
}
use own_x_go.Cluster.Create.Loading.{find_my_node-Keeps}
use own_x_go.Cluster.Create.Finding.{
  by_dir, by_ip, made, nowhere, no_address, IsFound, loaded, create-IsFound,
}

-- a member as it is before `StartUp`
record IsNew (m : Model) (c : Cluster) : Type 0 where
  pub model : c.model ≡ m
  pub status : c.status ≡ unset
  pub node_leader : c.node_leader ≡ none
  pub fighting : c.fighting ≡ false

load_all_nodes-IsNew :
    (w : Machine) (m : Model) (ns : List NodeConf) (c : Cluster)
    → IsNew m c
    → IsNew m (load_all_nodes w ns c)
unfolding load_all_nodes store_node
load_all_nodes-IsNew w m [] c h = h
load_all_nodes-IsNew w m (n ∷ ns) c h =
    load_all_nodes-IsNew w m ns (store_node (id_for w n) (node_for n) c) (record {
      model = h.model;
      status = h.status;
      node_leader = h.node_leader;
      fighting = h.fighting;
    })

loaded-IsNew : (w : Machine) (k : Conf) (now : ℕ) → IsNew (chosen_model k.model) (loaded w k now)
unfolding fresh_cluster create_event update_metrics
loaded-IsNew w k now =
    load_all_nodes-IsNew w (chosen_model k.model) k.nodes
      (create_event "Init" (fresh_cluster k now))
      (record { model = refl; status = refl; node_leader = refl; fighting = refl })

create-IsNew :
    (w : Machine) (k : Conf) (now : ℕ) → IsNew (chosen_model k.model) (create w (some k) now)
unfolding create
create-IsNew w k now =
    let h = loaded-IsNew w k now in
    let s = find_my_node-Keeps w (loaded w k now) in
    record {
      model = s.model ∙ h.model;
      status = s.status ∙ h.status;
      node_leader = s.node_leader ∙ h.node_leader;
      fighting = s.fighting ∙ h.fighting;
    }

create_event-IsNew :
    (name : String) (m : Model) (c : Cluster)
    → IsNew m c
    → IsNew m (create_event name c) × ((create_event name c).node_my ≡ c.node_my)
unfolding create_event update_metrics
create_event-IsNew name m c h = ground (arith, h)

sign_leader_self :
    (me : String) (c : Cluster)
    → IsNew single c
    → c.node_my ≡ some me
    → ((sign_leader me c).0.status ≡ leader)
      × ((sign_leader me c).0.node_leader ≡ some me)
      × (is_ready (sign_leader me c).0 ≡ true)
unfolding sign_leader follow is_ready
sign_leader_self me c h e = ground (arith, h.node_leader, h.fighting)

start_model_single :
    (m : Model) (o : Option String) (c : Cluster) (me : String)
    → m ≡ single
    → o ≡ some me
    → start_model m o c ≡ some (sign_leader me c).0
unfolding start_model
start_model_single m o c me e h = rw (e, h)

start_up_single :
    (c : Cluster) (me : String)
    → IsNew single c
    → c.node_my ≡ some me
    → (d : Cluster) × (start_up c ≡ some d)
      × (d.status ≡ leader)
      × (d.node_leader ≡ some me)
      × (is_ready d ≡ true)
unfolding start_up
start_up_single c me h e =
    let b = create_event "StartUp" c in
    let n = create_event-IsNew "StartUp" single c h in
    let s = sign_leader_self me b n.0 (n.1 ∙ e) in
    (
      (sign_leader me b).0,
      start_model_single b.model b.node_my b me n.0.model (n.1 ∙ e),
      s.0,
      s.1,
      s.2,
    )

some_of_IsFound :
    (w : Machine) (c : Cluster) (o : Option String) (ip : String) (ips : List String)
    → IsFound w c o
    → c.model ≡ single
    → w.intranet_ips ≡ some (ip ∷ ips)
    → (me : String) × (o ≡ some me)
some_of_IsFound w c o ip ips (by_dir {i = i} n) e h = (i, refl)
some_of_IsFound w c o ip ips (by_ip {i = i} u a n) e h = (i, refl)
some_of_IsFound w c o ip ips (made u a b m) e h = ("", refl)
some_of_IsFound w c o ip ips (nowhere u a b m) e h = cc
some_of_IsFound w c o ip ips (no_address u a) e h = elim a [ inl x ↦ cc | inr x ↦ cc ]

-- On a machine with an address, a member that Create has made in the single model is the leader of
-- itself, and ready, after StartUp.
pub start_up-create :
    (w : Machine) (k : Conf) (now : ℕ) (ip : String) (ips : List String)
    → chosen_model k.model ≡ single
    → w.intranet_ips ≡ some (ip ∷ ips)
    → (d : Cluster) × (start_up (create w (some k) now) ≡ some d)
      × (d.status ≡ leader)
      × (d.node_leader ≡ (create w (some k) now).node_my)
      × (is_ready d ≡ true)
start_up-create w k now ip ips m h =
    let c = create w (some k) now in
    let n : IsNew single c = subst (λ x. IsNew x c) m (create-IsNew w k now) in
    let l = loaded w k now in
    let (me, e) =
      some_of_IsFound w l c.node_my ip ips (create-IsFound w k now)
        ((loaded-IsNew w k now).model ∙ m) h in
    let (d, r, a, b, t) = start_up_single c me n e in (d, r, a, b ∙ sym e, t)

-- A member that Create has made, with a local node, and that StartUp has started: after any history
-- of entry points it takes itself for the leader exactly when its status is leader, apart from a
-- closed member.
pub run-create-IsCoherent :
    (w : Machine) (k : Conf) (now : ℕ) (me : String) (es : List Event) (d : Cluster)
    → (create w (some k) now).node_my ≡ some me
    → start_up (create w (some k) now) ≡ some d
    → IsCoherent me (run es d)
run-create-IsCoherent w k now me es d e r =
    let n = create-IsNew w k now in
    run-IsCoherent me es (create w (some k) now) d
      (record { here = e; leading = λ s. cc n.status; led = λ s. cc n.node_leader }) r
