-- ===== src/Cluster/Closing.antt =====
-- `Close` of cluster/service.go.
use own_x_go.Base.{◌≡◌, refl, none, true, false, arith, List, [], ◌∷◌, String, has, String_discrete}
use own_x_go.Cluster.State.{Cluster, closed, modify, emit, disconnects}
use own_x_go.Cluster.Life.{close, create_event, disconnect_all}

disconnect_all-frame :
    (is : List String) (c : Cluster)
    → ((disconnect_all is c).gauge ≡ c.gauge)
      × ((disconnect_all is c).status ≡ c.status)
      × ((disconnect_all is c).events ≡ c.events)
unfolding disconnect_all
disconnect_all-frame [] c = (refl, refl, refl)
disconnect_all-frame (i ∷ is) c = ground (
  arith,
  disconnect_all-frame is c,
  disconnect_all-frame is (modify i (λ n. record n { connected = false }) (emit (disconnects i) c)),
)

disconnect_all-stays :
    (is : List String) (c : Cluster) (j : String)
    → (c.nodes j).connected ≡ false
    → ((disconnect_all is c).nodes j).connected ≡ false
unfolding disconnect_all modify
disconnect_all-stays [] c j e = e
disconnect_all-stays (i ∷ is) c j e = disconnect_all-stays is _ j (ground arith)

disconnect_all-connected :
    (is : List String) (c : Cluster) (j : String)
    → has String_discrete j is ≡ true
    → ((disconnect_all is c).nodes j).connected ≡ false
unfolding disconnect_all has modify
disconnect_all-connected [] c j e = cc
disconnect_all-connected (i ∷ is) c j e = elim (String_discrete j i) [
  | yes p ↦ disconnect_all-stays is _ j (ground arith)
  | no p ↦ disconnect_all-connected is _ j (ground arith)
]

create_event_closed : (name : String) (c : Cluster) → c.status ≡ closed → create_event name c ≡ c
unfolding create_event
create_event_closed name c e = ground arith

close-frame :
    (c : Cluster)
    → c.close_done ≡ false
    → ((close c).status ≡ closed)
      × ((close c).gauge ≡ c.gauge)
      × ((close c).events ≡ none)
      × ((j : String)
          → has String_discrete j c.nodes_all ≡ true
          → ((close c).nodes j).connected ≡ false)
unfolding close
close-frame c e =
    let b : Cluster = record c { status = closed; close_done = true } in
    let d : Cluster = record b { accepting = false; events = none } in
    let f = disconnect_all-frame c.nodes_all d in
    rw (e, create_event_closed "Close" b refl)
      (f.1, f.0, f.2, λ j h. disconnect_all-connected c.nodes_all d j h)

-- The first `Close` closes the member and every connection of a configured node, drops the channel
-- of events, and leaves the gauge at the value that it had; and on a member with the status closed,
-- which `Close` sets before it, `createEvent` of the event `Close` does nothing.
pub close_first :
    (c : Cluster)
    → c.close_done ≡ false
    → ((close c).status ≡ closed)
      × ((close c).gauge ≡ c.gauge)
      × ((close c).events ≡ none)
      × ((j : String)
          → has String_discrete j c.nodes_all ≡ true
          → ((close c).nodes j).connected ≡ false)
      × (let b : Cluster = record c { status = closed; close_done = true } in
          create_event "Close" b ≡ b)
close_first c e =
    let (status, gauge, events, nodes) = close-frame c e in
    (
      status,
      gauge,
      events,
      nodes,
      create_event_closed "Close" (record c { status = closed; close_done = true }) refl,
    )
