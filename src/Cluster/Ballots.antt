-- ===== src/Cluster/Ballots.antt =====
-- Which entry points of cluster/ leave alone the votes that a member gives and counts.
pub mod Stretches
pub mod Handlers
pub mod Requests
use own_x_go.Base.{
  ℕ, ◌≡◌, ◌≤◌, refl, ◌∙◌, String, List, [], ◌∷◌, none, some, Option, Bool, arith, if_both, ltb,
  true, false, if◌then◌else◌, subst, sym, length, ite, String_discrete,
}
use own_x_go.Cluster.State.{
  Cluster, NodeMsg, emit, sends, starts_election, sign_leader, release_leader, to_next_term,
  get_my_id, get_my_term, modify, is_leader, is_closed, is_ready, closed, disconnects,
}
use own_x_go.Cluster.Server.{
  learn, accept_leader, release_old, on_ask_leader, on_broadcast_leader, reply_ok, reply_leader,
}
use own_x_go.Cluster.Client.{
  on_told_leader, on_confirm, on_session_connected, on_session_closed, deliver,
}
use own_x_go.Cluster.Messages.{push_task, register_func}
use own_x_go.Cluster.Connect.{hold_node, hold_all, hold_connection}
use own_x_go.Cluster.Life.{
  create_event, beat_node, beat_all, watch_leader, disconnect_all, close, trim, trim_votes,
  heartbeat,
}

-- The member `me` has the same votes in `d` as in `c`, and knows the same nodes.
pub record Quiet (me : String) (c d : Cluster) : Type 0 where
  pub my : d.node_my ≡ c.node_my
  pub all : d.nodes_all ≡ c.nodes_all
  pub counts : (d.nodes me).vote_count ≡ (c.nodes me).vote_count
  pub gives : (d.nodes me).vote_node ≡ (c.nodes me).vote_node

module _ (me : String) where
  pub Quiet-refl : (c : Cluster) → Quiet me c c
  Quiet-refl c = record { my = refl; all = refl; counts = refl; gives = refl }

  pub Quiet-trans : (c d e : Cluster) → Quiet me c d → Quiet me d e → Quiet me c e
  Quiet-trans c d e p q = record {
    my = q.my ∙ p.my;
    all = q.all ∙ p.all;
    counts = q.counts ∙ p.counts;
    gives = q.gives ∙ p.gives;
  }

trim_small : {V : Type 0} (m : List (ℕ × V)) → length m ≤ 20 → trim m ≡ m
unfolding trim
trim_small m h = ground (arith, h)

module _ (me : String) (c : Cluster) where
  pub release_leader-Quiet : (now : ℕ) → Quiet me c (release_leader now c)
  unfolding release_leader
  release_leader-Quiet now = record { my = refl; all = refl; counts = refl; gives = refl }

  pub sign_leader-Quiet : (i : String) → Quiet me c (sign_leader i c).0
  unfolding sign_leader
  sign_leader-Quiet i = ground arith

  pub learn-Quiet : (m : NodeMsg) (now : ℕ) → Quiet me c (learn m now c)
  unfolding learn
  learn-Quiet m now = ground arith

  pub push_task-Quiet : (name payload : String) → Quiet me c (push_task name payload c)
  unfolding push_task
  push_task-Quiet name payload = ground arith

  pub accept_leader-Quiet : (m : NodeMsg) → Quiet me c (accept_leader m c)
  unfolding accept_leader
  accept_leader-Quiet m = ground (arith, sign_leader-Quiet m.leader_id)

  pub release_old-Quiet : (m : NodeMsg) (now : ℕ) → Quiet me c (release_old m now c)
  unfolding release_old
  release_old-Quiet m now = ground arith

  pub on_ask_leader-Quiet : (m : NodeMsg) → Quiet me c (on_ask_leader m c)
  unfolding on_ask_leader
  on_ask_leader-Quiet m = ground arith

  pub on_session_connected-Quiet : (i : String) → Quiet me c (on_session_connected i c)
  unfolding on_session_connected
  on_session_connected-Quiet i = ground arith

  pub on_session_closed-Quiet : (i : String) (now : ℕ) → Quiet me c (on_session_closed i now c)
  unfolding on_session_closed
  on_session_closed-Quiet i now = ground arith

  pub on_told_leader-Quiet : (m : NodeMsg) → Quiet me c (on_told_leader m c)
  unfolding on_told_leader
  on_told_leader-Quiet m = ground (arith, sign_leader-Quiet m.leader_id)

  pub on_confirm-Quiet : (m : NodeMsg) (now : ℕ) → Quiet me c (on_confirm m now c)
  unfolding on_confirm
  on_confirm-Quiet m now = ground arith

  pub register_func-Quiet : (name : String) (f : ℕ) → Quiet me c (register_func name f c).0
  unfolding register_func
  register_func-Quiet name f = ground arith

  pub create_event-Quiet : (name : String) → Quiet me c (create_event name c)
  unfolding create_event
  create_event-Quiet name = ground arith

  pub watch_leader-Quiet : (now : ℕ) (l : Option String) → Quiet me c (watch_leader now l c)
  unfolding watch_leader
  watch_leader-Quiet now none = ground arith
  watch_leader-Quiet now (some l) = ground arith

  pub beat_node-Quiet : (now : ℕ) (i : String) → Quiet me c (beat_node now i c)
  unfolding beat_node
  beat_node-Quiet now i = ground arith

  pub reply_ok-Quiet : Quiet me c (reply_ok c)
  unfolding reply_ok
  reply_ok-Quiet = record { my = refl; all = refl; counts = refl; gives = refl }

  pub reply_leader-Quiet : (m : NodeMsg) (ok : Bool) → Quiet me c (reply_leader m ok c)
  reply_leader-Quiet m ok = record { my = refl; all = refl; counts = refl; gives = refl }

  pub disconnect-Quiet :
      (i : String)
      → Quiet me c (
          if (c.nodes i).connected
          then modify i (λ n. record n { connected = false }) (emit (disconnects i) c)
          else c)
  unfolding modify
  disconnect-Quiet i = ground arith

  pub trim_votes-Quiet :
      c.node_my ≡ some me
      → length (c.nodes me).vote_count ≤ 20
      → length (c.nodes me).vote_node ≤ 20
      → Quiet me c (trim_votes c)
  unfolding trim_votes
  trim_votes-Quiet here a b =
      ground (arith, trim_small (c.nodes me).vote_count, trim_small (c.nodes me).vote_node)

module _ (me : String) where
  pub on_broadcast_leader-Quiet :
      (m : NodeMsg) (now : ℕ) (c : Cluster) → Quiet me c (on_broadcast_leader m now c)
  unfolding on_broadcast_leader
  on_broadcast_leader-Quiet m now c =
      let b = release_old m now c in
      let d = learn m now b in
      let e = reply_ok d in
      if_both (Quiet me c) (ltb m.term (get_my_term c)) (reply_leader-Quiet me c m false) (
        Quiet-trans me c b (accept_leader m e) (release_old-Quiet me c m now) (
          Quiet-trans me b d (accept_leader m e) (learn-Quiet me b m now) (
            Quiet-trans me d e (accept_leader m e) (reply_ok-Quiet me d)
              (accept_leader-Quiet me e m))))

  pub beat_all-Quiet : (now : ℕ) (is : List String) (c : Cluster) → Quiet me c (beat_all now is c)
  unfolding beat_all
  beat_all-Quiet now [] c = Quiet-refl me c
  beat_all-Quiet now (i ∷ is) c =
      Quiet-trans me c (beat_node now i c) (beat_all now is (beat_node now i c))
        (beat_node-Quiet me c now i) (beat_all-Quiet now is (beat_node now i c))

  pub hold_all-Quiet :
      (reaches : String → Bool) (is : List String) (c : Cluster)
      → Quiet me c (hold_all reaches is c)
  unfolding hold_all hold_node
  hold_all-Quiet reaches [] c = Quiet-refl me c
  hold_all-Quiet reaches (i ∷ is) c =
      let q : Quiet me c (hold_node reaches i c) = ground arith in
      Quiet-trans me c (hold_node reaches i c) _ q
        (hold_all-Quiet reaches is (hold_node reaches i c))

  pub hold_connection-Quiet :
      (reaches : String → Bool) (c : Cluster) → Quiet me c (hold_connection reaches c).0
  unfolding hold_connection
  hold_connection-Quiet reaches c =
      if_both (λ (r : Cluster × Bool). Quiet me c r.0) (is_closed c.status) (Quiet-refl me c)
        (hold_all-Quiet reaches c.nodes_all c)

  pub disconnect_all-Quiet : (is : List String) (c : Cluster) → Quiet me c (disconnect_all is c)
  unfolding disconnect_all
  disconnect_all-Quiet [] c = Quiet-refl me c
  disconnect_all-Quiet (i ∷ is) c =
      let d : Cluster =
        if (c.nodes i).connected
        then modify i (λ n. record n { connected = false }) (emit (disconnects i) c)
        else c in
      Quiet-trans me c d (disconnect_all is d) (disconnect-Quiet me c i) (disconnect_all-Quiet is d)

  pub close-Quiet : (c : Cluster) → Quiet me c (close c)
  unfolding close
  close-Quiet c =
      let b = record c { status = closed; close_done = true } in
      let d = create_event "Close" b in
      let e = record d { accepting = false; events = none } in
      let shut : Quiet me c b = record { my = refl; all = refl; counts = refl; gives = refl } in
      let off : Quiet me d e = record { my = refl; all = refl; counts = refl; gives = refl } in
      if_both (Quiet me c) c.close_done (Quiet-refl me c) (
        Quiet-trans me c b (disconnect_all d.nodes_all e) shut (
          Quiet-trans me b d (disconnect_all d.nodes_all e) (create_event-Quiet me b "Close") (
            Quiet-trans me d e (disconnect_all d.nodes_all e) off
              (disconnect_all-Quiet d.nodes_all e))))

  -- A round of heartbeat, where no map of terms is so large that it is trimmed.
  pub heartbeat-Quiet :
      (now : ℕ) (c : Cluster)
      → c.node_my ≡ some me
      → length (c.nodes me).vote_count ≤ 20
      → length (c.nodes me).vote_node ≤ 20
      → Quiet me c (heartbeat now c).0
  unfolding heartbeat
  heartbeat-Quiet now c here a b =
      let d : Cluster =
        if is_leader c.status
        then beat_all now c.nodes_all c
        else watch_leader now c.node_leader c in
      let q : Quiet me c d =
        if_both (Quiet me c) (is_leader c.status) (beat_all-Quiet now c.nodes_all c)
          (watch_leader-Quiet me c now c.node_leader) in
      let t =
        trim_votes-Quiet me d (q.my ∙ here) (subst (λ l. length l ≤ 20) (sym q.counts) a)
          (subst (λ l. length l ≤ 20) (sym q.gives) b) in
      if_both (λ (r : Cluster × Bool). Quiet me c r.0) (is_ready c)
        (Quiet-trans me c d (trim_votes d) q t)
        (if_both (λ (r : Cluster × Bool). Quiet me c r.0) (is_closed c.status) (Quiet-refl me c)
          (Quiet-refl me c))
