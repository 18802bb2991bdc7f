-- ===== src/Cluster/Ballots/Stretches.antt =====
-- What the stretches of an election (cluster/contact.go, `fightElection`) do to votes: only the vote
-- for oneself counts, and it is given where it is counted.
use own_x_go.Base.{
  ℕ, ◌+◌, ◌≡◌, ◌≢◌, ◌≤◌, ◌∙◌, String, List, [], ◌∷◌, some, Bool, true, false, arith, if_both,
  if◌then◌else◌, not, ite, String_discrete, ℕ_discrete, lookup-insert,
}
use own_x_go.Cluster.Node.{Node, get_vote_count, get_vote_to_node, clear, set_term}
use own_x_go.Cluster.State.{
  Cluster, NodeMsg, emit, sends, starts_election, get_my_id, get_my_term, sign_leader, modify,
}
use own_x_go.Cluster.Election.{
  Phase, asking, asked, running, polled, confirming, done, advance, enter, ask, become_candidate,
  poll, vote_self, wins, count_votes, confirm, leave, send_all, send_and_wait, stop_waiting,
  message,
}
use own_x_go.Cluster.Messages.{msg_s_get_vote, msg_s_ask_leader, msg_s_broadcast_leader}
use own_x_go.Cluster.Life.{create_event}
use own_x_go.Cluster.Ballots.{Quiet, Quiet-refl, Quiet-trans, create_event-Quiet, sign_leader-Quiet}

-- 1 where the member has given its vote of term `t`.
unfoldable pub has_voted : ℕ → Node → ℕ
has_voted t n = ite (String_discrete (get_vote_to_node t n) "") 0 1

-- From `c` to `d` the member gives at least as many votes of term `t` as it comes to count, and
-- forgets none that it has counted.
pub record Settles (t : ℕ) (me : String) (c d : Cluster) : Type 0 where
  pub my : d.node_my ≡ c.node_my
  pub all : d.nodes_all ≡ c.nodes_all
  pub more : get_vote_count t (c.nodes me) ≤ get_vote_count t (d.nodes me)
  pub pays :
      get_vote_count t (d.nodes me) + has_voted t (c.nodes me)
      ≤ get_vote_count t (c.nodes me) + has_voted t (d.nodes me)

pub Quiet-Settles : (t : ℕ) (me : String) (c d : Cluster) → Quiet me c d → Settles t me c d
unfolding has_voted get_vote_count get_vote_to_node
Quiet-Settles t me c d q = record {
  my = q.my;
  all = q.all;
  more = ground (arith, q.counts);
  pays = ground (arith, q.counts, q.gives);
}

pub Settles-trans :
    (t : ℕ) (me : String) (c d e : Cluster) → Settles t me c d → Settles t me d e → Settles t me c e
Settles-trans t me c d e p q = record {
  my = q.my ∙ p.my;
  all = q.all ∙ p.all;
  more = omega (arith, p.more, q.more);
  pays = omega (arith, p.pays, q.pays);
}

module _ (me : String) where
  leave-Quiet : (again : Bool) (c : Cluster) → Quiet me c (leave again c).0
  unfolding leave
  leave-Quiet again c =
      let d : Cluster =
        if again
        then emit starts_election (record c { fighting = false })
        else record c { fighting = false } in
      let q : Quiet me c d = ground arith in
      Quiet-trans me c d (create_event "ElectionFinish" d) q
        (create_event-Quiet me d "ElectionFinish")

  send_all-Quiet :
      (is : List String) (flag : ℕ) (m : NodeMsg) (c : Cluster) → Quiet me c (send_all is flag m c)
  unfolding send_all
  send_all-Quiet [] flag m c = Quiet-refl me c
  send_all-Quiet (i ∷ is) flag m c =
      let d : Cluster =
        ite (String_discrete i (get_my_id c)) c
          (if (c.nodes i).connected then emit (sends i flag m) c else c) in
      let q : Quiet me c d = ground arith in
      Quiet-trans me c d (send_all is flag m d) q (send_all-Quiet is flag m d)

  send_and_wait-Quiet : (flag : ℕ) (m : NodeMsg) (c : Cluster) → Quiet me c (send_and_wait flag m c)
  unfolding send_and_wait
  send_and_wait-Quiet flag m c =
      let d = record c { waiting = true } in
      let q : Quiet me c d = ground arith in
      Quiet-trans me c d (send_all c.nodes_all flag m d) q (send_all-Quiet c.nodes_all flag m d)

  pub enter-Quiet : (c : Cluster) → Quiet me c (enter c).0
  unfolding enter modify set_term
  enter-Quiet c =
      let b = create_event "ElectionStart" c in
      ground (
        arith,
        create_event-Quiet me c "ElectionStart",
        create_event-Quiet me b "ElectionFinish",
        leave-Quiet true (record b { fighting = true }),
      )

  ask-Quiet : (t : ℕ) (c : Cluster) → Quiet me c (ask t c).0
  unfolding ask
  ask-Quiet t c = ground (
    arith,
    leave-Quiet false c,
    send_and_wait-Quiet msg_s_ask_leader (message (get_my_id c) t "" "" "") c,
  )

  become_candidate-Quiet : (t : ℕ) (c : Cluster) → Quiet me c (become_candidate t c).0
  unfolding become_candidate modify clear
  become_candidate-Quiet t c = ground (arith, leave-Quiet false (stop_waiting c))

  poll-Quiet : (t : ℕ) (c : Cluster) → Quiet me c (poll t c).0
  unfolding poll
  poll-Quiet t c = ground (
    arith,
    leave-Quiet false c,
    leave-Quiet true c,
    send_and_wait-Quiet msg_s_get_vote (message (get_my_id c) (get_my_term c) "" "" "") c,
  )

  confirm-Quiet : (answers : List NodeMsg) (c : Cluster) → Quiet me c (confirm answers c).0
  unfolding confirm
  confirm-Quiet answers c =
      let d = stop_waiting c in
      let (e, signed) = sign_leader (get_my_id d) d in
      let q = sign_leader-Quiet me d (get_my_id d) in
      ground (arith, leave-Quiet true d, leave-Quiet (not signed) e, q)

  vote_self-Settles :
      (t u : ℕ) (c : Cluster) → c.node_my ≡ some me → me ≢ "" → Settles t me c (vote_self u c)
  unfolding vote_self has_voted get_vote_count get_vote_to_node
  vote_self-Settles t u c here named = ground (
    arith,
    here,
    lookup-insert ℕ_discrete u t me (c.nodes me).vote_node,
    lookup-insert ℕ_discrete u t (get_vote_count u (c.nodes me) + 1) (c.nodes me).vote_count,
  )

  count_votes-Settles :
      (t u : ℕ) (c : Cluster) → c.node_my ≡ some me → me ≢ "" → Settles t me c (count_votes u c).0
  unfolding count_votes
  count_votes-Settles t u c here named =
      let b = stop_waiting c in
      let d = vote_self u b in
      let m = message (get_my_id d) u (get_my_id d) "" "1" in
      let q : Quiet me c b = ground arith in
      let v =
        Settles-trans t me c b d (Quiet-Settles t me c b q) (vote_self-Settles t u b here named) in
      if_both (λ (r : Cluster × Phase). Settles t me c r.0) (wins u d)
        (Settles-trans t me c d (send_and_wait msg_s_broadcast_leader m d) v (
          Quiet-Settles t me d (send_and_wait msg_s_broadcast_leader m d)
            (send_and_wait-Quiet msg_s_broadcast_leader m d)))
        (Settles-trans t me c d (leave true d).0 v
          (Quiet-Settles t me d (leave true d).0 (leave-Quiet true d)))

  pub advance-Settles :
      (t : ℕ) (p : Phase) (answers : List NodeMsg) (c : Cluster)
      → c.node_my ≡ some me
      → me ≢ ""
      → Settles t me c (advance p answers c).0
  unfolding advance
  advance-Settles t (asking u) answers c h n = Quiet-Settles t me c (ask u c).0 (ask-Quiet u c)
  advance-Settles t (asked u) answers c h n =
      Quiet-Settles t me c (become_candidate u c).0 (become_candidate-Quiet u c)
  advance-Settles t (running u) answers c h n = Quiet-Settles t me c (poll u c).0 (poll-Quiet u c)
  advance-Settles t (polled u) answers c h n = count_votes-Settles t u c h n
  advance-Settles t (confirming u) answers c h n =
      Quiet-Settles t me c (confirm answers c).0 (confirm-Quiet answers c)
  advance-Settles t (done again) answers c h n = Quiet-Settles t me c c (Quiet-refl me c)
