-- ===== src/Cluster/Victory.antt =====
-- What an election (cluster/contact.go, `fightElection`) takes to be won.
use own_x_go.Base.{
  ℕ, ◌≤◌, ◌≡◌, ◌≢◌, refl, String, Bool, true, false, arith, List, length, ◌∷◌, ◌/◌, ◌<◌, not,
  Bool-cases, ap, [], inl, inr, All, some, Option, none,
}
use own_x_go.Cluster.State.{
  Cluster, NodeMsg, leader, modify, sign_leader, emit, sends, starts_election, get_my_id,
  get_my_term,
}
use own_x_go.Cluster.Election.{
  advance, confirm, count_votes, leave, poll, vote_self, wins, ask, send_and_wait, become_candidate,
  send_all, Phase, stop_waiting, confirming, done, some_answer, message, all_true, asking, asked,
  running, polled, overtaken,
}
use own_x_go.Cluster.Life.{create_event}
use own_x_go.Cluster.Messages.{msg_s_get_vote, msg_s_ask_leader, msg_s_broadcast_leader}
use own_x_go.Cluster.Node.{get_vote_count}
use own_x_go.Cluster.Client.{is_true}

create_event-frame :
    (name : String) (c : Cluster)
    → ((create_event name c).status ≡ c.status)
      × ((create_event name c).nodes ≡ c.nodes)
      × ((create_event name c).node_my ≡ c.node_my)
      × ((create_event name c).fighting ≡ c.fighting)
unfolding create_event
create_event-frame name c = ground arith

leave-frame :
    (again : Bool) (c : Cluster)
    → ((leave again c).0.status ≡ c.status)
      × ((leave again c).1 ≡ done again)
      × ((leave again c).0.fighting ≡ false)
unfolding leave
leave-frame again c = ground (
  arith,
  create_event-frame "ElectionFinish" (emit starts_election (record c { fighting = false })),
  create_event-frame "ElectionFinish" (record c { fighting = false }),
)

create_event-node_leader :
    (name : String) (c : Cluster) → (create_event name c).node_leader ≡ c.node_leader
unfolding create_event
create_event-node_leader name c = ground arith

leave-node_leader : (again : Bool) (c : Cluster) → (leave again c).0.node_leader ≡ c.node_leader
unfolding leave
leave-node_leader again c = ground (
  arith,
  create_event-node_leader "ElectionFinish" (emit starts_election (record c { fighting = false })),
  create_event-node_leader "ElectionFinish" (record c { fighting = false }),
)

some_answer-length : (answers : List NodeMsg) → some_answer answers ≡ true → 0 < length answers
some_answer-length [] e = cc e
some_answer-length (m ∷ ms) e = omega arith

is_true-some : (success : Option Bool) → is_true success ≡ true → success ≡ some true
is_true-some none e = cc e
is_true-some (some false) e = cc e
is_true-some (some true) e = refl

all_true-All :
    (answers : List NodeMsg)
    → all_true answers ≡ true
    → All (λ (m : NodeMsg). m.success ≡ some true) answers
all_true-All [] e = tt
all_true-All (m ∷ ms) e = (is_true-some m.success (ground arith), all_true-All ms (ground arith))

send_all-frame :
    (is : List String) (flag : ℕ) (m : NodeMsg) (c : Cluster)
    → ((send_all is flag m c).status ≡ c.status)
      × ((send_all is flag m c).nodes ≡ c.nodes)
      × ((send_all is flag m c).nodes_all ≡ c.nodes_all)
      × ((send_all is flag m c).node_my ≡ c.node_my)
unfolding send_all
send_all-frame [] flag m c = (refl, refl, refl, refl)
send_all-frame (i ∷ is) flag m c =
    ground (arith, send_all-frame is flag m c, send_all-frame is flag m (emit (sends i flag m) c))

send_and_wait-frame :
    (flag : ℕ) (m : NodeMsg) (c : Cluster)
    → ((send_and_wait flag m c).status ≡ c.status)
      × ((send_and_wait flag m c).nodes ≡ c.nodes)
      × ((send_and_wait flag m c).nodes_all ≡ c.nodes_all)
      × ((send_and_wait flag m c).node_my ≡ c.node_my)
unfolding send_and_wait
send_and_wait-frame flag m c = send_all-frame c.nodes_all flag m (record c { waiting = true })

module _ (c : Cluster) (behind : c.status ≢ leader) where
  ask-status : (t : ℕ) → (ask t c).0.status ≢ leader
  unfolding ask
  ask-status t e = ground (
    arith,
    leave-frame false c,
    send_and_wait-frame msg_s_ask_leader (message (get_my_id c) t "" "" "") c,
  )

  become_candidate-status : (t : ℕ) → (become_candidate t c).0.status ≢ leader
  unfolding become_candidate modify
  become_candidate-status t e = ground (arith, leave-frame false (stop_waiting c))

  poll-status : (t : ℕ) → (poll t c).0.status ≢ leader
  unfolding poll
  poll-status t e = ground (
    arith,
    leave-frame false c,
    leave-frame true c,
    send_and_wait-frame msg_s_get_vote (message (get_my_id c) (get_my_term c) "" "" "") c,
  )

  vote_self-status : (t : ℕ) → (vote_self t (stop_waiting c)).status ≢ leader
  unfolding vote_self
  vote_self-status t e = ground arith

  count_votes-status : (t : ℕ) → (count_votes t c).0.status ≢ leader
  unfolding count_votes
  count_votes-status t e =
      let d = vote_self t (stop_waiting c) in
      ground (
        arith,
        vote_self-status t,
        leave-frame true d,
        send_and_wait-frame msg_s_broadcast_leader (message (get_my_id d) t (get_my_id d) "" "1") d,
      )

  confirm-status :
      (answers : List NodeMsg)
      → (confirm answers c).0.status ≡ leader
      → (some_answer answers ≡ true)
        × (all_true answers ≡ true)
        × ((confirm answers c).0.node_leader ≡ some (get_my_id c))
  unfolding confirm sign_leader
  confirm-status answers e =
      let d = stop_waiting c in
      let s = sign_leader (get_my_id d) d in
      ground (arith, leave-frame true d, leave-frame (not s.1) s.0, leave-node_leader (not s.1) s.0)

  -- An election makes a leader of a member that is none only by its last stretch; only if an answer
  -- has come there, and `Success` of every answer is set and true; and then the member is its own
  -- leader.
  pub advance-leader :
      (p : Phase) (answers : List NodeMsg)
      → (advance p answers c).0.status ≡ leader
      → ((t : ℕ) × (p ≡ confirming t))
        × (0 < length answers)
        × All (λ (m : NodeMsg). m.success ≡ some true) answers
        × ((advance p answers c).0.node_leader ≡ some (get_my_id c))
  unfolding advance
  advance-leader (asking t) answers e = absurd (ask-status t e)
  advance-leader (asked t) answers e = absurd (become_candidate-status t e)
  advance-leader (running t) answers e = absurd (poll-status t e)
  advance-leader (polled t) answers e = absurd (count_votes-status t e)
  advance-leader (confirming t) answers e =
      let (x, y, z) = confirm-status answers e in
      ((t, refl), some_answer-length answers x, all_true-All answers y, z)
  advance-leader (done again) answers e = absurd (behind e)

-- What a member that asks the others to confirm it in term `t` has.
abbrev pub HasMajority : ℕ → Cluster → Type 0
HasMajority t d =
    (length d.nodes_all / 2 < get_vote_count t (d.nodes (get_my_id d)))
    × All (λ (i : String). i ≢ get_my_id d → (d.nodes i).term ≤ t) d.nodes_all
    × (get_my_term d ≤ t)

overtaken-All :
    (is : List String) (t : ℕ) (d : Cluster)
    → overtaken is t d ≡ false
    → All (λ (i : String). i ≢ get_my_id d → (d.nodes i).term ≤ t) is
unfolding overtaken
overtaken-All [] t d e = tt
overtaken-All (i ∷ is) t d e =
    (λ other. ground (arith, e, other), overtaken-All is t d (ground (arith, e)))

module _ (c : Cluster) (t : ℕ) where
  ask-phase : (u : ℕ) → (ask u c).1 ≢ confirming t
  unfolding ask
  ask-phase u e = ground (arith, leave-frame false c)

  become_candidate-phase : (u : ℕ) → (become_candidate u c).1 ≢ confirming t
  unfolding become_candidate
  become_candidate-phase u e = ground (arith, leave-frame false (stop_waiting c))

  poll-phase : (u : ℕ) → (poll u c).1 ≢ confirming t
  unfolding poll
  poll-phase u e = ground (arith, leave-frame false c, leave-frame true c)

  confirm-phase : (answers : List NodeMsg) → (confirm answers c).1 ≢ confirming t
  unfolding confirm
  confirm-phase answers e =
      let d = stop_waiting c in
      let s = sign_leader (get_my_id d) d in
      ground (arith, leave-frame true d, leave-frame (not s.1) s.0)

  wins-HasMajority : (d : Cluster) → wins t d ≡ true → HasMajority t d
  unfolding wins
  wins-HasMajority d e = (ground arith, overtaken-All d.nodes_all t d (ground arith), ground arith)

sent-HasMajority :
    (t flag : ℕ) (m : NodeMsg) (c : Cluster)
    → HasMajority t c
    → HasMajority t (send_and_wait flag m c)
sent-HasMajority t flag m c h =
    let (_, nodes, all, my) = send_and_wait-frame flag m c in rw (nodes, all, my) h

module _ (c : Cluster) (t : ℕ) where
  count_votes-phase :
      (u : ℕ) → (count_votes u c).1 ≡ confirming t → (u ≡ t) × HasMajority t (count_votes u c).0
  unfolding count_votes
  count_votes-phase u e =
      let d = vote_self u (stop_waiting c) in
      elim (Bool-cases (wins u d)) [
        | inl won ↦
            let same : u ≡ t = ground arith in
            (same, rw (won, ← same) (sent-HasMajority u _ _ d (wins-HasMajority d u d won)))
        | inr lost ↦ absurd (ground (arith, leave-frame true d))
      ]

  -- A member asks to be confirmed as the leader of a term only after the poll of that term, with the
  -- votes of more than half of the nodes, with no other node recorded in a newer term, and while its
  -- own term is not newer.
  pub advance-confirming :
      (p : Phase) (answers : List NodeMsg)
      → (advance p answers c).1 ≡ confirming t
      → (p ≡ polled t) × HasMajority t (advance p answers c).0
  unfolding advance
  advance-confirming (asking u) answers e = absurd (ask-phase c t u e)
  advance-confirming (asked u) answers e = absurd (become_candidate-phase c t u e)
  advance-confirming (running u) answers e = absurd (poll-phase c t u e)
  advance-confirming (polled u) answers e =
      let (same, h) = count_votes-phase u e in (ap polled same, h)
  advance-confirming (confirming u) answers e = absurd (confirm-phase c t answers e)
  advance-confirming (done again) answers e = cc
