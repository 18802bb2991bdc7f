-- ===== src/Cluster/Election.antt =====
-- cluster/contact.go, `fightElection` and `sendAndWait`: the election as a machine that moves
-- between the points where the source sleeps or waits, so that handlers may run in between.
use own_x_go.Base.{
  ℕ, ◌+◌, ◌/◌, ltb, if◌then◌else◌, String, String_discrete, List, [], ◌∷◌, length, none, Bool, true,
  false, not, ◌&&◌, ◌||◌, ite,
}
use own_x_go.Cluster.Node.{add_vote_count, get_vote_count, vote_to_node, set_term, clear}
use own_x_go.Cluster.State.{
  Cluster, NodeMsg, Stat, candidate, follower, sends, starts_election, emit, get_my_id, get_my_term,
  is_leader, is_closed, modify, sign_leader,
}
use own_x_go.Cluster.Messages.{msg_s_get_vote, msg_s_ask_leader, msg_s_broadcast_leader}
use own_x_go.Cluster.Client.{online_count, has_leader, is_true}
use own_x_go.Cluster.Life.{create_event}

-- Where the election stands: before it has asked who leads, waiting for the answers, before it has
-- asked for votes, waiting for them, waiting for the others to confirm, or done. The number is
-- `currentTerm`; `again` is `needNextTerm`.
pub data Phase : Type 0 where
  asking : (term : ℕ) → Phase
  asked : (term : ℕ) → Phase
  running : (term : ℕ) → Phase
  polled : (term : ℕ) → Phase
  confirming : (term : ℕ) → Phase
  done : (again : Bool) → Phase

-- The first half of `sendAndWait`: the channel is opened, and every node with a connection but the
-- local one is sent the message.
unfoldable pub send_all : List String → ℕ → NodeMsg → Cluster → Cluster
send_all [] flag m c = c
send_all (i ∷ is) flag m c = send_all is flag m (
    ite (String_discrete i (get_my_id c)) c
      (if (c.nodes i).connected then emit (sends i flag m) c else c))

unfoldable pub send_and_wait : ℕ → NodeMsg → Cluster → Cluster
send_and_wait flag m c = send_all c.nodes_all flag m (record c { waiting = true })

-- The second half: the channel is closed again.
abbrev pub stop_waiting : Cluster → Cluster
stop_waiting c = record c { waiting = false }

-- The deferred calls, in their order.
unfoldable pub leave : Bool → Cluster → Cluster × Phase
leave again c =
    let d = record c { fighting = false } in
    (create_event "ElectionFinish" (if again then emit starts_election d else d), done again)

-- Up to the term that is fought for. A closed or leading member, one that has a
-- leader, and one that fights already, leave without touching `fighting`.
unfoldable pub enter : Cluster → Cluster × Phase
enter c =
    let b = create_event "ElectionStart" c in
    if is_closed b.status || is_leader b.status || has_leader b.node_leader || b.fighting
    then (create_event "ElectionFinish" b, done false)
    else let t = get_my_term b + 1 in
      let d = record b { fighting = true } in
      if (set_term t (d.nodes (get_my_id d))).1
      then (modify (get_my_id d) (λ n. (set_term t n).0) d, asking t)
      else leave true d

-- More than half of the nodes are online.
abbrev pub has_quorum : Cluster → Bool
has_quorum c = ltb (length c.nodes_all / 2) (online_count c)

abbrev pub message : String → ℕ → String → String → String → NodeMsg
message me t leader_id req flag = record {
  node_id = me;
  term = t;
  leader_id = leader_id;
  req_id = req;
  success = none;
  flag = flag;
}

unfoldable pub ask : ℕ → Cluster → Cluster × Phase
ask t c =
    if has_leader c.node_leader
    then leave false c
    else if has_quorum c
    then (send_and_wait msg_s_ask_leader (message (get_my_id c) t "" "" "") c, asked t)
    else (c, asking t)

abbrev pub stand : Stat → Stat
stand follower = candidate
stand s = s

unfoldable pub become_candidate : ℕ → Cluster → Cluster × Phase
become_candidate t c =
    let d = stop_waiting c in
    if has_leader d.node_leader || is_closed d.status || is_leader d.status
    then leave false d
    else (modify (get_my_id d) clear (record d { status = stand d.status }), running t)

abbrev pub is_candidate : Stat → Bool
is_candidate candidate = true
is_candidate _ = false

unfoldable pub poll : ℕ → Cluster → Cluster × Phase
poll t c =
    if has_leader c.node_leader
    then leave false c
    else if not (is_candidate c.status) || ltb t (get_my_term c)
    then leave true c
    else if has_quorum c
    then (send_and_wait msg_s_get_vote (message (get_my_id c) (get_my_term c) "" "" "") c, polled t)
    else (c, running t)

-- The vote for oneself.
unfoldable pub vote_self : ℕ → Cluster → Cluster
unfolding modify vote_to_node add_vote_count
vote_self t c =
    let me = get_my_id c in
    if (vote_to_node t me (c.nodes me)).1
    then modify me (λ n. add_vote_count t (vote_to_node t me n).0) c
    else c

-- Some other node is recorded with a newer term.
unfoldable pub overtaken : List String → ℕ → Cluster → Bool
overtaken [] t c = false
overtaken (i ∷ is) t c =
    ite (String_discrete i (get_my_id c)) false (ltb t (c.nodes i).term) || overtaken is t c

unfoldable pub wins : ℕ → Cluster → Bool
unfolding get_vote_count overtaken
wins t c =
    ltb (length c.nodes_all / 2) (get_vote_count t (c.nodes (get_my_id c)))
    && not (overtaken c.nodes_all t c)
    && not (ltb t (get_my_term c))

unfoldable pub count_votes : ℕ → Cluster → Cluster × Phase
count_votes t c =
    let d = vote_self t (stop_waiting c) in
    if wins t d
    then (
      send_and_wait msg_s_broadcast_leader (message (get_my_id d) t (get_my_id d) "" "1") d,
      confirming t,
    )
    else leave true d

abbrev pub all_true : List NodeMsg → Bool
all_true [] = true
all_true (m ∷ ms) = is_true m.success && all_true ms

abbrev pub some_answer : List NodeMsg → Bool
some_answer [] = false
some_answer (_ ∷ _) = true

-- `answers` is what came through the channel.
unfoldable pub confirm : List NodeMsg → Cluster → Cluster × Phase
confirm answers c =
    let d = stop_waiting c in
    if some_answer answers && all_true answers
    then (let (e, signed) = sign_leader (get_my_id d) d in leave (not signed) e)
    else leave true d

-- One stretch of the source from a point to the next.
unfoldable pub advance : Phase → List NodeMsg → Cluster → Cluster × Phase
advance (asking t) answers c = ask t c
advance (asked t) answers c = become_candidate t c
advance (running t) answers c = poll t c
advance (polled t) answers c = count_votes t c
advance (confirming t) answers c = confirm answers c
advance (done again) answers c = (c, done again)
