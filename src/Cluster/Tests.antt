-- ===== src/Cluster/Tests.antt =====
-- A cluster of three nodes, as seen by the first: runs, and the theorems at its states.
use own_x_go.Base.{
  ℕ, ◌≤◌, ◌≡◌, refl, none, some, true, false, arith, List, [], ◌∷◌, String, suc, has, lookup,
  String_discrete, zero, Bool-cases, delete, ℕ_discrete, insert, ◌++◌, All, length, ◌+◌, ◌<◌,
}
use own_x_go.Cluster.Node.{Node, set_term, update_hb_time, vote_to_node, add_vote_count}
use own_x_go.Cluster.State.{
  Effect, cluster, Cluster, NodeMsg, follower, candidate, leader, closed, unset, not_ready,
  opens_service, sign_leader, set_my_term, refresh, modify, follow,
}
use own_x_go.Cluster.Node.Votes.{
  Call, granted, votes, granted-le-one, counts, sets_term, trims, Remembers, call,
}
use own_x_go.Cluster.Terms.{Grows}
use own_x_go.Cluster.Jobs.{publish_job-delivers, DeliversOne}
use own_x_go.Cluster.Messages.{publish_job, JobInfo, msg_s_broadcast_leader}
use own_x_go.Cluster.Life.{start_up, trim, close, start_model, create_event}
use own_x_go.Cluster.Election.{
  confirming, polled, advance, confirm, count_votes, vote_self, leave, wins, overtaken, asking,
  send_and_wait,
}
use own_x_go.Cluster.Leadership.{IsCoherent}
use own_x_go.Cluster.Server.{
  on_broadcast_leader, server_receive, release_old, learn, reply_ok, accept_leader,
}
use own_x_go.Cluster.Member.{Event, asked_by, run, loses, run-IsCoherent, enters, advances, closes}
use own_x_go.Cluster.Victory.{HasMajority, advance-confirming, advance-leader}
use own_x_go.Cluster.Broadcast.{on_broadcast_leader-follows}
use own_x_go.Cluster.Closing.{close_first}
use own_x_go.Cluster.Trim.{trim_oldest}
use own_x_go.Cluster.Terms.Histories.{run-Grows}
use own_x_go.Cluster.Adoption.{server_receive-adopts}

abbrev node_at : ℕ → Node
node_at t = record {
  term = t;
  name = "n";
  ip = "10.0.0.1";
  port = 80;
  vote_count = [];
  vote_node = [];
  connected = true;
  hb_time = none;
}

abbrev start : Cluster
start = record {
  model = cluster;
  node_timeout = 10;
  nodes = λ i. node_at 0;
  nodes_all = "a" ∷ "b" ∷ "c" ∷ [];
  nodes_alive = "b" ∷ "c" ∷ [];
  node_my = some "a";
  node_leader = none;
  lost_leader_time = 0;
  status = unset;
  fighting = false;
  waiting = false;
  accepting = false;
  close_done = false;
  task_registry = [];
  events = some [];
  gauge = none;
  trace = [];
}

abbrev heard : NodeMsg
heard = record {
  node_id = "b";
  term = 4;
  leader_id = "b";
  req_id = "r";
  success = some true;
  flag = "1";
}

-- A node that has voted for `b` in 21 terms, and forgets the first ten of them.
abbrev votes_up_to : ℕ → List (ℕ × String)
votes_up_to zero = []
votes_up_to (suc n) = (n + 1, "b") ∷ votes_up_to n

votes_twice :
    ((vote_to_node 3 "c" (record (node_at 0) { vote_node = votes_up_to 21 })).1 ≡ false)
    × ((vote_to_node 3 "c" (record (node_at 0) { vote_node = trim (votes_up_to 21) })).1 ≡ true)
unfolding vote_to_node trim String_discrete ℕ_discrete lookup delete
votes_twice = (refl, refl)

-- After the vote of term 22 the node forgets the terms from 1 to 10.
abbrev requests : List Call
requests = votes 22 "b" ∷ counts 22 ∷ votes 22 "c" ∷ trims ∷ sets_term 2 ∷ votes 22 "c" ∷ []

abbrev often_asked : Node
often_asked = record (node_at 0) { vote_node = votes_up_to 21 }

requests-Remembers : Remembers 22 requests often_asked
unfolding call vote_to_node add_vote_count trim String_discrete ℕ_discrete lookup delete insert
requests-Remembers = (refl, tt)

granted-le-one_example : granted 22 requests often_asked ≤ 1
granted-le-one_example =
    granted-le-one 22 requests often_asked ((λ e. cc), ((λ e. cc), ((λ e. cc), tt)))
      requests-Remembers

abbrev job : JobInfo
job = record { name = "j"; payload = "p" }

-- `start` in a later term.
abbrev later : Cluster
later = record start { nodes = λ i. node_at 2 }

abbrev standing : Cluster
standing = record start { status = candidate; fighting = true }

-- `b` has voted, and the answer is in.
abbrev voted : Cluster
voted = record standing { nodes = λ i. record (node_at 1) { vote_count = (1, 1) ∷ [] } }

start-IsCoherent : IsCoherent "a" start
start-IsCoherent = record { here = refl; leading = λ e. cc; led = λ e. cc }

abbrev started : Cluster
started = record start {
  status = follower;
  accepting = true;
  events = some (("StartUp", unset) ∷ []);
  gauge = some not_ready;
  trace = opens_service ∷ [];
}

start_up_runs : start_up start ≡ some started
unfolding start_up start_model create_event
start_up_runs = refl

abbrev history : List Event
history = asked_by 14 heard job 5 ∷ loses "b" 9 ∷ enters ∷ advances (asking 5) [] ∷ closes ∷ []

run-IsCoherent_example : IsCoherent "a" (run history started)
run-IsCoherent_example = run-IsCoherent "a" history start started start-IsCoherent start_up_runs

run-Grows_example : Grows "a" start (run history start)
run-Grows_example = run-Grows "a" history start start-IsCoherent

follows_b : (server_receive 14 heard job 5 start).node_leader ≡ some "b"
unfolding server_receive on_broadcast_leader release_old learn set_my_term refresh modify set_term
    update_hb_time reply_ok accept_leader sign_leader follow has String_discrete Bool-cases
follows_b = refl

server_receive-adopts_example :
    (msg_s_broadcast_leader ≡ 14)
    × ("b" ≡ heard.leader_id)
    × (has String_discrete "b" start.nodes_all ≡ true)
    × (0 ≤ 4)
server_receive-adopts_example = server_receive-adopts heard 5 start 14 job "b" follows_b (λ e. cc)

on_broadcast_leader-follows_example :
    ((on_broadcast_leader heard 5 start).node_leader ≡ some "b")
    × (((on_broadcast_leader heard 5 start).nodes "a").term ≡ 4)
unfolding has String_discrete Bool-cases
on_broadcast_leader-follows_example =
    on_broadcast_leader-follows "a" heard 5 start refl (λ i. omega arith) refl (omega arith)

won : (advance (confirming 1) (heard ∷ []) standing).0.status ≡ leader
unfolding advance confirm sign_leader leave create_event String_discrete Bool-cases
won = refl

advance-leader_example :
    ((t : ℕ) × (confirming 1 ≡ confirming t))
    × (0 < 1)
    × All (λ (m : NodeMsg). m.success ≡ some true) (heard ∷ [])
    × ((advance (confirming 1) (heard ∷ []) standing).0.node_leader ≡ some "a")
advance-leader_example = advance-leader standing (λ e. cc) (confirming 1) (heard ∷ []) won

polls : (advance (polled 1) [] voted).1 ≡ confirming 1
unfolding advance count_votes vote_self wins overtaken leave send_and_wait String_discrete
    Bool-cases lookup insert ℕ_discrete
polls = refl

advance-confirming_example : (polled 1 ≡ polled 1) × HasMajority 1 (advance (polled 1) [] voted).0
advance-confirming_example = advance-confirming voted 1 (polled 1) [] polls

abbrev terms : ℕ → List (ℕ × ℕ)
terms zero = []
terms (suc n) = (n, n) ∷ terms n

trim_oldest_example : (3 ≤ 15) × (lookup ℕ_discrete 15 (terms 21) ≡ some 15)
unfolding trim lookup delete ℕ_discrete
trim_oldest_example = trim_oldest (terms 21) 15 3 15 3 refl refl refl

close_first_example :
    ((close later).status ≡ closed)
    × ((close later).gauge ≡ later.gauge)
    × ((close later).events ≡ none)
    × ((j : String)
        → has String_discrete j later.nodes_all ≡ true
        → ((close later).nodes j).connected ≡ false)
    × (let b : Cluster = record later { status = closed; close_done = true } in
        create_event "Close" b ≡ b)
close_first_example = close_first later refl

abbrev able : Cluster
able = record start { task_registry = ("j", 3) ∷ [] }

abbrev entries : List (String × String)
entries = ("n", "p") ∷ ("m", "q") ∷ []

publish_job-delivers_example :
    (new : List Effect) × (publish_job "j" entries able ≡ record able { trace = new ++ [] })
    × All (DeliversOne "j" entries able) new
    × (length new ≤ 2)
publish_job-delivers_example = publish_job-delivers "j" entries able
