-- ===== src/Cluster/Network/Tests.antt =====
-- An election in a cluster of three, and the theorem at it.
use own_x_go.Base.{
  ◌≡◌, refl, String, String_discrete, ℕ_discrete, Bool-cases, insert, List, [], ◌∷◌, none, some,
  true, false, has, ◌++◌, lookup, inl, subst, sym,
}
use own_x_go.Cluster.Node.{Node, get_vote_count, vote_to_node, get_vote_to_node}
use own_x_go.Cluster.State.{Cluster, NodeMsg, cluster, candidate}
use own_x_go.Cluster.Messages.{JobInfo, msg_s_get_vote, msg_r_get_vote}
use own_x_go.Cluster.Election.{polled, confirming, advance, message, count_votes, wins, vote_self}
use own_x_go.Cluster.Member.{advances, handle}
use own_x_go.Cluster.Server.{server_receive, answer, on_get_vote}
use own_x_go.Cluster.Client.{client_receive}
use own_x_go.Cluster.Ballots.Requests.{last_reply}
use own_x_go.Cluster.Network.{
  Network, acts, asks, answers, Starts, Reach, start, step, wins_of, put, sent, won_by,
}
use own_x_go.Cluster.Network.Safety.{HasWon, election_safety}

abbrev ids : List String
ids = "a" ∷ "b" ∷ "c" ∷ []

abbrev blank : Node
blank = record {
  term = 0;
  name = "n";
  ip = "10.0.0.1";
  port = 80;
  vote_count = [];
  vote_node = [];
  connected = true;
  hb_time = none;
}

abbrev member : String → Cluster
member i = record {
  model = cluster;
  node_timeout = 10;
  nodes = λ j. blank;
  nodes_all = ids;
  nodes_alive = ids;
  node_my = some i;
  node_leader = none;
  lost_leader_time = 0;
  status = candidate;
  fighting = true;
  waiting = false;
  accepting = true;
  close_done = false;
  task_registry = [];
  events = some [];
  gauge = none;
  trace = [];
}

abbrev at_first : Network
at_first = record { members = member; flying = []; won = [] }

at_first-Starts : Starts ids at_first
unfolding get_vote_count lookup
at_first-Starts = record {
  my = λ i h. refl;
  all = λ i h. refl;
  counts = λ t i h. refl;
  flying = refl;
  won = refl;
}

-- The request of `a` for the vote of term 1 comes to `b`.
abbrev request : NodeMsg
request = message "a" 1 "" "r" ""

abbrev job : JobInfo
job = record { name = ""; payload = "" }

-- `b` gives its vote, the answer comes back, and `a` counts the votes.
abbrev asked : Network
asked = record at_first {
  members = put "b" (server_receive msg_s_get_vote request job 5 (member "b")) member;
  flying =
      sent "a" (last_reply (server_receive msg_s_get_vote request job 5 (member "b")).trace) [];
}

abbrev given : NodeMsg
given = answer "b" 1 "r" (some true)

asked-flying : asked.flying ≡ [] ++ (("a", given) ∷ [])
unfolding server_receive on_get_vote vote_to_node get_vote_to_node String_discrete lookup
asked-flying = refl

asked-Reach : Reach ids asked
unfolding has String_discrete
asked-Reach =
    step at_first asked (start at_first at_first-Starts) (asks at_first "b" request job 5 refl refl)

abbrev answered : Network
answered = record asked {
  members = put "a" (client_receive msg_r_get_vote given 6 (asked.members "a")) asked.members;
  flying = [] ++ [];
}

answered-Reach : Reach ids answered
unfolding has String_discrete
answered-Reach = step asked answered asked-Reach (answers asked [] [] "a" given 6 refl asked-flying)

abbrev decided : Network
decided = record answered {
  members = put "a" (handle (advances (polled 1) []) (answered.members "a")) answered.members;
  won = won_by "a" (advances (polled 1) []) (answered.members "a") answered.won;
}

decided-Reach : Reach ids decided
unfolding has String_discrete
decided-Reach =
    step answered decided answered-Reach (acts answered "a" (advances (polled 1) []) refl tt)

polls : (advance (polled 1) [] (answered.members "a")).1 ≡ confirming 1
unfolding advance count_votes wins vote_self put client_receive String_discrete Bool-cases
    ℕ_discrete lookup insert has
polls = refl

a_wins : HasWon "a" 1 decided.won
a_wins = subst (λ p. HasWon "a" 1 (wins_of "a" p [])) (sym polls) (inl (refl, refl))

election_safety_example : ◌≡◌ {A = String} "a" "a"
unfolding has String_discrete
election_safety_example =
    election_safety ids (refl, (refl, (refl, tt))) refl {w = decided} decided-Reach 1 "a" "a" a_wins
      a_wins
