-- ===== src/Cluster/Node.antt =====
-- cluster/node.go: what a member records of one node: its term, the votes that it has collected and
-- given, its connection and its last heartbeat.
pub mod Votes
use own_x_go.Base.{
  ℕ, ◌+◌, ◌<◌, ltb, leb, if◌then◌else◌, String, String_discrete, ℕ_discrete, List, Option, none,
  some, Bool, true, false, ite, lookup, insert,
}

-- The `id` of a node is the key under which `State.Cluster` holds it. `connected` says that
-- `nodeConnector` is not nil; `hb_time` is none at the zero time; times are in seconds.
pub record Node : Type 0 where
  pub term : ℕ
  pub name : String
  pub ip : String
  pub port : ℕ
  pub vote_count : List (ℕ × ℕ)
  pub vote_node : List (ℕ × String)
  pub connected : Bool
  pub hb_time : Option ℕ

-- A missing key reads as the zero value.
abbrev pub or_zero : Option ℕ → ℕ
or_zero none = 0
or_zero (some n) = n

abbrev pub or_blank : Option String → String
or_blank none = ""
or_blank (some s) = s

unfoldable pub get_vote_count : ℕ → Node → ℕ
get_vote_count t n = or_zero (lookup ℕ_discrete t n.vote_count)

unfoldable pub add_vote_count : ℕ → Node → Node
unfolding get_vote_count
add_vote_count t n = record n {
  vote_count = insert ℕ_discrete t (get_vote_count t n + 1) n.vote_count;
}

unfoldable pub get_vote_to_node : ℕ → Node → String
get_vote_to_node t n = or_blank (lookup ℕ_discrete t n.vote_node)

unfoldable pub vote_to_node : ℕ → String → Node → Node × Bool
unfolding get_vote_to_node
vote_to_node your_term your_id n =
    ite (String_discrete (get_vote_to_node your_term n) "")
      (if leb n.term your_term
        then (record n { vote_node = insert ℕ_discrete your_term your_id n.vote_node }, true)
        else (n, false))
      (n, false)

unfoldable pub set_term : ℕ → Node → Node × Bool
set_term new_term n =
    if leb new_term n.term then (n, false) else (record n { term = new_term }, true)

unfoldable pub update_hb_time : ℕ → Node → Node
update_hb_time now n = record n { hb_time = some now }

unfoldable pub clear : Node → Node
clear n = record n { hb_time = none }

unfoldable pub is_time_out : ℕ → ℕ → Node → Bool
is_time_out now timeout n = elim n.hb_time [ none ↦ false | some last ↦ ltb (last + timeout) now ]
