-- ===== src/Cluster/Network.antt =====
-- The members of a cluster and the answers to requests for votes that are on the way between them
-- (cluster/contact.go): the handlers of two members meet where the one asks for a vote, the other
-- gives it or not, and the answer comes back.
mod Tests
pub mod Sums
pub mod Tally
pub mod Safety
use own_x_go.Base.{
  ℕ, ◌≡◌, ◌≢◌, refl, String, String_discrete, List, [], ◌∷◌, ◌++◌, true, none, some, Option, ite,
  has, length,
}
use own_x_go.Cluster.Node.{Node, get_vote_count}
use own_x_go.Cluster.State.{Cluster, NodeMsg}
use own_x_go.Cluster.Messages.{JobInfo, msg_s_get_vote, msg_r_get_vote}
use own_x_go.Cluster.Server.{server_receive}
use own_x_go.Cluster.Client.{client_receive}
use own_x_go.Cluster.Election.{Phase, confirming, advance}
use own_x_go.Cluster.Member.{Event, handle, advances}
use own_x_go.Cluster.Ballots.Handlers.{IsLocal}
use own_x_go.Cluster.Ballots.Requests.{last_reply}
use own_x_go.Cluster.Ballots.Stretches.{has_voted}

-- `flying` holds the answers on the way, with the members that they go to; `won` the terms in which
-- members have come to ask for their confirmation as leaders.
pub record Network : Type 0 where
  pub members : String → Cluster
  pub flying : List (String × NodeMsg)
  pub won : List (String × ℕ)

unfoldable pub put : String → Cluster → (String → Cluster) → String → Cluster
put i c members j = ite (String_discrete j i) c (members j)

abbrev pub wins_of : String → Phase → List (String × ℕ) → List (String × ℕ)
wins_of i (confirming t) won = (i, t) ∷ won
wins_of i _ won = won

abbrev pub won_by : String → Event → Cluster → List (String × ℕ) → List (String × ℕ)
won_by i (advances p answers) c won = wins_of i (advance p answers c).1 won
won_by i _ c won = won

abbrev pub sent : String → Option NodeMsg → List (String × NodeMsg) → List (String × NodeMsg)
sent i none flying = flying
sent i (some m) flying = (i, m) ∷ flying

-- One step of the cluster of the members `ids`.
pub data Step (ids : List String) : Network → Network → Type 0 where
  -- any other entry point at the member `i`
  acts :
      (w : Network) (i : String) (e : Event)
      → has String_discrete i ids ≡ true
      → IsLocal i (w.members i) e
      → Step ids w (record w {
        members = put i (handle e (w.members i)) w.members;
        won = won_by i e (w.members i) w.won;
      })
  -- a request of `m.node_id` comes to the member `i`
  asks :
      (w : Network) (i : String) (m : NodeMsg) (job : JobInfo) (now : ℕ)
      → has String_discrete i ids ≡ true
      → has String_discrete m.node_id ids ≡ true
      → Step ids w (record w {
        members = put i (server_receive msg_s_get_vote m job now (w.members i)) w.members;
        flying =
            sent m.node_id
              (last_reply (server_receive msg_s_get_vote m job now (w.members i)).trace)
              w.flying;
      })
  -- an answer comes back
  answers :
      (w : Network) (before after : List (String × NodeMsg)) (i : String) (m : NodeMsg) (now : ℕ)
      → has String_discrete i ids ≡ true
      → w.flying ≡ before ++ ((i, m) ∷ after)
      → Step ids w (record w {
        members = put i (client_receive msg_r_get_vote m now (w.members i)) w.members;
        flying = before ++ after;
      })
  -- an answer is lost
  drops :
      (w : Network) (before after : List (String × NodeMsg)) (i : String) (m : NodeMsg)
      → w.flying ≡ before ++ ((i, m) ∷ after)
      → Step ids w (record w { flying = before ++ after })

-- No vote has been given or counted.
pub record Starts (ids : List String) (w : Network) : Type 0 where
  pub my : (i : String) → has String_discrete i ids ≡ true → (w.members i).node_my ≡ some i
  pub all :
      (i : String) → has String_discrete i ids ≡ true → length (w.members i).nodes_all ≡ length ids
  pub counts :
      (t : ℕ) (i : String)
      → has String_discrete i ids ≡ true
      → get_vote_count t ((w.members i).nodes i) ≡ 0
  pub flying : w.flying ≡ []
  pub won : w.won ≡ []

pub data Reach (ids : List String) : Network → Type 0 where
  start : (w : Network) → Starts ids w → Reach ids w
  step : (v w : Network) → Reach ids v → Step ids v w → Reach ids w
