-- ===== src/Cluster/Network/Safety.antt =====
-- At most one member of a cluster wins the election of a term (cluster/contact.go).
use own_x_go.Base.{
  ℕ, ◌/◌, ◌≤◌, ◌<◌, ◌≡◌, refl, ap, ◌∙◌, sym, subst, ◌⊎◌, inl, inr, String, String_discrete, List,
  [], ◌∷◌, ◌++◌, false, some, has, length, arith,
}
use own_x_go.Cluster.Node.{Node, get_vote_count}
use own_x_go.Cluster.State.{Cluster, id_of}
use own_x_go.Cluster.Messages.{msg_s_get_vote, msg_r_get_vote}
use own_x_go.Cluster.Server.{server_receive}
use own_x_go.Cluster.Client.{client_receive}
use own_x_go.Cluster.Election.{Phase, asking, asked, running, polled, confirming, done, advance}
use own_x_go.Cluster.Member.{
  Event, handle, asked_by, answered_by, connects, loses, beats, enters, advances, registers, closes,
  holds,
}
use own_x_go.Cluster.Victory.{HasMajority, advance-confirming}
use own_x_go.Cluster.Ballots.Stretches.{has_voted}
use own_x_go.Cluster.Ballots.Handlers.{handle-Settles}
use own_x_go.Cluster.Ballots.Requests.{last_reply, server_receive-Answers, client_receive-Counts}
use own_x_go.Cluster.Network.{
  Network, put, wins_of, won_by, sent, Step, acts, asks, answers, drops, Reach, start, step,
}
use own_x_go.Cluster.Network.Sums.{Distinct, total_two, total_bound, total_zero}
use own_x_go.Cluster.Network.Tally.{
  counted, voted, on_the_way, on_the_way-split, Member, Member-named, AreWon, IsSettled, put-AreWon,
  put-IsSettled, put_self,
}

abbrev pub HasWon : String → ℕ → List (String × ℕ) → Type 0
HasWon i t [] = ⊥
HasWon i t ((j, u) ∷ won) = ((i ≡ j) × (t ≡ u)) ⊎ HasWon i t won

has_voted-le-one : (t : ℕ) (n : Node) → has_voted t n ≤ 1
unfolding has_voted
has_voted-le-one t n = ground arith

module _ (ids : List String) (distinct : Distinct ids)
    (named : has String_discrete "" ids ≡ false) where
  wins_of-AreWon :
      (t : ℕ) (i : String) (p : Phase) (members : String → Cluster) (won : List (String × ℕ))
      → ((u : ℕ)
          → p ≡ confirming u
          → u ≡ t
          → Member ids distinct named i × (length ids / 2 < counted t members i))
      → AreWon ids distinct named t members won
      → AreWon ids distinct named t members (wins_of i p won)
  wins_of-AreWon t i (confirming u) members won f h = (f u refl, h)
  wins_of-AreWon t i (asking u) members won f h = h
  wins_of-AreWon t i (asked u) members won f h = h
  wins_of-AreWon t i (running u) members won f h = h
  wins_of-AreWon t i (polled u) members won f h = h
  wins_of-AreWon t i (done again) members won f h = h

  HasMajority-counted :
      (u t : ℕ) (i : String) (d : Cluster)
      → HasMajority u d
      → d.node_my ≡ some i
      → length d.nodes_all ≡ length ids
      → u ≡ t
      → length ids / 2 < get_vote_count t (d.nodes i)
  HasMajority-counted u t i d h here all same =
      let big : length d.nodes_all / 2 < get_vote_count u (d.nodes i) =
        subst (λ k. length d.nodes_all / 2 < get_vote_count u (d.nodes k)) (ap id_of here) h.0 in
      omega (arith, big, ap (λ n. n / 2) all, ap (λ n. get_vote_count n (d.nodes i)) same)

  won_by-AreWon :
      (t : ℕ) (i : String) (e : Event) (c : Cluster) (members : String → Cluster)
      (won : List (String × ℕ))
      → Member ids distinct named i
      → members i ≡ handle e c
      → (handle e c).node_my ≡ some i
      → length (handle e c).nodes_all ≡ length ids
      → AreWon ids distinct named t members won
      → AreWon ids distinct named t members (won_by i e c won)
  unfolding handle
  won_by-AreWon t i (advances p ms) c members won listed same here all h =
      wins_of-AreWon t i (advance p ms c).1 members won
        (λ u q r. (
          listed,
          subst (λ d. length ids / 2 < get_vote_count t (d.nodes i)) (sym same)
              (HasMajority-counted u t i (advance p ms c).0 (advance-confirming c u p ms q).1 here
                all r),
        ))
        h
  won_by-AreWon t i (asked_by flag m job now) c members won listed same here all h = h
  won_by-AreWon t i (answered_by flag m now) c members won listed same here all h = h
  won_by-AreWon t i (connects j) c members won listed same here all h = h
  won_by-AreWon t i (loses j now) c members won listed same here all h = h
  won_by-AreWon t i (beats now) c members won listed same here all h = h
  won_by-AreWon t i enters c members won listed same here all h = h
  won_by-AreWon t i (registers name f) c members won listed same here all h = h
  won_by-AreWon t i (holds reaches) c members won listed same here all h = h
  won_by-AreWon t i closes c members won listed same here all h = h

  Step-IsSettled :
      {v w : Network} (t : ℕ)
      → Step ids v w
      → IsSettled ids distinct named t v
      → IsSettled ids distinct named t w
  Step-IsSettled t (acts v i e listed local) s =
      let c = v.members i in
      let m =
        handle-Settles i c t e (s.my i listed) (Member-named ids distinct named i listed) local in
      put-IsSettled ids distinct named t v i (handle e c) v.flying (won_by i e c v.won) listed s
        m.my m.all (omega (arith, m.pays))
        (won_by-AreWon t i e c (put i (handle e c) v.members) v.won listed
          (put_self i (handle e c) v.members) (m.my ∙ s.my i listed)
          (ap length m.all ∙ s.all i listed)
          (put-AreWon ids distinct named i listed v.members (handle e c) t v.won m.more s.won))
  Step-IsSettled t (asks v i m job now listed sender) s =
      let c = v.members i in
      let d = server_receive msg_s_get_vote m job now c in
      let (r, a) =
        server_receive-Answers t i c (s.my i listed) m job now
          (Member-named ids distinct named m.node_id sender) in
      let gone = ap (λ o. on_the_way t (sent m.node_id o v.flying)) a.back in
      put-IsSettled ids distinct named t v i d (sent m.node_id (last_reply d.trace) v.flying) v.won
        listed s a.my a.all (omega (arith, a.counts, a.gives, gone))
        (put-AreWon ids distinct named i listed v.members d t v.won (omega (arith, a.counts)) s.won)
  Step-IsSettled t (answers v before after i m now listed there) s =
      let c = v.members i in
      let d = client_receive msg_r_get_vote m now c in
      let k = client_receive-Counts t i c (s.my i listed) m now in
      let split = ap (on_the_way t) there ∙ on_the_way-split t before after i m in
      put-IsSettled ids distinct named t v i d (before ++ after) v.won listed s k.my k.all
        (omega (arith, k.most, k.gives, split))
        (put-AreWon ids distinct named i listed v.members d t v.won k.more s.won)
  Step-IsSettled t (drops v before after i m there) s =
      let split = ap (on_the_way t) there ∙ on_the_way-split t before after i m in
      record { my = s.my; all = s.all; paid = omega (arith, s.paid, split); won = s.won }

  Reach-IsSettled : {w : Network} (t : ℕ) → Reach ids w → IsSettled ids distinct named t w
  Reach-IsSettled t (start w s) = record {
    my = s.my;
    all = s.all;
    paid =
        omega
          (arith, total_zero (counted t w.members) ids (s.counts t), ap (on_the_way t) s.flying);
    won = subst (AreWon ids distinct named t w.members) (sym s.won) tt;
  }
  Reach-IsSettled t (step v w r st) = Step-IsSettled t st (Reach-IsSettled t r)

  won-counted :
      (t : ℕ) (i : String) (members : String → Cluster) (won : List (String × ℕ))
      → AreWon ids distinct named t members won
      → HasWon i t won
      → Member ids distinct named i × (length ids / 2 < counted t members i)
  won-counted t i members [] h e = absurd e
  won-counted t i members ((j, u) ∷ won) (h, hs) (inl (e, f)) =
      subst (λ k. Member ids distinct named k × (length ids / 2 < counted t members k)) (sym e)
        (h (sym f))
  won-counted t i members ((j, u) ∷ won) (h, hs) (inr e) = won-counted t i members won hs e

  -- In a cluster whose members have distinct ids, none of them blank, and all know as many nodes as
  -- there are members, at most one member comes to ask for its confirmation as the leader of a term:
  -- from the start without votes, whatever the members do, in any order, and whichever answers to
  -- requests for votes are late or lost, as long as no heartbeat trims the votes of a member.
  pub election_safety :
      {w : Network}
      → Reach ids w
      → (t : ℕ) (i j : String) → HasWon i t w.won
      → HasWon j t w.won
      → i ≡ j
  election_safety {w} r t i j a b = elim (String_discrete i j) [
    | yes e ↦ e
    | no n ↦
        let s = Reach-IsSettled t r in
        let (mi, ci) = won-counted t i w.members w.won s.won a in
        let (mj, cj) = won-counted t j w.members w.won s.won b in
        let two = total_two (counted t w.members) i j ids n mi mj in
        let few =
          total_bound (voted t w.members) ids (λ k. has_voted-le-one t ((w.members k).nodes k)) in
        absurd (omega (arith, two, few, s.paid, ci, cj))
  ]
