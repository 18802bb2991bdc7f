-- ===== src/Cluster/Network/Tally.antt =====
-- The votes of one term over the members of a cluster (cluster/contact.go): those that are counted and
-- those on the way are no more than those that have been given.
use own_x_go.Base.{
  ℕ, ◌+◌, ◌/◌, ◌≤◌, ◌<◌, ◌≡◌, ◌≢◌, refl, ap, ◌∙◌, sym, subst, String, String_discrete, List, [],
  ◌∷◌, ◌++◌, true, false, some, if_pos, if_neg, has, length, All, arith,
}
use own_x_go.Cluster.Node.{get_vote_count}
use own_x_go.Cluster.State.{Cluster, NodeMsg}
use own_x_go.Cluster.Ballots.Stretches.{has_voted}
use own_x_go.Cluster.Ballots.Requests.{ballot}
use own_x_go.Cluster.Network.{Network, put}
use own_x_go.Cluster.Network.Sums.{Distinct, total, total_at}

abbrev pub counted : ℕ → (String → Cluster) → String → ℕ
counted t members i = get_vote_count t ((members i).nodes i)

abbrev pub voted : ℕ → (String → Cluster) → String → ℕ
voted t members i = has_voted t ((members i).nodes i)

-- the votes of term `t` among the answers on the way
abbrev pub on_the_way : ℕ → List (String × NodeMsg) → ℕ
on_the_way t [] = 0
on_the_way t ((_, m) ∷ flying) = ballot t m + on_the_way t flying

pub on_the_way-split :
    (t : ℕ) (before after : List (String × NodeMsg)) (i : String) (m : NodeMsg)
    → on_the_way t (before ++ ((i, m) ∷ after)) ≡ ballot t m + on_the_way t (before ++ after)
on_the_way-split t [] after i m = refl
on_the_way-split t ((j, n) ∷ before) after i m = omega (arith, on_the_way-split t before after i m)

pub put_self : (i : String) (c : Cluster) (members : String → Cluster) → put i c members i ≡ c
unfolding put
put_self i c members = if_pos (String_discrete i i) refl c (members i)

put_other :
    (i j : String) (c : Cluster) (members : String → Cluster)
    → j ≢ i
    → put i c members j ≡ members j
unfolding put
put_other i j c members n = if_neg (String_discrete j i) n c (members j)

blank : false ≡ true → ⊥
blank e = cc

module _ (ids : List String) (distinct : Distinct ids)
    (named : has String_discrete "" ids ≡ false) where
  abbrev pub Member : String → Type 0
  Member i = has String_discrete i ids ≡ true

  pub Member-named : (i : String) → Member i → i ≢ ""
  Member-named i h e = blank (sym named ∙ ap (λ x. has String_discrete x ids) (sym e) ∙ h)

  -- A member that has won the term `t` counts the votes of more than half of the members.
  abbrev pub AreWon : ℕ → (String → Cluster) → List (String × ℕ) → Type 0
  AreWon t members = All (λ e. e.1 ≡ t → Member e.0 × (length ids / 2 < counted t members e.0))

  pub record IsSettled (t : ℕ) (w : Network) : Type 0 where
    pub my : (i : String) → Member i → (w.members i).node_my ≡ some i
    pub all : (i : String) → Member i → length (w.members i).nodes_all ≡ length ids
    pub paid :
        total (counted t w.members) ids + on_the_way t w.flying ≤ total (voted t w.members) ids
    pub won : AreWon t w.members w.won

  module _ (i : String) (listed : Member i) (members : String → Cluster) (d : Cluster) where
    total-put :
        (f : Cluster → String → ℕ)
        → total (λ j. f (put i d members j) j) ids + f (members i) i
          ≡ total (λ j. f (members j) j) ids + f d i
    total-put f =
        total_at (λ j. f (members j) j) (λ j. f (put i d members j) j) i ids distinct listed
          (λ j n. ap (λ c. f c j) (put_other i j d members n))
        ∙ ap (λ c. total (λ j. f (members j) j) ids + f c i) (put_self i d members)

    -- What holds of the members before, and of `d`, holds of the members after.
    put_each :
        (P : String → Cluster → Type 0)
        → P i d
        → ((j : String) → Member j → P j (members j))
        → (j : String) → Member j
        → P j (put i d members j)
    put_each P p h j m = elim (String_discrete j i) [
      | yes e ↦
          subst (λ k. P k (put i d members k)) (sym e) (subst (P i) (sym (put_self i d members)) p)
      | no n ↦ subst (P j) (sym (put_other i j d members n)) (h j m)
    ]

    pub put-AreWon :
        (t : ℕ) (won : List (String × ℕ))
        → get_vote_count t ((members i).nodes i) ≤ get_vote_count t (d.nodes i)
        → AreWon t members won
        → AreWon t (put i d members) won
    put-AreWon t [] more h = tt
    put-AreWon t ((j, u) ∷ won) more (h, hs) = (
      (λ e. (
        (h e).0,
        put_each (λ k c. (k ≡ j) → length ids / 2 < get_vote_count t (c.nodes k))
            (λ q.
              let big = subst (λ k. length ids / 2 < counted t members k) (sym q) (h e).1 in
              omega (arith, big, more))
            (λ k _ q. subst (λ k. length ids / 2 < counted t members k) (sym q) (h e).1) j (h e).0
            refl,
      )),
      put-AreWon t won more hs,
    )

  -- The member `i` becomes `d`: the votes that it comes to count, and those that set out, are paid by
  -- those that it gives and those that arrive.
  pub put-IsSettled :
      (t : ℕ) (w : Network) (i : String) (d : Cluster) (flying : List (String × NodeMsg))
      (won : List (String × ℕ))
      → Member i
      → IsSettled t w
      → d.node_my ≡ (w.members i).node_my
      → d.nodes_all ≡ (w.members i).nodes_all
      → get_vote_count t (d.nodes i) + has_voted t ((w.members i).nodes i) + on_the_way t flying
        ≤ counted t w.members i + has_voted t (d.nodes i) + on_the_way t w.flying
      → AreWon t (put i d w.members) won
      → IsSettled t (record { members = put i d w.members; flying = flying; won = won })
  put-IsSettled t w i d flying won listed s my all pays wins =
      let a = total-put i listed w.members d (λ c j. get_vote_count t (c.nodes j)) in
      let b = total-put i listed w.members d (λ c j. has_voted t (c.nodes j)) in
      record {
        my = put_each i listed w.members d (λ j c. c.node_my ≡ some j) (my ∙ s.my i listed) s.my;
        all =
            put_each i listed w.members d (λ j c. length c.nodes_all ≡ length ids)
              (ap length all ∙ s.all i listed) s.all;
        paid = omega (arith, a, b, pays, s.paid);
        won = wins;
      }
