-- ===== src/Cluster/Node/Votes.antt =====
-- The votes of one node over any history of calls of node.go and of the trimming in `heartbeat`.
use own_x_go.Base.{
  ℕ, suc, ◌≤◌, ◌<◌, ◌≡◌, ◌≢◌, ◌↔◌, inl, inr, Bool-cases, refl, String, ℕ_discrete, List, [], ◌∷◌,
  Bool, true, false, ◌&&◌, arith, lookup-insert, ◌==◌, if◌then◌else◌,
}
use own_x_go.Cluster.Node.{
  Node, add_vote_count, get_vote_to_node, vote_to_node, set_term, update_hb_time, clear,
}
use own_x_go.Cluster.Life.{trim}

-- The calls that change a node; `trims` is the trimming of its votes in `heartbeat` of contact.go.
pub data Call : Type 0 where
  votes : (your_term : ℕ) (your_id : String) → Call
  counts : (term : ℕ) → Call
  sets_term : (new_term : ℕ) → Call
  beats : (now : ℕ) → Call
  clears : Call
  trims : Call

unfoldable pub call : Call → Node → Node
call (votes t who) n = (vote_to_node t who n).0
call (counts t) n = add_vote_count t n
call (sets_term t) n = (set_term t n).0
call (beats now) n = update_hb_time now n
call clears n = clear n
call trims n = record n { vote_count = trim n.vote_count; vote_node = trim n.vote_node }

-- The call grants the vote of term `t`.
pub answer : ℕ → Call → Node → Bool
answer t (votes u who) n = (u == t) && (vote_to_node u who n).1
answer t _ n = false

-- How many times a history grants the vote of term `t`.
pub granted : ℕ → List Call → Node → ℕ
granted t [] n = 0
granted t (c ∷ cs) n = let rest = granted t cs (call c n) in if answer t c n then suc rest else rest

-- No request of the history comes from a blank id.
abbrev pub Named : List Call → Type 0
Named [] = Unit {0}
Named (votes t who ∷ cs) = (who ≢ "") × Named cs
Named (_ ∷ cs) = Named cs

-- Every trimming of the history leaves the vote of term `t` as it is.
abbrev pub Remembers : ℕ → List Call → Node → Type 0
Remembers t [] n = Unit {0}
Remembers t (trims ∷ cs) n =
    (get_vote_to_node t (call trims n) ≡ get_vote_to_node t n) × Remembers t cs (call trims n)
Remembers t (c ∷ cs) n = Remembers t cs (call c n)

abbrev pub HasVoted : ℕ → Node → Type 0
HasVoted t n = get_vote_to_node t n ≢ ""

call-HasVoted :
    (t : ℕ) (c : Call) (cs : List Call) (n : Node)
    → HasVoted t n
    → Remembers t (c ∷ cs) n
    → (get_vote_to_node t (call c n) ≡ get_vote_to_node t n) × Remembers t cs (call c n)
unfolding call vote_to_node add_vote_count set_term update_hb_time clear get_vote_to_node
call-HasVoted t (votes u who) cs n h r =
    (ground (arith, lookup-insert ℕ_discrete u t who n.vote_node), r)
call-HasVoted t (counts u) cs n h r = (refl, r)
call-HasVoted t (sets_term u) cs n h r = (ground arith, r)
call-HasVoted t (beats now) cs n h r = (refl, r)
call-HasVoted t clears cs n h r = (refl, r)
call-HasVoted t trims cs n h r = r

no_second : (t : ℕ) (c : Call) (n : Node) → HasVoted t n → answer t c n ≡ false
unfolding answer vote_to_node
no_second t (votes u who) n h = ground arith
no_second t (counts u) n h = refl
no_second t (sets_term u) n h = refl
no_second t (beats now) n h = refl
no_second t clears n h = refl
no_second t trims n h = refl

answer-HasVoted :
    (t u : ℕ) (who : String) (n : Node)
    → who ≢ ""
    → answer t (votes u who) n ≡ true
    → HasVoted t (call (votes u who) n)
unfolding answer call vote_to_node get_vote_to_node
answer-HasVoted t u who n named h = ground (arith, lookup-insert ℕ_discrete u t who n.vote_node)

granted-HasVoted :
    (t : ℕ) (cs : List Call) (n : Node) → HasVoted t n → Remembers t cs n → granted t cs n ≡ 0
unfolding granted
granted-HasVoted t [] n h r = refl
granted-HasVoted t (c ∷ cs) n h r =
    let (kept, later) = call-HasVoted t c cs n h r in
    rw (no_second t c n h) (granted-HasVoted t cs (call c n) (rw kept h) later)

granted-others :
    (t : ℕ) (c : Call) (cs : List Call) (n : Node)
    → answer t c n ≡ false
    → granted t (c ∷ cs) n ≡ granted t cs (call c n)
unfolding granted
granted-others t c cs n h = rw h

-- Over any history of the calls of a node and of the trimming of its votes in `heartbeat`, it grants
-- the vote of a term at most once, provided that no request comes from a blank id, and that no
-- trimming changes its vote of that term.
pub granted-le-one :
    (t : ℕ) (cs : List Call) (n : Node) → Named cs → Remembers t cs n → granted t cs n ≤ 1
unfolding granted answer
granted-le-one t [] n h r = omega arith
granted-le-one t (votes u who ∷ cs) n h r = elim (Bool-cases (answer t (votes u who) n)) [
  | inl given ↦ rw given (
      omega (
        arith,
        granted-HasVoted t cs (call (votes u who) n) (answer-HasVoted t u who n h.0 given) r,
      ))
  | inr refused ↦ rw refused (granted-le-one t cs (call (votes u who) n) h.1 r)
]
granted-le-one t (counts u ∷ cs) n h r = granted-le-one t cs (call (counts u) n) h r
granted-le-one t (sets_term u ∷ cs) n h r = granted-le-one t cs (call (sets_term u) n) h r
granted-le-one t (beats now ∷ cs) n h r = granted-le-one t cs (call (beats now) n) h r
granted-le-one t (clears ∷ cs) n h r = granted-le-one t cs (call clears n) h r
granted-le-one t (trims ∷ cs) n h r = granted-le-one t cs (call trims n) h r.1

-- The calls never lower the term of a node, and `setTerm` answers true exactly when it raises it.
call-term :
    (c : Call) (n : Node) (t : ℕ)
    → (n.term ≤ (call c n).term)
      × (((set_term t n).1 ≡ true) ↔ (n.term < (set_term t n).0.term))
      × (t ≤ (set_term t n).0.term)
unfolding call vote_to_node add_vote_count set_term update_hb_time clear
call-term c n t = ground arith
