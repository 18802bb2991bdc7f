-- ===== src/Basic/LinkedList/Walk.antt =====
-- The functions of basic/linkedlist.go that read: Get and its like, the search of RemoveData, Loop and
-- ReverseLoop. A callback takes and returns the state that its closure holds.
pub mod Finds
pub mod Visits
use own_x_go.Base.{
  ℤ, pos, negsuc, ℕ, zero, suc, ◌-◌, Bool, true, false, Option, none, some, ◌==◌, ltb,
  if◌then◌else◌, ite,
}
use own_x_go.Basic.LinkedList.{ListNode, LinkedList, ◌>>=◌, load, get_node, delete_node}

module _ {A : Type 0} where
  unfoldable pub get_first : LinkedList A → Option A
  get_first l = if l.first == 0 then none else (l.memory l.first).dat

  unfoldable pub get_last : LinkedList A → Option A
  get_last l = if l.last == 0 then none else (l.memory l.last).dat

  unfoldable pub get : ℤ → LinkedList A → Option (Option A)
  get (negsuc _) l = some none
  get (pos i) l =
      if ltb i l.size then (get_node i l >>= λ n. load n l >>= λ c. some c.dat) else some none

  -- `n.data == nil` and `n.data == v`
  unfoldable pub same : Discrete A → Option A → Option A → Bool
  same dec none none = true
  same dec none (some d) = false
  same dec (some v) none = false
  same dec (some v) (some d) = ite (dec d v) true false

  unfoldable pub search : Discrete A → Option A → ℕ → ℕ → LinkedList A → Option ℕ
  search dec v zero n l = none
  search dec v (suc k) n l =
      if n == 0
      then some 0
      else if same dec v (l.memory n).dat
      then some n
      else search dec v k (l.memory n).next l

  unfoldable pub remove_data : Discrete A → Option A → LinkedList A → Option (LinkedList A × Bool)
  remove_data dec v l = search dec v (suc l.size) l.first l >>= λ n.
      if n == 0 then some (l, false) else (delete_node n l >>= λ (d, _). some (d, true))

module _ {A S : Type 0} (callback : ℕ → Option A → S → S × Bool) where
  unfoldable pub loop_from : ℕ → ℕ → ℕ → LinkedList A → S → Option S
  loop_from zero index n l s = none
  loop_from (suc k) index n l s =
      if n == 0
      then some s
      else let (s', more) = callback index (l.memory n).dat s in
        if more then loop_from k (suc index) (l.memory n).next l s' else some s'

  unfoldable pub loop : LinkedList A → S → Option S
  loop l s = loop_from (suc l.size) 0 l.first l s

  unfoldable pub reverse_from : ℕ → ℕ → ℕ → LinkedList A → S → Option S
  reverse_from zero index n l s = none
  reverse_from (suc k) index n l s =
      if n == 0
      then some s
      else let (s', more) = callback index (l.memory n).dat s in
        if more then reverse_from k (index - 1) (l.memory n).prev l s' else some s'

  unfoldable pub reverse_loop : LinkedList A → S → Option S
  reverse_loop l s = reverse_from (suc l.size) (l.size - 1) l.last l s
