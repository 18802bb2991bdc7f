-- ===== src/Basic/LinkedList.antt =====
-- basic/linkedlist.go: the doubly linked list, with its nodes at addresses. Address 0 is nil, and
-- `none` stands for a panic on a nil pointer, or for a loop that has run out of the rounds it is
-- given. The lock makes each function one step. An `interface{}` is `Option A`, with `none` as nil.
pub mod Cells
pub mod Links
pub mod Rep
pub mod Edit
pub mod Shrink
pub mod Walk
pub mod Refine
use own_x_go.Base.{
  ℤ, pos, negsuc, ℕ, zero, suc, ◌+◌, ◌-◌, ◌/◌, Option, none, some, Bool, true, false, ◌==◌, ltb,
  if◌then◌else◌, ite, is_some,
}

pub record ListNode (A : Type 0) : Type 0 where
  pub dat : Option A
  pub prev : ℕ
  pub next : ℕ

pub record LinkedList (A : Type 0) : Type 0 where
  pub size : ℕ
  pub first : ℕ
  pub last : ℕ
  pub memory : ℕ → ListNode A
  pub allocated : ℕ

pub data ListError : Type 0 where
  out_of_range : ListError
  not_found : ℕ → ListError

infixl 5 ◌>>=◌
abbrev pub ◌>>=◌ : {A B : Type 0} → Option A → (A → Option B) → Option B
none >>= k = none
some a >>= k = k a

module _ {A : Type 0} where
  abbrev pub node : Option A → ℕ → ℕ → ListNode A
  node v p q = record { dat = v; prev = p; next = q }

  unfoldable pub write : (ℕ → ListNode A) → ℕ → ListNode A → ℕ → ListNode A
  write m p n q = if q == p then n else m q

  abbrev pub store : ℕ → ListNode A → LinkedList A → LinkedList A
  store p n l = record l { memory = write l.memory p n }

  unfoldable pub new_linked_list : LinkedList A
  new_linked_list = record {
    size = 0;
    first = 0;
    last = 0;
    memory = λ _. node none 0 0;
    allocated = 0;
  }

  unfoldable pub load : ℕ → LinkedList A → Option (ListNode A)
  load p l = if p == 0 then none else some (l.memory p)

  -- `p.next = q` and `q.prev = p`
  unfoldable pub set_next : ℕ → ℕ → LinkedList A → Option (LinkedList A)
  set_next p q l = if p == 0 then none else some (store p (record (l.memory p) { next = q }) l)

  unfoldable pub set_prev : ℕ → ℕ → LinkedList A → Option (LinkedList A)
  set_prev q p l = if q == 0 then none else some (store q (record (l.memory q) { prev = p }) l)

  -- What follows `p`, or comes first if `p` is nil; what `q` follows, or comes last.
  unfoldable pub link_next : ℕ → ℕ → LinkedList A → Option (LinkedList A)
  unfolding set_next
  link_next p q l = if p == 0 then some (record l { first = q }) else set_next p q l

  unfoldable pub link_prev : ℕ → ℕ → LinkedList A → Option (LinkedList A)
  unfolding set_prev
  link_prev q p l = if q == 0 then some (record l { last = p }) else set_prev q p l

  unfoldable pub add_last : Option A → LinkedList A → Option (LinkedList A)
  unfolding link_next
  add_last v l =
      let p = suc l.allocated in
      do
        d ← link_next l.last p (record (store p (node v l.last 0) l) { last = p; allocated = p })
        some (record d { size = d.size + 1 })

  unfoldable pub add_first : Option A → LinkedList A → Option (LinkedList A)
  unfolding link_prev
  add_first v l =
      let p = suc l.allocated in
      do
        d ← link_prev l.first p (record (store p (node v 0 l.first) l) { first = p; allocated = p })
        some (record d { size = d.size + 1 })

  unfoldable pub forward : ℕ → ℕ → LinkedList A → Option ℕ
  unfolding load
  forward zero n l = some n
  forward (suc k) n l = load n l >>= λ c. forward k c.next l

  unfoldable pub backward : ℕ → ℕ → LinkedList A → Option ℕ
  unfolding load
  backward zero n l = some n
  backward (suc k) n l = load n l >>= λ c. backward k c.prev l

  unfoldable pub get_node : ℕ → LinkedList A → Option ℕ
  unfolding forward backward
  get_node i l =
      if ltb i (l.size / 2) then forward i l.first l else backward (l.size - 1 - i) l.last l

  -- before the node `t`, which is the one at `i`
  unfoldable pub insert_at :
      ℕ → ℕ → Option A → LinkedList A → Option (LinkedList A × Option ListError)
  unfolding set_prev link_next
  insert_at i t v l =
      if t == 0
      then some (l, some (not_found i))
      else let p = suc l.allocated in
        let before = (l.memory t).prev in
        do
          d ← set_prev t p (record (store p (node v before t) l) { allocated = p })
          e ← link_next before p d
          some (record e { size = e.size + 1 }, none)

  unfoldable pub add_before : ℤ → Option A → LinkedList A → Option (LinkedList A × Option ListError)
  unfolding add_last get_node insert_at
  add_before (negsuc _) v l = some (l, some out_of_range)
  add_before (pos i) v l =
      if ltb l.size i
      then some (l, some out_of_range)
      else if i == l.size
      then (add_last v l >>= λ d. some (d, none))
      else (get_node i l >>= λ t. insert_at i t v l)

  unfoldable pub delete_node : ℕ → LinkedList A → Option (LinkedList A × Option A)
  unfolding link_next link_prev
  delete_node n l =
      if n == 0
      then some (l, none)
      else let c = l.memory n in
        do
          d ← link_next c.prev c.next l
          e ← link_prev c.next c.prev d
          some (record (store n (node none 0 0) e) { size = e.size - 1 }, c.dat)

  unfoldable pub remove : ℤ → LinkedList A → Option (LinkedList A × Option A)
  unfolding get_node delete_node
  remove (negsuc _) l = some (l, none)
  remove (pos i) l =
      if ltb i l.size then (get_node i l >>= λ n. delete_node n l) else some (l, none)

  unfoldable pub until_loop : ℕ → ℕ → ℕ → ℕ → LinkedList A → Option (LinkedList A)
  unfolding link_prev
  until_loop zero current index n l = none
  until_loop (suc k) current index n l =
      if n == 0
      then some l
      else let next = (l.memory n).next in
        link_prev next 0 (record (store n (node none 0 0) l) { first = next; size = l.size - 1 })
        >>= λ d. if current == index then some d else until_loop k (suc current) index next d

  unfoldable pub remove_until : ℤ → LinkedList A → Option (LinkedList A × Option ListError)
  unfolding until_loop
  remove_until (negsuc _) l = some (l, some out_of_range)
  remove_until (pos i) l =
      if ltb i l.size
      then (until_loop (suc l.size) 0 i l.first l >>= λ d. some (d, none))
      else some (l, some out_of_range)

  unfoldable pub remove_first : LinkedList A → Option (LinkedList A × Option A)
  unfolding link_prev
  remove_first l =
      if l.first == 0
      then some (l, none)
      else let c = l.memory l.first in
        link_prev c.next 0 (record l { first = c.next }) >>= λ d.
        some (record (store l.first (node none 0 0) d) { size = d.size - 1 }, c.dat)

  unfoldable pub remove_last : LinkedList A → Option (LinkedList A × Option A)
  unfolding link_next
  remove_last l =
      if l.last == 0
      then some (l, none)
      else let c = l.memory l.last in
        link_next c.prev 0 (record l { last = c.prev }) >>= λ d.
        some (record (store l.last (node none 0 0) d) { size = d.size - 1 }, c.dat)

  unfoldable pub clear_loop : ℕ → ℕ → LinkedList A → Option (LinkedList A)
  clear_loop zero n l = none
  clear_loop (suc k) n l =
      if n == 0 then some l else clear_loop k (l.memory n).next (store n (node none 0 0) l)

  unfoldable pub clear : LinkedList A → Option (LinkedList A)
  unfolding clear_loop
  clear l =
      clear_loop (suc l.size) l.first l >>= λ d. some (record d { first = 0; last = 0; size = 0 })
