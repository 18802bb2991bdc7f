-- ===== src/Basic/LinkedList/Walk/Visits.antt =====
-- Loop and ReverseLoop of basic/linkedlist.go visit the values from either end.
use own_x_go.Base.{
  ℕ, zero, suc, ◌+◌, ◌-◌, ◌<◌, ◌≡◌, refl, ap, ◌∙◌, Bool, true, false, Option, some, List, [], ◌∷◌,
  arith, if◌then◌else◌, length,
}
use own_x_go.Basic.LinkedList.{ListNode, LinkedList}
use own_x_go.Basic.LinkedList.Cells.{Cells, head_of, last_of, Links, values}
use own_x_go.Basic.LinkedList.Links.{nonzero}
use own_x_go.Basic.LinkedList.Rep.{IsList, cell_of}
use own_x_go.Basic.LinkedList.Walk.{loop_from, loop, reverse_from, reverse_loop}

module _ {A S : Type 0} (callback : ℕ → Option A → S → S × Bool) where
  -- the calls on values that start at index `i`, as long as they return true
  abbrev pub visit : ℕ → List (Option A) → S → S
  visit i [] s = s
  visit i (v ∷ vs) s = let (s', more) = callback i v s in if more then visit (suc i) vs s' else s'

  -- the same from the last value to the first, and whether every call has returned true
  abbrev pub visit_back : ℕ → List (Option A) → S → S × Bool
  visit_back i [] s = (s, true)
  visit_back i (v ∷ vs) s =
      let (s', more) = visit_back (suc i) vs s in if more then callback i v s' else (s', false)

  some_if : (b : Bool) (x y : S) → (if b then some x else some y) ≡ some (if b then x else y)
  some_if true x y = refl
  some_if false x y = refl

  loop_from_lem :
      (k i p n : ℕ) (l : LinkedList A) (xs : Cells A) (s : S)
      → Links l.memory 0 p xs
      → n ≡ head_of 0 xs
      → length xs < k
      → loop_from callback k i n l s ≡ some (visit i (values xs) s)
  unfolding loop_from
  loop_from_lem zero i p n l xs s h e fuel = absurd (omega arith)
  loop_from_lem (suc k) i p n l [] s h e fuel = rw e
  loop_from_lem (suc k) i p n l ((a, v) ∷ xs) s h e fuel =
      let c = cell_of h in
      let r = callback i v s in
      rw
        (
          e,
          nonzero a c.0,
          ap ListNode.dat c.1,
          loop_from_lem k (suc i) a (l.memory a).next l xs r.0 c.3 (ap ListNode.next c.1)
              (omega arith),
        )
        (some_if r.1 (visit (suc i) (values xs) r.0) r.0)

  -- Loop returns, and has called the callback on the values from the first on, each with its index,
  -- until one call returns false.
  pub loop_visits :
      (l : LinkedList A) (xs : Cells A) (s : S)
      → IsList l xs
      → loop callback l s ≡ some (visit 0 (values xs) s)
  unfolding loop
  loop_visits l xs s h =
      loop_from_lem (suc l.size) 0 0 l.first l xs s h.chain h.begins (omega (arith, h.size))

  reversed : ℕ → ℕ → ℕ → LinkedList A → S × Bool → Option S
  reversed k index p l (s, more) = if more then reverse_from callback k index p l s else some s

  reverse_step :
      (k i p a : ℕ) (v : Option A) (l : LinkedList A) (ys : Cells A) (r : S × Bool)
      → Links l.memory 0 p ((a, v) ∷ ys)
      → reversed (suc k) (suc i - 1) a l r
        ≡ reversed k (i - 1) p l (if r.1 then callback i v r.0 else (r.0, false))
  unfolding reversed reverse_from
  reverse_step k i p a v l ys (s, false) h = refl
  reverse_step k i p a v l ys (s, true) h =
      let c = cell_of h in
      let idx : suc i - 1 ≡ i = omega arith in
      rw (nonzero a c.0, ap ListNode.dat c.1, ap ListNode.prev c.1, idx)

  reverse_from_lem :
      (k i p f index n : ℕ) (l : LinkedList A) (xs : Cells A) (s : S)
      → Links l.memory 0 p xs
      → f ≡ length xs + k
      → index ≡ i + length xs - 1
      → n ≡ last_of p xs
      → reverse_from callback f index n l s ≡ reversed k (i - 1) p l (visit_back i (values xs) s)
  unfolding reversed
  reverse_from_lem k i p f index n l [] s h ef ei en =
      let ef' : f ≡ k = omega arith in let ei' : index ≡ i - 1 = omega arith in rw (ef', ei', en)
  reverse_from_lem k i p f index n l ((a, v) ∷ ys) s h ef ei en =
      reverse_from_lem (suc k) (suc i) a f index n l ys s (cell_of h).3 (omega arith) (omega arith)
        en
      ∙ reverse_step k i p a v l ys (visit_back (suc i) (values ys) s) h

  reversed_end : (r : S × Bool) (l : LinkedList A) → reversed 1 0 0 l r ≡ some r.0
  unfolding reversed reverse_from
  reversed_end (s, true) l = refl
  reversed_end (s, false) l = refl

  -- ReverseLoop returns, and has called the callback on the values from the last back to the first,
  -- each with its index, until one call returns false.
  pub reverse_loop_visits :
      (l : LinkedList A) (xs : Cells A) (s : S)
      → IsList l xs
      → reverse_loop callback l s ≡ some (visit_back 0 (values xs) s).0
  unfolding reverse_loop
  reverse_loop_visits l xs s h =
      reverse_from_lem 1 0 0 (suc l.size) (l.size - 1) l.last l xs s h.chain (omega (arith, h.size))
        (omega (arith, h.size)) h.ends
      ∙ reversed_end (visit_back 0 (values xs) s) l
