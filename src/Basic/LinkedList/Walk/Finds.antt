-- ===== src/Basic/LinkedList/Walk/Finds.antt =====
-- getNode of basic/linkedlist.go, from either end, and the search of RemoveData.
use own_x_go.Base.{
  ℕ, zero, suc, ◌-◌, ◌/◌, ◌<◌, ◌≡◌, refl, ap, ◌∙◌, Bool, true, false, Option, none, some, List, [],
  ◌∷◌, ◌++◌, arith, ltb, if◌then◌else◌, length, length-append, if_both, ◌⊎◌, inl, Bool-cases, inr,
}
use own_x_go.Basic.LinkedList.{ListNode, LinkedList, node, ◌>>=◌, load, forward, backward, get_node}
use own_x_go.Basic.LinkedList.Cells.{
  Cells, head_of, last_of, Links, Links-back, last_of-append, values,
}
use own_x_go.Basic.LinkedList.Links.{nonzero}
use own_x_go.Basic.LinkedList.Rep.{IsList, cell_of}
use own_x_go.Basic.LinkedList.Walk.{same, search}

bind_each :
    {X Y Z : Type 0} (m : Option X) (f : X → Option Z) (g : X → Option Y) (k : Y → Option Z)
    → ((x : X) → f x ≡ (g x >>= k))
    → (m >>= f) ≡ ((m >>= g) >>= k)
bind_each none f g k h = refl
bind_each (some x) f g k h = h x

module _ {A : Type 0} where
  pub load_lem :
      (l : LinkedList A) (q p a : ℕ) (v : Option A) (ys : Cells A)
      → Links l.memory q p ((a, v) ∷ ys)
      → load a l ≡ some (node v p (head_of q ys))
  unfolding load
  load_lem l q p a v ys h = let c = cell_of h in rw (nonzero a c.0, c.1)

  forward_lem :
      (l : LinkedList A) (q p a n : ℕ) (v : Option A) (xs ys : Cells A)
      → Links l.memory q p (xs ++ ((a, v) ∷ ys))
      → n ≡ head_of q (xs ++ ((a, v) ∷ ys))
      → forward (length xs) n l ≡ some a
  unfolding forward
  forward_lem l q p a n v [] ys h e = ap some e
  forward_lem l q p a n v ((b, w) ∷ xs) ys h e = rw (
    e,
    load_lem l q p b w (xs ++ ((a, v) ∷ ys)) h,
    forward_lem l q b a _ v xs ys (cell_of h).3 refl,
  )

  -- one more step back, at the end
  backward-suc :
      (k n : ℕ) (l : LinkedList A)
      → backward (suc k) n l ≡ (backward k n l >>= λ q. load q l >>= λ c. some c.prev)
  unfolding backward
  backward-suc zero n l = refl
  backward-suc (suc k) n l =
      bind_each (load n l) _ (λ c. backward k c.prev l) _ (λ c. backward-suc k c.prev l)

  backward_lem :
      (l : LinkedList A) (a : ℕ) (ys : Cells A)
      → Links l.memory 0 a ys
      → backward (length ys) (last_of a ys) l ≡ some a
  unfolding backward
  backward_lem l a [] h = refl
  backward_lem l a ((b, w) ∷ ys) h =
      backward-suc (length ys) (last_of b ys) l
      ∙ rw (backward_lem l b ys (cell_of h).3, load_lem l 0 a b w ys h)

  backward_to :
      (l : LinkedList A) (k a n : ℕ) (ys : Cells A)
      → Links l.memory 0 a ys
      → k ≡ length ys
      → n ≡ last_of a ys
      → backward k n l ≡ some a
  backward_to l k a n ys h ek en = rw (ek, en) (backward_lem l a ys h)

  -- Both ways lead to the node.
  pub get_node_lem :
      (l : LinkedList A) (a : ℕ) (v : Option A) (xs ys : Cells A)
      → IsList l (xs ++ ((a, v) ∷ ys))
      → get_node (length xs) l ≡ some a
  unfolding get_node
  get_node_lem l a v xs ys h =
      let n : l.size - 1 - length xs ≡ length ys =
        omega (arith, h.size ∙ length-append xs ((a, v) ∷ ys)) in
      if_both (λ r. r ≡ some a) (ltb (length xs) (l.size / 2))
        (forward_lem l 0 0 a l.first v xs ys h.chain h.begins)
        (backward_to l _ a l.last ys (cell_of (Links-back xs ((a, v) ∷ ys) h.chain)).3 n
          (h.ends ∙ last_of-append 0 xs ((a, v) ∷ ys)))

module _ {A : Type 0} (dec : Discrete A) (v : Option A) where
  -- the list without the first value that is `v`, and whether there is one
  abbrev pub without : List (Option A) → List (Option A) × Bool
  without [] = ([], false)
  without (w ∷ ws) =
      let rest = without ws in if same dec v w then (ws, true) else (w ∷ rest.0, rest.1)

  -- The search ends at the first node whose value is `v`, or at nil.
  pub search_lem :
      (k p n : ℕ) (l : LinkedList A) (xs : Cells A)
      → Links l.memory 0 p xs
      → n ≡ head_of 0 xs
      → length xs < k
      → ((search dec v k n l ≡ some 0) × (without (values xs) ≡ (values xs, false)))
        ⊎ ((ys : Cells A) × (a : ℕ) × (w : Option A) × (zs : Cells A) × (xs ≡ ys ++ ((a, w) ∷ zs))
            × (search dec v k n l ≡ some a)
            × (0 < a)
            × (without (values xs) ≡ (values (ys ++ zs), true)))
  unfolding search
  search_lem zero p n l xs h e fuel = absurd (omega arith)
  search_lem (suc k) p n l [] h e fuel = inl (rw e, refl)
  search_lem (suc k) p n l ((a, w) ∷ xs) h e fuel =
      let c = cell_of h in
      let ih = search_lem k a (l.memory a).next l xs c.3 (ap ListNode.next c.1) (omega arith) in
      let at_w = ap ListNode.dat c.1 in
      elim (Bool-cases (same dec v w)) [
        | inl t ↦ inr ([], a, w, xs, refl, rw (e, nonzero a c.0, at_w, t), c.0, rw t)
        | inr f ↦ elim ih [
          | inl (r, u) ↦ inl (rw (e, nonzero a c.0, at_w, f, r), rw (f, u))
          | inr (ys, b, x, zs, s, r, z, u) ↦ inr (
            (a, w) ∷ ys,
            b,
            x,
            zs,
            ap (◌∷◌ (a, w)) s,
            rw (e, nonzero a c.0, at_w, f, r),
            z,
            rw (f, u),
          )
        ]
      ]
