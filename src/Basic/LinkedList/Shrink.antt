-- ===== src/Basic/LinkedList/Shrink.antt =====
-- The functions of basic/linkedlist.go that take nodes off the ends of the list, each on the nodes
-- that it holds.
use own_x_go.Base.{
  ℕ, zero, suc, ◌+◌, ◌-◌, ◌<◌, ◌≡◌, refl, sym, ap, ◌∙◌, true, false, Option, none, some, [], ◌∷◌,
  ◌++◌, arith, ◌==◌, length, length-append, drop,
}
use own_x_go.Basic.LinkedList.{
  ListNode, LinkedList, node, write, store, link_next, link_prev, remove_first, remove_last,
  until_loop, clear_loop, clear,
}
use own_x_go.Basic.LinkedList.Cells.{Cells, head_of, Links, frame-write, Links-Apart, at-append}
use own_x_go.Basic.LinkedList.Links.{Front, Back, link_next_lem, link_prev_lem, nonzero}
use own_x_go.Basic.LinkedList.Rep.{IsList, Front-of, Back-of, cell_of, Below-delete}

module _ {A : Type 0} where
  remove_first_run :
      (l d : LinkedList A) (a : ℕ)
      → l.first ≡ a
      → 0 < a
      → link_prev (l.memory a).next 0 (record l { first = (l.memory a).next }) ≡ some d
      → remove_first l
        ≡ some (record (store a (node none 0 0) d) { size = d.size - 1 }, (l.memory a).dat)
  unfolding remove_first
  remove_first_run l d a h z e = rw (h, nonzero a z, e)

  pub remove_first_lem :
      (l : LinkedList A) (a : ℕ) (v : Option A) (ys : Cells A)
      → IsList l ((a, v) ∷ ys)
      → (d : LinkedList A) × (remove_first l ≡ some (d, v)) × IsList d ys
  unfolding write
  remove_first_lem l a v ys h =
      let c = cell_of h.chain in
      let l' = record l { first = (l.memory a).next } in
      let b : Back l' a ys = record { ends = h.ends; chain = c.3 } in
      let (d, e, b', s, first) =
        link_prev_lem l' (l.memory a).next a 0 ys (ap ListNode.next c.1) b in
      (
        record (store a (node none 0 0) d) { size = d.size - 1 },
        remove_first_run l d a h.begins c.0 e
            ∙ ap
                (λ (w : Option A).
                  some (record (store a (node none 0 0) d) { size = d.size - 1 }, w))
                (ap ListNode.dat c.1),
        record {
          begins = first ∙ ap ListNode.next c.1;
          ends = b'.ends;
          chain = frame-write a _ b'.chain c.2;
          size = omega (arith, s.size, h.size);
          below = rw s.allocated (Below-delete l.allocated a v [] ys h.below);
        },
      )

  remove_last_run :
      (l d : LinkedList A) (a : ℕ)
      → l.last ≡ a
      → 0 < a
      → link_next (l.memory a).prev 0 (record l { last = (l.memory a).prev }) ≡ some d
      → remove_last l
        ≡ some (record (store a (node none 0 0) d) { size = d.size - 1 }, (l.memory a).dat)
  unfolding remove_last
  remove_last_run l d a h z e = rw (h, nonzero a z, e)

  pub remove_last_lem :
      (l : LinkedList A) (a : ℕ) (v : Option A) (zs : Cells A)
      → IsList l (zs ++ ((a, v) ∷ []))
      → (d : LinkedList A) × (remove_last l ≡ some (d, v)) × IsList d zs
  unfolding write
  remove_last_lem l a v zs h =
      let b = Back-of zs ((a, v) ∷ []) h in
      let f = Front-of zs ((a, v) ∷ []) h in
      let c = cell_of b.chain in
      let apart = Links-Apart zs ((a, v) ∷ []) h.chain in
      let l' = record l { last = (l.memory a).prev } in
      let f' : Front l' a zs = record { begins = f.begins; chain = f.chain } in
      let (d, e, fd, s, last) =
        link_next_lem l' (l.memory a).prev a 0 zs (ap ListNode.prev c.1) f' in
      (
        record (store a (node none 0 0) d) { size = d.size - 1 },
        remove_last_run l d a b.ends c.0 e
            ∙ ap
                (λ (w : Option A).
                  some (record (store a (node none 0 0) d) { size = d.size - 1 }, w))
                (ap ListNode.dat c.1),
        record {
          begins = fd.begins;
          ends = last ∙ ap ListNode.prev c.1;
          chain = frame-write a _ fd.chain (ground (arith, apart a));
          size = omega (arith, s.size, h.size ∙ length-append zs ((a, v) ∷ []));
          below = rw s.allocated λ z i. h.below z (ground (arith, at-append z zs ((a, v) ∷ [])));
        },
      )

  -- a round of RemoveUntil
  unlink_head :
      (l : LinkedList A) (a : ℕ) (v : Option A) (ys : Cells A)
      → IsList l ((a, v) ∷ ys)
      → (d : LinkedList A) × (link_prev
            (l.memory a).next
            0
            (record (store a (node none 0 0) l) { first = (l.memory a).next; size = l.size - 1 })
          ≡ some d)
        × IsList d ys
  unfolding write
  unlink_head l a v ys h =
      let c = cell_of h.chain in
      let l' = record (store a (node none 0 0) l) {
        first = (l.memory a).next;
        size = l.size - 1;
      } in
      let b : Back l' a ys = record { ends = h.ends; chain = frame-write a _ c.3 c.2 } in
      let (d, e, b', s, first) =
        link_prev_lem l' (l.memory a).next a 0 ys (ap ListNode.next c.1) b in
      (
        d,
        e,
        record {
          begins = first ∙ ap ListNode.next c.1;
          ends = b'.ends;
          chain = b'.chain;
          size = omega (arith, s.size, h.size);
          below = rw s.allocated (Below-delete l.allocated a v [] ys h.below);
        },
      )

  -- The loop of RemoveUntil goes on as long as the index that it has reached is not the last one.
  pub until_loop_lem :
      (k current index j n : ℕ) (l : LinkedList A) (xs : Cells A)
      → IsList l xs
      → n ≡ l.first
      → length xs < k
      → index ≡ current + j
      → j < length xs
      → (d : LinkedList A) × (until_loop k current index n l ≡ some d) × IsList d (drop (suc j) xs)
  unfolding until_loop
  until_loop_lem zero current index j n l xs h e fuel here long = absurd (omega arith)
  until_loop_lem (suc k) current index j n l [] h e fuel here long = absurd (omega arith)
  until_loop_lem (suc k) current index zero n l ((a, v) ∷ ys) h e fuel here long =
      let c = cell_of h.chain in
      let (d, u, h') = unlink_head l a v ys h in
      let same : (current == index) ≡ true = ground arith in
      (d, rw (e, h.begins, nonzero a c.0, u, same), h')
  until_loop_lem (suc k) current index (suc j) n l ((a, v) ∷ ys) h e fuel here long =
      let c = cell_of h.chain in
      let (d, u, h') = unlink_head l a v ys h in
      let other : (current == index) ≡ false = ground arith in
      let (g, r, h'') =
        until_loop_lem k (suc current) index j (l.memory a).next d ys h'
          (ap ListNode.next c.1 ∙ sym h'.begins) (omega arith) (omega arith) (omega arith) in
      (g, rw (e, h.begins, nonzero a c.0, u, other, r), h'')

  clear_loop_lem :
      (k p n : ℕ) (l : LinkedList A) (xs : Cells A)
      → Links l.memory 0 p xs
      → n ≡ head_of 0 xs
      → length xs < k
      → (d : LinkedList A) × (clear_loop k n l ≡ some d)
  unfolding clear_loop
  clear_loop_lem zero p n l xs h e fuel = absurd (omega arith)
  clear_loop_lem (suc k) p n l [] h e fuel = (l, rw e)
  clear_loop_lem (suc k) p n l ((a, v) ∷ xs) h e fuel =
      let c = cell_of h in
      let (d, r) =
        clear_loop_lem k a (l.memory a).next (store a (node none 0 0) l) xs
          (frame-write a _ c.3 c.2) (ap ListNode.next c.1) (omega arith) in
      (d, rw (e, nonzero a c.0, r))

  pub clear_lem :
      (l : LinkedList A) (xs : Cells A)
      → IsList l xs
      → (d : LinkedList A) × (clear l ≡ some d) × IsList d []
  unfolding clear
  clear_lem l xs h =
      let (d, e) =
        clear_loop_lem (suc l.size) 0 l.first l xs h.chain h.begins (omega (arith, h.size)) in
      (
        record d { first = 0; last = 0; size = 0 },
        rw e,
        record { begins = refl; ends = refl; chain = Links.nil; size = refl; below = λ a i. cc },
      )
