-- ===== src/Basic/LinkedList/Edit.antt =====
-- The functions of basic/linkedlist.go that change the list, each on the nodes that it holds.
use own_x_go.Base.{
  if◌then◌else◌, ◌-◌, ℕ, suc, ◌+◌, ◌≡◌, refl, ◌∙◌, false, Option, some, [], ◌∷◌, ◌++◌, arith,
  length, length-append, none, ap, ◌<◌, subst, sym,
}
use own_x_go.Basic.LinkedList.{
  ListError, not_found, ◌>>=◌, insert_at, delete_node, LinkedList, node, write, store, add_last,
  add_first, ListNode, link_prev, set_prev, link_next,
}
use own_x_go.Basic.LinkedList.Cells.{
  Cells, head_of, last_of, at, Links, frame, at-append, Links-Apart, frame-write,
}
use own_x_go.Basic.LinkedList.Links.{Front, Back, link_next_lem, link_prev_lem, nonzero}
use own_x_go.Basic.LinkedList.Rep.{
  Below-insert, Below-delete, IsList, Front-of, Back-of, joined, Front-frame, Back-frame,
  out_of_Below, cell_of, Apart-cons,
}

module _ {A : Type 0} where
  pub add_last_lem :
      (l : LinkedList A) (v : Option A) (xs : Cells A)
      → IsList l xs
      → (d : LinkedList A) × (add_last v l ≡ some d) × IsList d (xs ++ ((suc l.allocated, v) ∷ []))
  unfolding add_last write
  add_last_lem l v xs h =
      let p = suc l.allocated in
      let l' = record (store p (node v l.last 0) l) { last = p; allocated = p } in
      let out = out_of_Below l.allocated xs h.below in
      let f : Front l' 0 xs = record { begins = h.begins; chain = frame h.chain (ground arith) } in
      let (d, e, f', s, last) = link_next_lem l' l.last 0 p xs h.ends f in
      (
        record d { size = d.size + 1 },
        rw e,
        joined xs ((p, v) ∷ []) (record { begins = f'.begins; chain = f'.chain })
            (record {
              ends = last;
              chain =
                  Links.cons (omega arith) (ground (arith, s.memory p out, h.ends)) refl Links.nil;
            })
            (ground arith) (ground (arith, s.size, h.size))
            (λ a i. ground (arith, at-append a xs ((p, v) ∷ []), h.below a, s.allocated)),
      )

  pub add_first_lem :
      (l : LinkedList A) (v : Option A) (xs : Cells A)
      → IsList l xs
      → (d : LinkedList A) × (add_first v l ≡ some d) × IsList d ((suc l.allocated, v) ∷ xs)
  unfolding add_first write
  add_first_lem l v xs h =
      let p = suc l.allocated in
      let l' = record (store p (node v 0 l.first) l) { first = p; allocated = p } in
      let out = out_of_Below l.allocated xs h.below in
      let b : Back l' 0 xs = record { ends = h.ends; chain = frame h.chain (ground arith) } in
      let (d, e, b', s, first) = link_prev_lem l' l.first 0 p xs h.begins b in
      (
        record d { size = d.size + 1 },
        rw e,
        record {
          begins = first;
          ends = b'.ends;
          chain = Links.cons (omega arith) (ground (arith, s.memory p out, h.begins)) out b'.chain;
          size = omega (arith, s.size, h.size);
          below = λ a i. ground (arith, h.below a, s.allocated);
        },
      )

  set_prev-link_prev : (q p : ℕ) (l : LinkedList A) → 0 < q → set_prev q p l ≡ link_prev q p l
  unfolding link_prev set_prev
  set_prev-link_prev q p l h = rw (nonzero q h)

  insert_at_run :
      (l d e : LinkedList A) (i t : ℕ) (v : Option A)
      → 0 < t
      → set_prev t
          (suc l.allocated)
          (record (store (suc l.allocated) (node v (l.memory t).prev t) l) {
            allocated = suc l.allocated;
          })
        ≡ some d
      → link_next (l.memory t).prev (suc l.allocated) d ≡ some e
      → insert_at i t v l ≡ some (record e { size = e.size + 1 }, none)
  unfolding insert_at
  insert_at_run l d e i t v z ed ee =
      subst
        (λ b.
          if◌then◌else◌ {A = Option (LinkedList A × Option ListError)} b
            (some (l, some (not_found i)))
            (set_prev t (suc l.allocated)
                (record (store (suc l.allocated) (node v (l.memory t).prev t) l) {
                  allocated = suc l.allocated;
                })
              >>= λ d. link_next (l.memory t).prev (suc l.allocated) d >>= λ e.
                  some (record e { size = e.size + 1 }, none))
          ≡ some (record e { size = e.size + 1 }, none))
        (sym (nonzero t z)) (rw (ed, ee))

  pub insert_at_lem :
      (l : LinkedList A) (i t : ℕ) (v w : Option A) (xs ys : Cells A)
      → IsList l (xs ++ ((t, w) ∷ ys))
      → (d : LinkedList A) × (insert_at i t v l ≡ some (d, none))
        × IsList d (xs ++ ((suc l.allocated, v) ∷ (t, w) ∷ ys))
  unfolding insert_at write
  insert_at_lem l i t v w xs ys h =
      let p = suc l.allocated in
      let before = (l.memory t).prev in
      let l' = record (store p (node v before t) l) { allocated = p } in
      let rest = (t, w) ∷ ys in
      let outs = out_of_Below l.allocated (xs ++ rest) h.below in
      let out_x : at p xs ≡ false = ground (arith, at-append p xs rest) in
      let out_y : at p rest ≡ false = ground (arith, at-append p xs rest) in
      let apart = Links-Apart xs rest h.chain in
      let b = Back-of xs rest h in
      let c = cell_of b.chain in
      let f' : Front l' t xs = Front-frame (Front-of xs rest h) refl (λ a i. ground arith) in
      let b' : Back l' (last_of 0 xs) rest = Back-frame b refl (λ a i. ground arith) in
      let (d, ed, bd, sd, first) = link_prev_lem l' t (last_of 0 xs) p rest refl b' in
      let fd : Front d t xs = Front-frame f' first (λ a i. sd.memory a (ground (arith, apart a))) in
      let (e, ee, fe, se, last) = link_next_lem d before t p xs (ap ListNode.prev c.1) fd in
      let be : Back e p rest = Back-frame bd last (λ a i. se.memory a (ground (arith, apart a))) in
      let new : e.memory p ≡ node v (last_of 0 xs) t =
        se.memory p out_x ∙ sd.memory p out_y ∙ ground (arith, c.1) in
      let n : l.size ≡ length xs + suc (length ys) = h.size ∙ length-append xs rest in
      (
        record e { size = e.size + 1 },
        insert_at_run l d e i t v c.0 (set_prev-link_prev t p l' c.0 ∙ ed) ee,
        joined xs ((p, v) ∷ rest) (record { begins = fe.begins; chain = fe.chain })
            (record { ends = be.ends; chain = Links.cons (omega arith) new out_y be.chain })
            (Apart-cons p v xs rest out_x apart) (omega (arith, n, se.size ∙ sd.size))
            (rw (se.allocated, sd.allocated) (Below-insert l.allocated v xs rest h.below)),
      )

  delete_node_run :
      (l d e : LinkedList A) (a : ℕ)
      → 0 < a
      → link_next (l.memory a).prev (l.memory a).next l ≡ some d
      → link_prev (l.memory a).next (l.memory a).prev d ≡ some e
      → delete_node a l
        ≡ some (record (store a (node none 0 0) e) { size = e.size - 1 }, (l.memory a).dat)
  unfolding delete_node
  delete_node_run l d e a z ed ee = rw (nonzero a z, ed, ee)

  pub delete_node_lem :
      (l : LinkedList A) (a : ℕ) (v : Option A) (xs ys : Cells A)
      → IsList l (xs ++ ((a, v) ∷ ys))
      → (d : LinkedList A) × (delete_node a l ≡ some (d, v)) × IsList d (xs ++ ys)
  unfolding delete_node write
  delete_node_lem l a v xs ys h =
      let b = Back-of xs ((a, v) ∷ ys) h in
      let c = cell_of b.chain in
      let apart = Links-Apart xs ((a, v) ∷ ys) h.chain in
      let (d, ed, fd, sd, last) =
        link_next_lem l (l.memory a).prev a (l.memory a).next xs (ap ListNode.prev c.1)
          (Front-of xs ((a, v) ∷ ys) h) in
      let bd : Back d a ys =
        Back-frame {l = l} (record { ends = b.ends; chain = c.3 }) last
          (λ z i. sd.memory z (ground (arith, apart z))) in
      let (e, ee, be, se, first) =
        link_prev_lem d (l.memory a).next a (l.memory a).prev ys (ap ListNode.next c.1) bd in
      let fe : Front e (l.memory a).next xs =
        Front-frame fd first (λ z i. se.memory z (ground (arith, apart z i))) in
      (
        record (store a (node none 0 0) e) { size = e.size - 1 },
        delete_node_run l d e a c.0 ed ee
            ∙ ap
                (λ (w : Option A).
                  some (record (store a (node none 0 0) e) { size = e.size - 1 }, w))
                (ap ListNode.dat c.1),
        joined xs ys
            (record {
              begins = fe.begins ∙ ap (λ q. head_of q xs) (ap ListNode.next c.1);
              chain =
                  frame-write a _
                    (subst (λ q. Links e.memory q 0 xs) (ap ListNode.next c.1) fe.chain)
                    (ground (arith, apart a));
            })
            (record {
              ends = be.ends ∙ ap (λ p. last_of p ys) (ap ListNode.prev c.1);
              chain =
                  frame-write a _
                    (subst (λ p. Links e.memory 0 p ys) (ap ListNode.prev c.1) be.chain) c.2;
            })
            (λ z i. ground (arith, apart z i))
            (omega (arith, h.size ∙ length-append xs ((a, v) ∷ ys), se.size ∙ sd.size))
            (rw (se.allocated, sd.allocated) (Below-delete l.allocated a v xs ys h.below)),
      )
