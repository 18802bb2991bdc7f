-- ===== src/Basic/LinkedList/Links.antt =====
-- The two writes that every function of basic/linkedlist.go is made of: the link forward from a
-- front part of the list, and the link back from the rest.
use own_x_go.Base.{
  ℕ, ◌<◌, ◌≡◌, refl, false, Option, some, [], ◌∷◌, ◌++◌, arith, ◌==◌, inl, inr, subst, sym,
}
use own_x_go.Basic.LinkedList.{
  ListNode, LinkedList, write, store, set_next, set_prev, link_next, link_prev,
}
use own_x_go.Basic.LinkedList.Cells.{
  Cells, head_of, last_of, at, Links, frame, frame-write, Links-append, Links-front, Links-back,
  Links-Apart, head_of-append, last_of-append, snoc-cases, at-append, pos_of_Links,
}

pub nonzero : (p : ℕ) → 0 < p → (p == 0) ≡ false
nonzero p h = ground arith

module _ {A : Type 0} where
  pub record Front (l : LinkedList A) (q : ℕ) (xs : Cells A) : Type 0 where
    pub begins : l.first ≡ head_of q xs
    pub chain : Links l.memory q 0 xs

  pub record Back (l : LinkedList A) (p : ℕ) (ys : Cells A) : Type 0 where
    pub ends : l.last ≡ last_of p ys
    pub chain : Links l.memory 0 p ys

  -- `d` is `l` but for the pointers at the ends and the nodes `xs`
  pub record Spares (l d : LinkedList A) (xs : Cells A) : Type 0 where
    pub size : d.size ≡ l.size
    pub allocated : d.allocated ≡ l.allocated
    pub memory : (a : ℕ) → at a xs ≡ false → d.memory a ≡ l.memory a

  relink_last :
      {m : ℕ → ListNode A} {q p : ℕ} (n a : ℕ) (v : Option A) (zs : Cells A)
      → Links m q p (zs ++ ((a, v) ∷ []))
      → Links (write m a (record (m a) { next = n })) n p (zs ++ ((a, v) ∷ []))
  unfolding write
  relink_last n a v zs h =
      Links-append zs ((a, v) ∷ [])
        (frame (Links-front zs ((a, v) ∷ []) h)
          λ b i. ground (arith, Links-Apart zs ((a, v) ∷ []) h b i))
        (elim (Links-back zs ((a, v) ∷ []) h) [
          | Links.cons z e out s ↦ Links.cons z (ground (arith, e)) out Links.nil
        ])
        (Links-Apart zs ((a, v) ∷ []) h)

  relink_head :
      {m : ℕ → ListNode A} {q p : ℕ} (n a : ℕ) (v : Option A) (ys : Cells A)
      → Links m q p ((a, v) ∷ ys)
      → Links (write m a (record (m a) { prev = n })) q n ((a, v) ∷ ys)
  unfolding write
  relink_head n a v ys (Links.cons z e out s) =
      Links.cons z (ground (arith, e)) out (frame-write a _ s out)

  pos_of_last :
      {m : ℕ → ListNode A} {q p : ℕ} (a : ℕ) (v : Option A) (zs : Cells A)
      → Links m q p (zs ++ ((a, v) ∷ []))
      → 0 < a
  pos_of_last a v zs h = pos_of_Links h a (ground (arith, at-append a zs ((a, v) ∷ [])))

  Relinks : LinkedList A → ℕ → ℕ → Cells A → Type 0
  Relinks l q n xs =
      Front l q xs
      → (d : LinkedList A) × (link_next (last_of 0 xs) n l ≡ some d)
        × Front d n xs
        × Spares l d xs
        × (d.last ≡ l.last)

  Relinks-snoc :
      (l : LinkedList A) (q n a : ℕ) (v : Option A) (zs : Cells A)
      → Relinks l q n (zs ++ ((a, v) ∷ []))
  unfolding link_next set_next write Relinks
  Relinks-snoc l q n a v zs f = (
    store a (record (l.memory a) { next = n }) l,
    rw (last_of-append 0 zs ((a, v) ∷ []), nonzero a (pos_of_last a v zs f.chain)),
    record {
      begins = rw (f.begins, head_of-append q zs ((a, v) ∷ []), head_of-append n zs ((a, v) ∷ []));
      chain = relink_last n a v zs f.chain;
    },
    record {
      size = refl;
      allocated = refl;
      memory = λ b i. ground (arith, at-append b zs ((a, v) ∷ []));
    },
    refl,
  )

  pub link_next_lem :
      (l : LinkedList A) (r q n : ℕ) (xs : Cells A)
      → r ≡ last_of 0 xs
      → Front l q xs
      → (d : LinkedList A) × (link_next r n l ≡ some d)
        × Front d n xs
        × Spares l d xs
        × (d.last ≡ l.last)
  unfolding link_next Relinks
  link_next_lem l r q n xs e = rw e (elim (snoc-cases xs) [
    | inl e ↦ subst (Relinks l q n) (sym e) λ f. (
      record l { first = n },
      refl,
      record { begins = refl; chain = Links.nil },
      record { size = refl; allocated = refl; memory = λ a i. refl },
      refl,
    )
    | inr (zs, a, v, e) ↦ subst (Relinks l q n) (sym e) (Relinks-snoc l q n a v zs)
  ])

  pub link_prev_lem :
      (l : LinkedList A) (r p n : ℕ) (ys : Cells A)
      → r ≡ head_of 0 ys
      → Back l p ys
      → (d : LinkedList A) × (link_prev r n l ≡ some d)
        × Back d n ys
        × Spares l d ys
        × (d.first ≡ l.first)
  unfolding link_prev set_prev write
  link_prev_lem l r p n [] e b = rw e (
    record l { last = n },
    refl,
    record { ends = refl; chain = Links.nil },
    record { size = refl; allocated = refl; memory = λ a i. refl },
    refl,
  )
  link_prev_lem l r p n ((a, v) ∷ ys) e b = rw e (
    store a (record (l.memory a) { prev = n }) l,
    rw (nonzero a (pos_of_Links b.chain a (ground arith))),
    record { ends = b.ends; chain = relink_head n a v ys b.chain },
    record { size = refl; allocated = refl; memory = λ a i. ground arith },
    refl,
  )
