-- ===== src/Basic/LinkedList/Rep.antt =====
-- The list of basic/linkedlist.go on the nodes that it holds, in two parts that are linked.
use own_x_go.Base.{
  ℕ, suc, ◌+◌, ◌≡◌, ◌∙◌, true, false, Option, ◌∷◌, ◌++◌, arith, length, length-append, ◌<◌,
}
use own_x_go.Basic.LinkedList.{LinkedList, node, ListNode}
use own_x_go.Basic.LinkedList.Cells.{
  Cells, head_of, last_of, at, Links, Apart, Below, frame, Links-append, Links-front, Links-back,
  head_of-append, last_of-append, at-append,
}
use own_x_go.Basic.LinkedList.Links.{Front, Back}

module _ {A : Type 0} where
  -- The list holds the nodes `xs`, in order and linked both ways.
  pub record IsList (l : LinkedList A) (xs : Cells A) : Type 0 where
    pub begins : l.first ≡ head_of 0 xs
    pub ends : l.last ≡ last_of 0 xs
    pub chain : Links l.memory 0 0 xs
    pub size : l.size ≡ length xs
    pub below : Below l.allocated xs

  pub Front-of :
      {l : LinkedList A} (xs ys : Cells A) → IsList l (xs ++ ys) → Front l (head_of 0 ys) xs
  Front-of xs ys h = record {
    begins = rw (h.begins, head_of-append 0 xs ys);
    chain = Links-front xs ys h.chain;
  }

  pub Back-of :
      {l : LinkedList A} (xs ys : Cells A) → IsList l (xs ++ ys) → Back l (last_of 0 xs) ys
  Back-of xs ys h = record {
    ends = rw (h.ends, last_of-append 0 xs ys);
    chain = Links-back xs ys h.chain;
  }

  pub joined :
      {l : LinkedList A} (xs ys : Cells A)
      → Front l (head_of 0 ys) xs
      → Back l (last_of 0 xs) ys
      → Apart xs ys
      → l.size ≡ length xs + length ys
      → Below l.allocated (xs ++ ys)
      → IsList l (xs ++ ys)
  joined xs ys f b apart n below = record {
    begins = rw (f.begins, head_of-append 0 xs ys);
    ends = rw (b.ends, last_of-append 0 xs ys);
    chain = Links-append xs ys f.chain b.chain apart;
    size = rw (n, length-append xs ys);
    below = below;
  }

  pub Front-frame :
      {l d : LinkedList A} {q : ℕ} {xs : Cells A}
      → Front l q xs
      → d.first ≡ l.first
      → ((a : ℕ) → at a xs ≡ true → d.memory a ≡ l.memory a)
      → Front d q xs
  Front-frame f e same = record { begins = e ∙ f.begins; chain = frame f.chain same }

  pub Back-frame :
      {l d : LinkedList A} {p : ℕ} {ys : Cells A}
      → Back l p ys
      → d.last ≡ l.last
      → ((a : ℕ) → at a ys ≡ true → d.memory a ≡ l.memory a)
      → Back d p ys
  Back-frame b e same = record { ends = e ∙ b.ends; chain = frame b.chain same }

  pub out_of_Below : (n : ℕ) (xs : Cells A) → Below n xs → at (suc n) xs ≡ false
  out_of_Below n xs h = ground (arith, h (suc n))

  -- what is known of the node at the head of a chain
  pub cell_of :
      {m : ℕ → ListNode A} {q p a : ℕ} {v : Option A} {ys : Cells A}
      → Links m q p ((a, v) ∷ ys)
      → (0 < a) × (m a ≡ node v p (head_of q ys)) × (at a ys ≡ false) × Links m q a ys
  cell_of (Links.cons b e out s) = (b, e, out, s)

  pub Apart-cons :
      (p : ℕ) (v : Option A) (xs ys : Cells A)
      → at p xs ≡ false
      → Apart xs ys
      → Apart xs ((p, v) ∷ ys)
  Apart-cons p v xs ys out apart a i = ground (arith, apart a i)

  pub Below-insert :
      (n : ℕ) (v : Option A) (xs ys : Cells A)
      → Below n (xs ++ ys)
      → Below (suc n) (xs ++ ((suc n, v) ∷ ys))
  Below-insert n v xs ys h a i =
      ground (arith, at-append a xs ((suc n, v) ∷ ys), at-append a xs ys, h a)

  pub Below-delete :
      (n a : ℕ) (v : Option A) (xs ys : Cells A)
      → Below n (xs ++ ((a, v) ∷ ys))
      → Below n (xs ++ ys)
  Below-delete n a v xs ys h b i =
      ground (arith, at-append b xs ((a, v) ∷ ys), at-append b xs ys, h b)
