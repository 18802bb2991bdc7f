-- ===== src/Basic/LinkedList/Cells.antt =====
-- What a chain of nodes of basic/linkedlist.go stands for: the address and the value of each node, in
-- order, with the pointers that lead through them in both directions.
use own_x_go.Base.{
  ℕ, ◌<◌, ◌≤◌, ◌≡◌, refl, Bool, true, false, ◌||◌, Option, List, [], ◌∷◌, ◌++◌, arith, ◌==◌, length,
  ◌⊎◌, inl, inr, zero, suc, ◌∙◌, ap, map,
}
use own_x_go.Basic.LinkedList.{ListNode, node, write}

abbrev pub Cells : Type 0 → Type 0
Cells A = List (ℕ × Option A)

module _ {A : Type 0} where
  abbrev pub values : Cells A → List (Option A)
  values = map (λ c. c.1)

  -- the first address, or `q` of no nodes; the last one, or `p`
  abbrev pub head_of : ℕ → Cells A → ℕ
  head_of q [] = q
  head_of q ((a, _) ∷ xs) = a

  abbrev pub last_of : ℕ → Cells A → ℕ
  last_of p [] = p
  last_of p ((a, _) ∷ xs) = last_of a xs

  abbrev pub at : ℕ → Cells A → Bool
  at b [] = false
  at b ((a, _) ∷ xs) = (b == a) || at b xs

  -- The nodes `xs` come after `p` and before `q`, each linked to its two neighbours.
  pub data Links (m : ℕ → ListNode A) (q : ℕ) : ℕ → Cells A → Type 0 where
    nil : {p : ℕ} → Links m q p []
    cons :
        {p a : ℕ} {v : Option A} {xs : Cells A}
        → 0 < a
        → m a ≡ node v p (head_of q xs)
        → at a xs ≡ false
        → Links m q a xs
        → Links m q p ((a, v) ∷ xs)

  abbrev pub Apart : Cells A → Cells A → Type 0
  Apart xs ys = (a : ℕ) → at a xs ≡ true → at a ys ≡ false

  abbrev pub Below : ℕ → Cells A → Type 0
  Below n xs = (a : ℕ) → at a xs ≡ true → a ≤ n

  pub at-append : (b : ℕ) (xs ys : Cells A) → at b (xs ++ ys) ≡ (at b xs || at b ys)
  at-append b [] ys = refl
  at-append b ((a, v) ∷ xs) ys = ground (arith, at-append b xs ys)

  pub head_of-append : (q : ℕ) (xs ys : Cells A) → head_of q (xs ++ ys) ≡ head_of (head_of q ys) xs
  head_of-append q [] ys = refl
  head_of-append q ((a, v) ∷ xs) ys = refl

  pub last_of-append : (p : ℕ) (xs ys : Cells A) → last_of p (xs ++ ys) ≡ last_of (last_of p xs) ys
  last_of-append p [] ys = refl
  last_of-append p ((a, v) ∷ xs) ys = last_of-append a xs ys

  pub at-last_of : (p : ℕ) (xs : Cells A) → (xs ≡ []) ⊎ (at (last_of p xs) xs ≡ true)
  at-last_of p [] = inl refl
  at-last_of p ((a, v) ∷ []) = inr (ground arith)
  at-last_of p ((a, v) ∷ (b, w) ∷ xs) = ground (arith, at-last_of a ((b, w) ∷ xs))

  pub pos_of_Links :
      {m : ℕ → ListNode A} {q p : ℕ} {xs : Cells A}
      → Links m q p xs
      → (a : ℕ) → at a xs ≡ true
      → 0 < a
  pos_of_Links nil a i = cc
  pos_of_Links (cons b e out s) a i = ground (arith, pos_of_Links s a)

  -- A chain survives any change that spares its own addresses.
  pub frame :
      {m n : ℕ → ListNode A} {q p : ℕ} {xs : Cells A}
      → Links m q p xs
      → ((a : ℕ) → at a xs ≡ true → n a ≡ m a)
      → Links n q p xs
  frame nil same = nil
  frame (cons {a = a} b e out s) same =
      cons b (same a (ground arith) ∙ e) out (frame s λ b i. same b (ground arith))

  pub frame-write :
      {m : ℕ → ListNode A} {q p : ℕ} {xs : Cells A} (b : ℕ) (n : ListNode A)
      → Links m q p xs
      → at b xs ≡ false
      → Links (write m b n) q p xs
  unfolding write
  frame-write b n h out = frame h (ground arith)

  pub Links-append :
      {m : ℕ → ListNode A} {q p : ℕ} (xs ys : Cells A)
      → Links m (head_of q ys) p xs
      → Links m q (last_of p xs) ys
      → Apart xs ys
      → Links m q p (xs ++ ys)
  Links-append [] ys hx hy apart = hy
  Links-append {q = q} ((a, v) ∷ xs) ys (cons b e out s) hy apart =
      cons b (rw (head_of-append q xs ys, e)) (rw (at-append a xs ys, out) (apart a (ground arith)))
        (Links-append xs ys s hy λ b i. apart b (ground arith))

  pub Links-front :
      {m : ℕ → ListNode A} {q p : ℕ} (xs ys : Cells A)
      → Links m q p (xs ++ ys)
      → Links m (head_of q ys) p xs
  Links-front [] ys h = nil
  Links-front {q = q} ((a, v) ∷ xs) ys (cons b e out s) =
      cons b (rw (e, head_of-append q xs ys)) (ground (arith, at-append a xs ys, out))
        (Links-front xs ys s)

  pub Links-back :
      {m : ℕ → ListNode A} {q p : ℕ} (xs ys : Cells A)
      → Links m q p (xs ++ ys)
      → Links m q (last_of p xs) ys
  Links-back [] ys h = h
  Links-back ((a, v) ∷ xs) ys (cons b e out s) = Links-back xs ys s

  pub Links-Apart :
      {m : ℕ → ListNode A} {q p : ℕ} (xs ys : Cells A) → Links m q p (xs ++ ys) → Apart xs ys
  Links-Apart [] ys h a i = cc
  Links-Apart ((b, v) ∷ xs) ys (cons z e out s) a i =
      ground (arith, at-append b xs ys, out, Links-Apart xs ys s a)

  -- A list that is not empty has a last node.
  pub snoc-cases :
      (xs : Cells A)
      → (xs ≡ []) ⊎ ((zs : Cells A) × (a : ℕ) × (v : Option A) × (xs ≡ zs ++ ((a, v) ∷ [])))
  snoc-cases [] = inl refl
  snoc-cases ((a, v) ∷ xs) = elim (snoc-cases xs) [
    | inl e ↦ inr ([], a, v, ap (◌∷◌ (a, v)) e)
    | inr (zs, b, w, e) ↦ inr ((a, v) ∷ zs, b, w, ap (◌∷◌ (a, v)) e)
  ]

  -- the node at `i`, with what comes before and after
  pub split_at :
      (xs : Cells A) (i : ℕ)
      → i < length xs
      → (ys : Cells A) × (a : ℕ) × (v : Option A) × (zs : Cells A) × (xs ≡ ys ++ ((a, v) ∷ zs))
        × (length ys ≡ i)
  split_at [] i h = absurd (omega arith)
  split_at ((a, v) ∷ xs) zero h = ([], a, v, xs, refl, refl)
  split_at ((a, v) ∷ xs) (suc i) h =
      let (ys, b, w, zs, e, n) = split_at xs i (omega arith) in
      ((a, v) ∷ ys, b, w, zs, ap (◌∷◌ (a, v)) e, ap suc n)
