-- ===== src/Nio/Handler/Drains.antt =====
-- The inner loop of `readIo` in nio/handler.go: it has rounds enough, and what it takes off the buffer
-- does not depend on where the stream is cut.
use own_x_go.Base.{
  append-nil, length-append, ℕ, zero, suc, ◌+◌, ◌-◌, ◌≡◌, ◌≤◌, ◌<◌, refl, ap, sym, ◌∙◌, List, [],
  ◌∷◌, ◌++◌, Option, none, some, Bool, true, false, length, take, drop, arith, Option-cases, inl,
  inr, ◌⊎◌, subst, Bool-cases,
}
use own_x_go.Nio.Codec.{uint32, Msg, create_msg, decode, decode_body, read_header}
use own_x_go.Nio.Codec.Frames.{decode-resumes, read_header-append, decode-some, decode-none}
use own_x_go.Nio.Handler.{new_msg, Drained, and_first, drain}

module _ {A : Type 0} where
  take_within : (k : ℕ) (s q : List A) → k ≤ length s → take k (s ++ q) ≡ take k s
  take_within zero s q h = refl
  take_within (suc k) [] q h = absurd (omega arith)
  take_within (suc k) (x ∷ s) q h = ap (◌∷◌ x) (take_within k s q (omega arith))

  drop_within : (k : ℕ) (s q : List A) → k ≤ length s → drop k (s ++ q) ≡ drop k s ++ q
  drop_within zero s q h = refl
  drop_within (suc k) [] q h = absurd (omega arith)
  drop_within (suc k) (x ∷ s) q h = drop_within k s q (omega arith)

  length-drop_le : (k : ℕ) (s : List A) → length (drop k s) ≤ length s
  length-drop_le zero s = omega arith
  length-drop_le (suc k) [] = omega arith
  length-drop_le (suc k) (x ∷ s) = omega (arith, length-drop_le k s)

module _ {V : Type 0} (deflate inflate : List ℕ → Option (List ℕ)) (json : V → Option (List ℕ))
    (z : Bool) where
  read_header-le :
      (m h : Msg V) (p s : List ℕ) → read_header m p ≡ some (h, s) → length s ≤ length p
  unfolding read_header
  read_header-le m h [] s e = ground (arith, e)
  read_header-le m h (a ∷ []) s e = ground (arith, e)
  read_header-le m h (a ∷ b ∷ []) s e = ground (arith, e)
  read_header-le m h (a ∷ b ∷ c ∷ []) s e = ground (arith, e)
  read_header-le m h (a ∷ b ∷ c ∷ d ∷ []) s e = ground (arith, e)
  read_header-le m h (a ∷ b ∷ c ∷ d ∷ f ∷ p) s e = ground (arith, e)

  decode_body-append :
      (m n : Msg V) (p q r : List ℕ)
      → decode_body deflate inflate json z m p ≡ (n, r, true)
      → decode_body deflate inflate json z m (p ++ q) ≡ (n, r ++ q, true)
  unfolding decode_body
  decode_body-append m n p q r e =
      let k = m.length_field - 1 in
      ground (arith, e, length-append p q, take_within k p q, drop_within k p q)

  decode_body-shrinks :
      (m n : Msg V) (p r : List ℕ) (b : Bool)
      → decode_body deflate inflate json z m p ≡ (n, r, b)
      → length r ≤ length p
  unfolding decode_body
  decode_body-shrinks m n p r b e = ground (arith, e, length-drop_le (m.length_field - 1) p)

  decode-append :
      (m n : Msg V) (p q r : List ℕ)
      → decode deflate inflate json z m p ≡ (n, r, true)
      → decode deflate inflate json z m (p ++ q) ≡ (n, r ++ q, true)
  decode-append m n p q r e = elim (Option-cases (read_header m p)) [
    | inl f ↦
        let b : false ≡ true =
          ap (λ (t : Msg V × List ℕ × Bool). t.2)
            (sym (decode-none deflate inflate json z m p f) ∙ e) in
        cc
    | inr ((h, s), f) ↦
        decode-some deflate inflate json z m h (p ++ q) (s ++ q) (read_header-append m h p q s f)
        ∙ decode_body-append h n s q r (sym (decode-some deflate inflate json z m h p s f) ∙ e)
  ]

  -- A message that is taken off a buffer with no message begun uses five bytes of it.
  decode-shrinks :
      (n : Msg V) (p r : List ℕ)
      → decode deflate inflate json z new_msg p ≡ (n, r, true)
      → length r < length p
  unfolding decode read_header create_msg
  decode-shrinks n [] r e = let b : false ≡ true = ap (λ (t : Msg V × List ℕ × Bool). t.2) e in cc
  decode-shrinks n (a ∷ []) r e =
      let b : false ≡ true = ap (λ (t : Msg V × List ℕ × Bool). t.2) e in cc
  decode-shrinks n (a ∷ b ∷ []) r e =
      let b : false ≡ true = ap (λ (t : Msg V × List ℕ × Bool). t.2) e in cc
  decode-shrinks n (a ∷ b ∷ c ∷ []) r e =
      let b : false ≡ true = ap (λ (t : Msg V × List ℕ × Bool). t.2) e in cc
  decode-shrinks n (a ∷ b ∷ c ∷ d ∷ []) r e =
      let b : false ≡ true = ap (λ (t : Msg V × List ℕ × Bool). t.2) e in cc
  decode-shrinks n (a ∷ b ∷ c ∷ d ∷ f ∷ p) r e =
      let h : Msg V = record new_msg { length_field = uint32 a b c d; flag = f } in
      let le : length r ≤ length p = decode_body-shrinks h n p r true e in omega (arith, le)

  abbrev pub decoded : Msg V → List ℕ → Msg V × List ℕ × Bool
  decoded = decode deflate inflate json z

  pub drain_on :
      (k : ℕ) (m n : Msg V) (p r : List ℕ)
      → decoded m p ≡ (n, r, true)
      → drain deflate inflate json z (suc k) m p
        ≡ and_first n (drain deflate inflate json z k new_msg r)
  unfolding drain
  drain_on k m n p r e =
      ap
        (λ (t : Msg V × List ℕ × Bool). elim t.2 as (λ b. Option (Drained V)) [
          | true ↦ and_first t.0 (drain deflate inflate json z k new_msg t.1)
          | false ↦ some ([], t.0, t.1)
        ])
        e

  pub drain_stop :
      (k : ℕ) (m n : Msg V) (p r : List ℕ)
      → decoded m p ≡ (n, r, false)
      → drain deflate inflate json z (suc k) m p ≡ some ([], n, r)
  unfolding drain
  drain_stop k m n p r e =
      ap
        (λ (t : Msg V × List ℕ × Bool). elim t.2 as (λ b. Option (Drained V)) [
          | true ↦ and_first t.0 (drain deflate inflate json z k new_msg t.1)
          | false ↦ some ([], t.0, t.1)
        ])
        e

  decoded-cases :
      (m : Msg V) (p : List ℕ)
      → ((n : Msg V) × (r : List ℕ) × (decoded m p ≡ (n, r, true)))
        ⊎ ((n : Msg V) × (r : List ℕ) × (decoded m p ≡ (n, r, false)))
  decoded-cases m p =
      let t = decoded m p in
      elim (Bool-cases t.2) [
        | inl e ↦ inl (t.0, t.1, ap (λ b. (t.0, t.1, b)) e)
        | inr e ↦ inr (t.0, t.1, ap (λ b. (t.0, t.1, b)) e)
      ]

  and_first-some :
      (n : Msg V) (o : Option (Drained V))
      → ((v : Drained V) × (o ≡ some v))
      → (v : Drained V) × (and_first n o ≡ some v)
  and_first-some n o (v, e) = ((n ∷ v.0, v.1, v.2), ap (and_first n) e)

  -- A round uses five bytes or more, after the first.
  drain_new :
      (k : ℕ) (p : List ℕ)
      → length p < k
      → (v : Drained V) × (drain deflate inflate json z k new_msg p ≡ some v)
  drain_new zero p h = absurd (omega arith)
  drain_new (suc k) p h = elim (decoded-cases new_msg p) [
    | inl (n, r, e) ↦
        subst (λ o. (v : Drained V) × (o ≡ some v)) (sym (drain_on k new_msg n p r e))
          (and_first-some n _ (drain_new k r (omega (arith, decode-shrinks n p r e))))
    | inr (n, r, e) ↦ (([], n, r), drain_stop k new_msg n p r e)
  ]

  decode-le : (m n : Msg V) (p r : List ℕ) → decoded m p ≡ (n, r, true) → length r ≤ length p
  decode-le m n p r e = elim (Option-cases (read_header m p)) [
    | inl f ↦
        let b : false ≡ true =
          ap (λ (t : Msg V × List ℕ × Bool). t.2)
            (sym (decode-none deflate inflate json z m p f) ∙ e) in
        cc
    | inr ((h, s), f) ↦
        let le : length r ≤ length s =
          decode_body-shrinks h n s r true
            (sym (decode-some deflate inflate json z m h p s f) ∙ e) in
        omega (arith, le, read_header-le m h p s f)
  ]

  -- Two rounds more than there are bytes are enough, whatever has come before.
  pub drain_ends :
      (k : ℕ) (m : Msg V) (p : List ℕ)
      → suc (length p) < k
      → (v : Drained V) × (drain deflate inflate json z k m p ≡ some v)
  drain_ends zero m p h = absurd (omega arith)
  drain_ends (suc k) m p h = elim (decoded-cases m p) [
    | inl (n, r, e) ↦
        subst (λ o. (v : Drained V) × (o ≡ some v)) (sym (drain_on k m n p r e))
          (and_first-some n _ (drain_new k r (omega (arith, decode-le m n p r e))))
    | inr (n, r, e) ↦ (([], n, r), drain_stop k m n p r e)
  ]

  and_first_inv :
      (n : Msg V) (o : Option (Drained V)) (v : Drained V)
      → and_first n o ≡ some v
      → (w : Drained V) × (o ≡ some w) × ((n ∷ w.0, w.1, w.2) ≡ v)
  and_first_inv n none v e = cc
  and_first_inv n (some w) v e = (w, refl, cc)

  drain_zero :
      {B : Type 0} (m : Msg V) (p : List ℕ) (v : Drained V)
      → drain deflate inflate json z zero m p ≡ some v
      → B
  unfolding drain
  drain_zero m p v e = cc

  drain_more :
      (k j : ℕ) (m : Msg V) (p : List ℕ) (v : Drained V)
      → k ≤ j
      → drain deflate inflate json z k m p ≡ some v
      → drain deflate inflate json z j m p ≡ some v
  unfolding drain
  drain_more zero j m p v h e = cc
  drain_more (suc k) zero m p v h e = absurd (omega arith)
  drain_more (suc k) (suc j) m p v h e = elim (decoded-cases m p) [
    | inl (n, r, d) ↦
        let (w, a, b) = and_first_inv n _ v (sym (drain_on k m n p r d) ∙ e) in
        drain_on j m n p r d
        ∙ ap (and_first n) (drain_more k j new_msg r w (omega arith) a)
        ∙ ap some b
    | inr (n, r, d) ↦ drain_stop j m n p r d ∙ sym (drain_stop k m n p r d) ∙ e
  ]

  drain_same :
      (k : ℕ) (m n : Msg V) (p q : List ℕ)
      → decoded m p ≡ decoded n q
      → drain deflate inflate json z (suc k) m p ≡ drain deflate inflate json z (suc k) n q
  unfolding drain
  drain_same k m n p q e =
      ap
        (λ (t : Msg V × List ℕ × Bool). elim t.2 as (λ b. Option (Drained V)) [
          | true ↦ and_first t.0 (drain deflate inflate json z k new_msg t.1)
          | false ↦ some ([], t.0, t.1)
        ])
        e

  some_inj : (u v : Drained V) → some u ≡ some v → u ≡ v
  some_inj u v e = cc

  -- To drain what has come, and then what is left of it with what comes next, is to drain all of it.
  pub drain-append :
      (k j i : ℕ) (m : Msg V) (p q : List ℕ) (u v : Drained V)
      → k + j ≤ i
      → drain deflate inflate json z k m p ≡ some u
      → drain deflate inflate json z j u.1 (u.2 ++ q) ≡ some v
      → drain deflate inflate json z i m (p ++ q) ≡ some (u.0 ++ v.0, v.1, v.2)
  drain-append zero j i m p q u v h e f = drain_zero m p u e
  drain-append (suc k) j zero m p q u v h e f = absurd (omega arith)
  drain-append (suc k) zero (suc i) m p q u v h e f = drain_zero u.1 (u.2 ++ q) v f
  drain-append (suc k) (suc j) (suc i) m p q u v h e f = elim (decoded-cases m p) [
    | inl (x, s, d) ↦
        let (w, a, b) = and_first_inv x _ u (sym (drain_on k m x p s d) ∙ e) in
        let f' =
          ap (λ (t : Drained V). drain deflate inflate json z (suc j) t.1 (t.2 ++ q)) b ∙ f in
        let ih = drain-append k (suc j) i new_msg s q w v (omega arith) a f' in
        drain_on i m x (p ++ q) (s ++ q) (decode-append m x p q s d)
        ∙ ap (and_first x) ih
        ∙ ap (λ (t : Drained V). some (t.0 ++ v.0, v.1, v.2)) b
    | inr (x, s, d) ↦
        let b : ([], x, s) ≡ u = some_inj ([], x, s) u (sym (drain_stop k m x p s d) ∙ e) in
        let f' =
          ap (λ (t : Drained V). drain deflate inflate json z (suc j) t.1 (t.2 ++ q)) b ∙ f in
        let r =
          drain_same j x m (s ++ q) (p ++ q) (decode-resumes deflate inflate json z m x p q s d) in
        drain_more (suc j) (suc i) m (p ++ q) v (omega arith) (sym r ∙ f')
        ∙ ap (λ (t : Drained V). some (t.0 ++ v.0, v.1, v.2)) b
  ]

  pub drain_unique :
      (k j : ℕ) (m : Msg V) (p : List ℕ) (u v : Drained V)
      → drain deflate inflate json z k m p ≡ some u
      → drain deflate inflate json z j m p ≡ some v
      → u ≡ v
  drain_unique k j m p u v e f = some_inj u v (
      sym (drain_more k (k + j) m p u (omega arith) e) ∙ drain_more j (k + j) m p v (omega arith) f)

  -- What is left has no whole message in it.
  pub drain_settles :
      (k : ℕ) (m : Msg V) (p : List ℕ) (u : Drained V)
      → drain deflate inflate json z k m p ≡ some u
      → drain deflate inflate json z 1 u.1 u.2 ≡ some ([], u.1, u.2)
  drain_settles zero m p u e = drain_zero m p u e
  drain_settles (suc k) m p u e = elim (decoded-cases m p) [
    | inl (x, s, d) ↦
        let (w, a, b) = and_first_inv x _ u (sym (drain_on k m x p s d) ∙ e) in
        subst (λ (t : Drained V). drain deflate inflate json z 1 t.1 t.2 ≡ some ([], t.1, t.2)) b
          (drain_settles k new_msg s w a)
    | inr (x, s, d) ↦
        let b : ([], x, s) ≡ u = some_inj ([], x, s) u (sym (drain_stop k m x p s d) ∙ e) in
        let c = decode-resumes deflate inflate json z m x p [] s d in
        let c' : decoded x s ≡ (x, s, false) =
          ap (decoded x) (sym (append-nil s)) ∙ c ∙ ap (decoded m) (append-nil p) ∙ d in
        subst (λ (t : Drained V). drain deflate inflate json z 1 t.1 t.2 ≡ some ([], t.1, t.2)) b
          (drain_stop 0 x x s s c')
  ]
