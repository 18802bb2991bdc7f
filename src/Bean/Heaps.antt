-- ===== src/Bean/Heaps.antt =====
-- The writes of bean/bean.go into nil fields: they keep what is set, and leave fewer fields nil.
use own_x_go.Base.{
  ℕ, ◌+◌, ◌<◌, ◌≤◌, ◌≡◌, ◌≢◌, ◌⊎◌, inl, inr, ap, ◌∙◌, subst, sym, ℕ_discrete, String,
  String_discrete, List, [], ◌∷◌, length, some, lookup, arith,
}
use own_x_go.Bean.{Heap, Beans, Field, write, unset_of, unset}

abbrev pub Keeps : Heap → Heap → Type 0
Keeps h k = (o i : ℕ) → h o i ≢ 0 → k o i ≡ h o i

pub Keeps-refl : (h : Heap) → Keeps h h
Keeps-refl h o i n = λ _. h o i

pub Keeps-trans : (h k l : Heap) → Keeps h k → Keeps k l → Keeps h l
Keeps-trans h k l a b o i n = b o i (λ z. n (sym (a o i n) ∙ z)) ∙ a o i n

pub write-Keeps : (o i v : ℕ) (h : Heap) → h o i ≡ 0 → Keeps h (write o i v h)
unfolding write
write-Keeps o i v h z p j n = elim (ℕ_discrete p o) [
  | yes e ↦ elim (ℕ_discrete j i) [
    | yes f ↦ absurd (n (ap (λ q. h q j) e ∙ ap (h o) f ∙ z))
    | no f ↦ ground (arith, f)
  ]
  | no e ↦ ground (arith, e)
]

pub write_self : (o i v : ℕ) (h : Heap) → write o i v h o i ≡ v
unfolding write
write_self o i v h = ground arith

-- One of the beans is the object.
abbrev pub Listed : ℕ → Beans → Type 0
Listed o [] = ⊥
Listed o ((_, b) ∷ m) = (o ≡ b) ⊎ Listed o m

pub lookup-Listed :
    (n : String) (b : ℕ) (m : Beans) → lookup String_discrete n m ≡ some b → Listed b m
unfolding lookup
lookup-Listed n b [] e = cc
lookup-Listed n b ((k, c) ∷ m) e = elim (String_discrete n k) [
  | yes p ↦ inl (ground (arith, e, p))
  | no p ↦ inr (lookup-Listed n b m (ground (arith, e, p)))
]

module _ (h k : Heap) (keeps : Keeps h k) where
  unset_of_mono : (o i : ℕ) (ds : List Field) → unset_of o i ds k ≤ unset_of o i ds h
  unfolding unset_of
  unset_of_mono o i [] = omega arith
  unset_of_mono o i (d ∷ ds) = ground (arith, unset_of_mono o (i + 1) ds, keeps o i)

  unset_of_drops :
      (o i j : ℕ) (ds : List Field)
      → h o j ≡ 0
      → k o j ≢ 0
      → i ≤ j
      → j < i + length ds
      → unset_of o i ds k < unset_of o i ds h
  unfolding unset_of
  unset_of_drops o i j [] z s a b = absurd (omega (arith, a, b))
  unset_of_drops o i j (d ∷ ds) z s a b = elim (ℕ_discrete i j) [
    | yes e ↦
        let rest = unset_of_mono o (i + 1) ds in
        let before = ap (h o) e ∙ z in
        let after = subst (λ q. k o q ≢ 0) (sym e) s in ground (arith, rest, before, after)
    | no e ↦ ground (
      arith,
      unset_of_drops o (i + 1) j ds z s (omega (arith, a, e)) (omega (arith, b)),
      keeps o i,
    )
  ]

  module _ (fields_of : ℕ → List Field) where
    pub unset_mono : (m : Beans) → unset fields_of m k ≤ unset fields_of m h
    unfolding unset
    unset_mono [] = omega arith
    unset_mono ((n, b) ∷ m) =
        let here = unset_of_mono b 0 (fields_of b) in
        let rest = unset_mono m in omega (arith, here, rest)

    pub unset_drops :
        (o j : ℕ) (m : Beans)
        → Listed o m
        → h o j ≡ 0
        → k o j ≢ 0
        → j < length (fields_of o)
        → unset fields_of m k < unset fields_of m h
    unfolding unset
    unset_drops o j [] e z s l = absurd e
    unset_drops o j ((n, b) ∷ m) (inl e) z s l =
        let rest = unset_mono m in
        let here : unset_of b 0 (fields_of b) k < unset_of b 0 (fields_of b) h =
          subst (λ q. unset_of q 0 (fields_of q) k < unset_of q 0 (fields_of q) h) e
            (unset_of_drops o 0 j (fields_of o) z s (omega arith) (omega (arith, l))) in
        omega (arith, here, rest)
    unset_drops o j ((n, b) ∷ m) (inr e) z s l =
        let here = unset_of_mono b 0 (fields_of b) in
        let rest = unset_drops o j m e z s l in omega (arith, here, rest)
