-- ===== src/Bean/Fields.antt =====
-- The loop of bean/bean.go over the fields of an object: what it leaves of the heap, and when it
-- panics.
use own_x_go.Base.{
  ℕ, ◌+◌, ◌<◌, ◌≤◌, ◌≡◌, refl, ◌≢◌, ◌==◌, inl, inr, ap, ◌∙◌, sym, All, String, String_discrete,
  List, [], ◌∷◌, length, lookup, arith, Bool, true, false, not, if_each, if_both, Option-cases, ite,
  subst,
}
use own_x_go.Bean.{
  Heap, Beans, Field, Kind, interface, pointer, structure, other, write, unset, Result, panics,
  stuck, finished, get_bean, dependency, and_then, inject, fill, set_field, set_fields, by_kind,
  is_interface, without_star,
}
use own_x_go.Bean.Heaps.{
  Keeps, Keeps-refl, Keeps-trans, write-Keeps, write_self, Listed, lookup-Listed, unset_mono,
  unset_drops,
}

-- A marked field is not nil, unless it is of another kind.
abbrev pub IsWired : Heap → ℕ → ℕ → Field → Type 0
IsWired h o i d = d.tagged ≡ true → d.kind ≢ other → h o i ≢ 0

-- the fields of an object, from the field `i` on
abbrev pub AreWired : Heap → ℕ → ℕ → List Field → Type 0
AreWired h o i [] = Unit {0}
AreWired h o i (d ∷ ds) = IsWired h o i d × AreWired h o (i + 1) ds

pub AreWired-Keeps :
    (h k : Heap) (o i : ℕ) (ds : List Field) → Keeps h k → AreWired h o i ds → AreWired k o i ds
AreWired-Keeps h k o i [] keeps w = tt
AreWired-Keeps h k o i (d ∷ ds) keeps (a, w) =
    ((λ t n z. a t n (sym (keeps o i (a t n)) ∙ z)), AreWired-Keeps h k o (i + 1) ds keeps w)

-- A run that starts with the heap `h` keeps what is set there and ends in `P`, or panics, and then `A`
-- holds; it is never out of fuel.
abbrev pub Ends : Type 0 → Heap → (Heap → Type 0) → Result → Type 0
Ends A h P panics = A
Ends A h P stuck = ⊥
Ends A h P (finished k) = Keeps h k × P k

module _ (A : Type 0) where
  pub Ends-weaken :
      (P Q : Heap → Type 0) (h k : Heap)
      → Keeps h k
      → ((l : Heap) → Keeps k l → P l → Q l)
      → (r : Result) → Ends A k P r
      → Ends A h Q r
  Ends-weaken P Q h k keeps w panics e = e
  Ends-weaken P Q h k keeps w stuck e = e
  Ends-weaken P Q h k keeps w (finished l) (a, p) = (Keeps-trans h k l keeps a, w l a p)

  pub and_then-Ends :
      (P Q : Heap → Type 0) (h : Heap) (r : Result) (g : Heap → Result)
      → Ends A h P r
      → ((k : Heap) → Keeps h k → P k → Ends A k Q (g k))
      → Ends A h Q (and_then r g)
  unfolding and_then
  and_then-Ends P Q h panics g e f = e
  and_then-Ends P Q h stuck g e f = e
  and_then-Ends P Q h (finished k) g (keeps, p) f =
      Ends-weaken Q Q h k keeps (λ l _ q. q) (g k) (f k keeps p)

  by_kind-Ends :
      (o i : ℕ) (q : Kind) (tagged : Bool) (h : Heap) (r : Result)
      → (tagged ≡ true → q ≡ structure → A)
      → (q ≢ other → Ends A h (λ k. tagged ≡ true → k o i ≢ 0) r)
      → Ends A h (λ k. tagged ≡ true → q ≢ other → k o i ≢ 0) (by_kind q tagged r h)
  unfolding by_kind
  by_kind-Ends o i interface t h r bad e =
      Ends-weaken (λ k. t ≡ true → k o i ≢ 0) (λ k. t ≡ true → interface ≢ other → k o i ≢ 0) h h
        (Keeps-refl h) (λ k _ f a _. f a) r (e (λ a. cc))
  by_kind-Ends o i pointer t h r bad e =
      Ends-weaken (λ k. t ≡ true → k o i ≢ 0) (λ k. t ≡ true → pointer ≢ other → k o i ≢ 0) h h
        (Keeps-refl h) (λ k _ f a _. f a) r (e (λ a. cc))
  by_kind-Ends o i structure true h r bad e = bad refl refl
  by_kind-Ends o i structure false h r bad e = (Keeps-refl h, λ a. absurd (cc))
  by_kind-Ends o i other t h r bad e = (Keeps-refl h, λ _ n. absurd (n refl))

differ : {b : Bool} → not b ≡ true → b ≡ true → ⊥
differ p q = ground (arith, p, q)

get_bean-Listed : (m : Beans) (n : String) → get_bean m n ≢ 0 → Listed (get_bean m n) m
unfolding get_bean
get_bean-Listed m n s = elim (Option-cases (lookup String_discrete n m)) [
  | inl e ↦ absurd (s (ground (arith, e)))
  | inr (b, e) ↦ subst (λ q. Listed q m) (ground (arith, e)) (lookup-Listed n b m e)
]

module _ (replace : String → String → String → String) (fits : Field → ℕ → Bool) (m : Beans) where
  abbrev Found : ℕ → Type 0
  Found b = b ≢ 0 → Listed b m

  dependency-Found : (d : Field) → Found (dependency replace fits m d)
  unfolding dependency
  dependency-Found d =
      let second =
        if_both Found (get_bean m (ite (String_discrete d.bean "") d.name d.bean) == 0)
          (get_bean-Listed m (without_star d.type_string))
          (get_bean-Listed m (ite (String_discrete d.bean "") d.name d.bean)) in
      if_both Found _ (get_bean-Listed m (replace d.type_string d.type_name d.name)) second

  -- A field that is marked, and not of another kind, is no structure, and has a bean that it can take.
  abbrev pub IsSound : Field → Type 0
  IsSound d =
      d.tagged ≡ true
      → d.kind ≢ other
      → (d.kind ≢ structure)
        × (d.can_set ≡ true)
        × (dependency replace fits m d ≢ 0)
        × (fits d (dependency replace fits m d) ≡ true)

  module _ (A : Type 0) (fields_of : ℕ → List Field) (next : ℕ → Heap → Result) (fuel : ℕ) where
    -- `next` handles a bean where fewer fields than `fuel` are nil.
    abbrev Continues : Type 0
    Continues =
        (b : ℕ) (h : Heap)
        → Listed b m
        → unset fields_of m h < fuel
        → Ends A h (λ k. AreWired k b 0 (fields_of b)) (next b h)

    module _ (continues : Continues) (o : ℕ) (listed : Listed o m) where
      inject-Ends :
          (i b : ℕ) (d : Field) (h : Heap)
          → i < length (fields_of o)
          → unset fields_of m h ≤ fuel
          → h o i ≡ 0
          → Found b
          → (b ≡ 0 → A)
          → (fits d b ≡ false → A)
          → Ends A h (λ k. k o i ≢ 0) (inject replace fits m next o i d b h)
      unfolding inject
      inject-Ends i b d h l u z found no_bean unfit =
          if_each (Ends A h (λ k. k o i ≢ 0)) (b == 0) (λ e. no_bean (ground (arith, e)))
            (λ e.
              let n : b ≢ 0 = ground (arith, e) in
              let keeps = write-Keeps o i b h z in
              let set : write o i b h o i ≢ 0 = λ q. n (sym (write_self o i b h) ∙ q) in
              let fewer = unset_drops h (write o i b h) keeps fields_of o i m listed z set l in
              if_each (Ends A h (λ k. k o i ≢ 0)) (not (fits d b)) (λ e. unfit (ground (arith, e)))
                (λ _.
                  if_each (Ends A h (λ k. k o i ≢ 0)) (is_interface d.kind) (λ _. (keeps, set))
                    (λ _.
                      Ends-weaken A (λ k. AreWired k b 0 (fields_of b)) (λ k. k o i ≢ 0) h
                        (write o i b h) keeps (λ l a _ q. set (sym (a o i set) ∙ q))
                        (next b (write o i b h))
                        (continues b (write o i b h) (found n) (omega (arith, fewer, u))))))

      fill-Ends :
          (i : ℕ) (d : Field) (h : Heap)
          → i < length (fields_of o)
          → unset fields_of m h ≤ fuel
          → (¬ IsSound d → A)
          → d.kind ≢ other
          → Ends A h (λ k. d.tagged ≡ true → k o i ≢ 0) (fill replace fits m next o i d h)
      unfolding fill
      fill-Ends i d h l u bad n =
          let P : Heap → Type 0 = λ k. d.tagged ≡ true → k o i ≢ 0 in
          if_each (Ends A h P) (not d.tagged)
            (λ t. (Keeps-refl h, λ e. absurd (ground (arith, t, e))))
            (λ t.
              let marked : d.tagged ≡ true = ground (arith, t) in
              if_each (Ends A h P) (not (h o i == 0))
                (λ s. (Keeps-refl h, λ _ z. ground (arith, s, z)))
                (λ s.
                  if_each (Ends A h P) (not d.can_set) (λ c. bad (λ v. differ c (v marked n).1))
                    (λ _.
                      Ends-weaken A (λ k. k o i ≢ 0) P h h (Keeps-refl h) (λ k _ q _. q)
                        (inject replace fits m next o i d (dependency replace fits m d) h)
                        (inject-Ends i (dependency replace fits m d) d h l u (ground (arith, s))
                          (dependency-Found d) (λ e. bad (λ v. (v marked n).2 e))
                          (λ e. bad (λ v. differ (ap not e) (v marked n).3))))))

      set_field-Ends :
          (i : ℕ) (d : Field) (h : Heap)
          → i < length (fields_of o)
          → unset fields_of m h ≤ fuel
          → (¬ IsSound d → A)
          → Ends A h (λ k. IsWired k o i d) (set_field replace fits m next o i d h)
      unfolding set_field
      set_field-Ends i d h l u bad =
          by_kind-Ends A o i d.kind d.tagged h (fill replace fits m next o i d h)
            (λ t e. bad (λ v. (v t (λ q. cc)).0 e)) (fill-Ends i d h l u bad)

      pub set_fields-Ends :
          (i : ℕ) (ds : List Field) (h : Heap)
          → i + length ds ≡ length (fields_of o)
          → unset fields_of m h ≤ fuel
          → All (λ d. ¬ IsSound d → A) ds
          → Ends A h (λ k. AreWired k o i ds) (set_fields replace fits m next o i ds h)
      unfolding set_fields
      set_fields-Ends i [] h l u bad = (Keeps-refl h, tt)
      set_fields-Ends i (d ∷ ds) h l u (bad, bads) =
          and_then-Ends A (λ k. IsWired k o i d) (λ k. AreWired k o i (d ∷ ds)) h
            (set_field replace fits m next o i d h) (set_fields replace fits m next o (i + 1) ds)
            (set_field-Ends i d h (omega (arith, l)) u bad)
            (λ k keeps w.
              let fewer = unset_mono h k keeps fields_of m in
              Ends-weaken A (λ q. AreWired q o (i + 1) ds) (λ q. AreWired q o i (d ∷ ds)) k k
                (Keeps-refl k) (λ q a v. ((λ t n z. w t n (sym (a o i (w t n)) ∙ z)), v))
                (set_fields replace fits m next o (i + 1) ds k)
                (set_fields-Ends (i + 1) ds k (omega (arith, l)) (omega (arith, fewer, u)) bads))
