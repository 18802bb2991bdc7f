-- ===== src/Bean/Wiring.antt =====
-- The injection of bean/bean.go comes to an end, and leaves no marked field nil.
use own_x_go.Base.{
  ℕ, zero, suc, ◌<◌, ◌≡◌, refl, ◌≢◌, ◌==◌, inl, inr, All, String, List, [], ◌∷◌, arith, Bool,
  if_each,
}
use own_x_go.Bean.{
  Heap, Beans, Field, unset, Result, panics, stuck, finished, find_and_set, ioc_loop, ioc,
}
use own_x_go.Bean.Heaps.{Keeps, Keeps-refl, Listed, unset_mono}
use own_x_go.Bean.Fields.{
  AreWired, AreWired-Keeps, Ends, Ends-weaken, and_then-Ends, IsSound, set_fields-Ends,
}

-- A run that does not panic.
Ends-finished :
    (h : Heap) (P : Heap → Type 0) (r : Result)
    → Ends ⊥ h P r
    → (k : Heap) × (r ≡ finished k) × Keeps h k × P k
Ends-finished h P panics e = absurd e
Ends-finished h P stuck e = absurd e
Ends-finished h P (finished k) (keeps, p) = (k, refl, keeps, p)

module _ (fields_of : ℕ → List Field) where
  -- the marked fields of each of these beans
  abbrev pub Complete : Beans → Heap → Type 0
  Complete [] h = Unit {0}
  Complete ((_, b) ∷ rest) h = AreWired h b 0 (fields_of b) × Complete rest h

module _ (replace : String → String → String → String) (fits : Field → ℕ → Bool) (m : Beans) where
  module _ (fields_of : ℕ → List Field) where
    -- `A` holds where a bean is nil or has a field that is not sound.
    abbrev Faults : Type 0 → Type 0
    Faults A =
        (o : ℕ) → Listed o m → (o ≡ 0 → A) × All (λ d. ¬ IsSound replace fits m d → A) (fields_of o)

    module _ (A : Type 0) (bad : Faults A) where
      -- Fuel above the number of nil fields of beans is enough: a call inside a call has set one.
      find_and_set-Ends :
          (fuel o : ℕ) (h : Heap)
          → Listed o m
          → unset fields_of m h < fuel
          → Ends A h
              (λ k. AreWired k o 0 (fields_of o))
              (find_and_set replace fits m fields_of fuel o h)
      unfolding find_and_set
      find_and_set-Ends zero o h l u = absurd (omega (arith, u))
      find_and_set-Ends (suc fuel) o h l u =
          if_each (Ends A h (λ k. AreWired k o 0 (fields_of o))) (o == 0)
            (λ e. (bad o l).0 (ground (arith, e)))
            (λ _.
              set_fields-Ends replace fits m A fields_of
                (find_and_set replace fits m fields_of fuel) fuel
                (λ b k. find_and_set-Ends fuel b k) o l 0 (fields_of o) h (omega arith)
                (omega (arith, u)) (bad o l).1)

      ioc_loop-Ends :
          (fuel : ℕ) (rest : Beans) (h : Heap)
          → ((o : ℕ) → Listed o rest → Listed o m)
          → unset fields_of m h < fuel
          → Ends A h (Complete fields_of rest) (ioc_loop replace fits m fields_of fuel rest h)
      unfolding ioc_loop
      ioc_loop-Ends fuel [] h s u = (Keeps-refl h, tt)
      ioc_loop-Ends fuel ((name, b) ∷ rest) h s u =
          and_then-Ends A (λ k. AreWired k b 0 (fields_of b))
            (Complete fields_of ((name, b) ∷ rest)) h
            (find_and_set replace fits m fields_of fuel b h)
            (ioc_loop replace fits m fields_of fuel rest)
            (find_and_set-Ends fuel b h (s b (inl refl)) u)
            (λ k keeps w.
              let fewer = unset_mono h k keeps fields_of m in
              Ends-weaken A (Complete fields_of rest) (Complete fields_of ((name, b) ∷ rest)) k k
                (Keeps-refl k) (λ q a c. (AreWired-Keeps k q b 0 (fields_of b) a w, c))
                (ioc_loop replace fits m fields_of fuel rest k)
                (ioc_loop-Ends fuel rest k (λ o l. s o (inr l)) (omega (arith, fewer, u))))

      ioc_run : (h : Heap) → Ends A h (Complete fields_of m) (ioc replace fits m fields_of h)
      unfolding ioc
      ioc_run h = ioc_loop-Ends (suc (unset fields_of m h)) m h (λ o l. l) (omega arith)

    always : (d : List Field) → All (λ d. ¬ IsSound replace fits m d → Unit {0}) d
    always [] = tt
    always (d ∷ ds) = ((λ _. tt), always ds)

    -- Ioc comes to an end: it panics, or afterwards no interface or pointer that is marked in a bean
    -- is nil, and the fields that were set before have the same values.
    pub ioc-Ends :
        (h : Heap) → Ends (Unit {0}) h (Complete fields_of m) (ioc replace fits m fields_of h)
    ioc-Ends h = ioc_run (Unit {0}) (λ o _. ((λ _. tt), always (fields_of o))) h

    IsSound-All :
        (ds : List Field)
        → All (IsSound replace fits m) ds
        → All (λ d. ¬ IsSound replace fits m d → ⊥) ds
    IsSound-All [] v = tt
    IsSound-All (d ∷ ds) (a, v) = ((λ n. n a), IsSound-All ds v)

    -- Where no bean is nil, no structure is marked in a bean, and each interface and pointer that is
    -- marked can be set, to a bean that fits it, Ioc does not panic: it ends with none of them nil,
    -- and keeps the fields that were set before.
    pub ioc-Complete :
        ((o : ℕ) → Listed o m → (o ≢ 0) × All (IsSound replace fits m) (fields_of o))
        → (h : Heap)
        → (k : Heap) × (ioc replace fits m fields_of h ≡ finished k)
          × Keeps h k
          × Complete fields_of m k
    ioc-Complete sound h =
        Ends-finished h (Complete fields_of m) (ioc replace fits m fields_of h)
          (ioc_run ⊥ (λ o l. ((sound o l).0, IsSound-All (fields_of o) (sound o l).1)) h)
