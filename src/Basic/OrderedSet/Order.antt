-- ===== src/Basic/OrderedSet/Order.antt =====
-- The ordered set against the list of its items.
use own_x_go.Base.{
  ℕ, ◌+◌, ◌<◌, ◌≡◌, ◌≢◌, refl, ap, ◌∙◌, sym, if◌then◌else◌, List, [], ◌∷◌, ◌++◌, map, none, some,
  false, lookup, insert, delete, All, arith, ℕ_discrete, subst, Option-cases, ite_each, if_each,
  inl, inr,
}
use own_x_go.Basic.OrderedMap.{OrderedMap}
use own_x_go.Basic.OrderedMap as Map
use own_x_go.Basic.OrderedMap.Order.{IsOrdered, Unique}
use own_x_go.Basic.OrderedSet.{OrderedSet, put_item, remove_item, add, remove, has_item}
use own_x_go.Basic.OrderedMap.Order.{
  put-IsOrdered, delete_absent, insert-Unique, remove-IsOrdered, delete-Unique,
}

module _ {T : Type 0} where
  abbrev pub swap : ℕ × T → T × ℕ
  swap (i, x) = (x, i)

  -- The store is in order, under numbers that have been given out, and `index` is its inverse.
  pub record IsIndexed (s : OrderedSet T) : Type 0 where
    pub ordered : IsOrdered s.store
    pub used : All (λ (e : ℕ × T). e.0 < s.current_index) s.store.store
    pub inverse : s.index ≡ map swap s.store.store
    pub distinct : Unique s.index

module _ {T : Type 0} (dec : Discrete T) where
  insert_new :
      (x : T) (i : ℕ) (m : List (T × ℕ))
      → lookup dec x m ≡ none
      → insert dec x i m ≡ m ++ ((x, i) ∷ [])
  unfolding insert lookup
  insert_new x i [] e = refl
  insert_new x i ((y, j) ∷ m) e = ground (arith, insert_new x i m)

  pub insert_fresh :
      (i : ℕ) (x : T) (m : List (ℕ × T))
      → All (λ (e : ℕ × T). e.0 < i) m
      → insert ℕ_discrete i x m ≡ m ++ ((i, x) ∷ [])
  unfolding insert
  insert_fresh i x [] a = refl
  insert_fresh i x ((j, y) ∷ m) a = ground (arith, insert_fresh i x m a.1)

  used_grows :
      (i : ℕ) (x : T) (m : List (ℕ × T))
      → All (λ (e : ℕ × T). e.0 < i) m
      → All (λ (e : ℕ × T). e.0 < i + 1) (m ++ ((i, x) ∷ []))
  used_grows i x [] a = (omega arith, tt)
  used_grows i x (e ∷ m) a = (omega arith, used_grows i x m a.1)

  map-snoc : (m : List (ℕ × T)) (e : ℕ × T) → map swap (m ++ (e ∷ [])) ≡ map swap m ++ (swap e ∷ [])
  map-snoc [] e = refl
  map-snoc (d ∷ m) e = ap (◌∷◌ (swap d)) (map-snoc m e)

  pub put-store :
      (i : ℕ) (x : T) (m : OrderedMap ℕ T)
      → (Map.put ℕ_discrete i x m).store ≡ insert ℕ_discrete i x m.store
  unfolding Map.put
  put-store i x m = ground arith

  pub put_item-IsIndexed :
      (x : T) (s : OrderedSet T)
      → has_item dec x s ≡ false
      → IsIndexed s
      → IsIndexed (put_item dec x s)
  unfolding put_item
  put_item-IsIndexed x s new v =
      let i = s.current_index in
      let e = put-store i x s.store ∙ insert_fresh i x s.store.store v.used in
      record {
        ordered = put-IsOrdered ℕ_discrete i x s.store v.ordered;
        used =
            subst (All (λ (d : ℕ × T). d.0 < i + 1)) (sym e) (used_grows i x s.store.store v.used);
        inverse =
            insert_new x i s.index (ground arith)
            ∙ ap (λ (l : List (T × ℕ)). l ++ ((x, i) ∷ [])) v.inverse
            ∙ sym (map-snoc s.store.store (i, x))
            ∙ ap (map swap) (sym e);
        distinct = insert-Unique dec x i s.index v.distinct;
      }

  lookup_absent :
      (x : T) (j i : ℕ) (m : List (ℕ × T))
      → lookup dec x (map swap m) ≡ some i
      → All (λ (e : ℕ × T). j ≢ e.0) m
      → j ≢ i
  unfolding lookup
  lookup_absent x j i [] e a = cc
  lookup_absent x j i ((k, y) ∷ m) e a = elim (dec x y) [
    | yes p ↦ λ h. a.0 (ground arith)
    | no p ↦ lookup_absent x j i m (ground arith) a.1
  ]

  delete-swap :
      (x : T) (i : ℕ) (m : List (ℕ × T))
      → lookup dec x (map swap m) ≡ some i
      → Unique m
      → Unique (map swap m)
      → delete dec x (map swap m) ≡ map swap (delete ℕ_discrete i m)
  unfolding delete lookup
  delete-swap x i [] e u v = cc
  delete-swap x i ((j, y) ∷ m) e u v = elim (dec x y) [
    | yes p ↦
        let same : i ≡ j = ground arith in
        let left : All (λ (d : T × ℕ). x ≢ d.0) (map swap m) =
          subst (λ z. All (λ (d : T × ℕ). z ≢ d.0) (map swap m)) (sym p) v.0 in
        let right : All (λ (d : ℕ × T). i ≢ d.0) m =
          subst (λ z. All (λ (d : ℕ × T). z ≢ d.0) m) (sym same) u.0 in
        ground (arith, delete_absent dec x (map swap m) left, delete_absent ℕ_discrete i m right)
    | no p ↦
        let later : lookup dec x (map swap m) ≡ some i = ground arith in
        let other = lookup_absent x j i m later u.0 in
        ground (arith, other, delete-swap x i m later u.1 v.1)
  ]

  delete_missing :
      (i : ℕ) (m : List (ℕ × T)) → lookup ℕ_discrete i m ≡ none → delete ℕ_discrete i m ≡ m
  unfolding delete lookup
  delete_missing i [] e = refl
  delete_missing i ((j, y) ∷ m) e = ground (arith, delete_missing i m)

  remove-store :
      (i : ℕ) (m : OrderedMap ℕ T) → (Map.remove ℕ_discrete i m).store ≡ delete ℕ_discrete i m.store
  unfolding Map.remove
  remove-store i m = ground (arith, delete_missing i m.store)

  used_delete :
      (n i : ℕ) (m : List (ℕ × T))
      → All (λ (e : ℕ × T). e.0 < n) m
      → All (λ (e : ℕ × T). e.0 < n) (delete ℕ_discrete i m)
  unfolding delete
  used_delete n i [] a = tt
  used_delete n i ((j, y) ∷ m) a =
      ite_each (All (λ (e : ℕ × T). e.0 < n)) (ℕ_discrete i j) (λ p. used_delete n i m a.1)
        (λ p. (a.0, used_delete n i m a.1))

  pub remove_item-IsIndexed :
      (x : T) (i : ℕ) (s : OrderedSet T)
      → lookup dec x s.index ≡ some i
      → IsIndexed s
      → IsIndexed (remove_item dec i x s)
  unfolding remove_item
  remove_item-IsIndexed x i s e v =
      let m = s.store.store in
      record {
        ordered = remove-IsOrdered ℕ_discrete i s.store v.ordered;
        used =
            subst (All (λ (d : ℕ × T). d.0 < s.current_index)) (sym (remove-store i s.store))
              (used_delete s.current_index i m v.used);
        inverse =
            ap (delete dec x) v.inverse
            ∙ delete-swap x i m (ap (lookup dec x) (sym v.inverse) ∙ e) v.ordered.unique
                (subst Unique v.inverse v.distinct)
            ∙ ap (map swap) (sym (remove-store i s.store));
        distinct = delete-Unique dec x s.index v.distinct;
      }

  -- Adding any items keeps the numbers of the items and the store in step.
  pub add-IsIndexed : (xs : List T) (s : OrderedSet T) → IsIndexed s → IsIndexed (add dec xs s)
  unfolding add
  add-IsIndexed [] s v = v
  add-IsIndexed (x ∷ xs) s v =
      add-IsIndexed xs (if has_item dec x s then s else put_item dec x s)
        (if_each IsIndexed (has_item dec x s) (λ old. v) (λ new. put_item-IsIndexed x s new v))

  -- So does removing any.
  pub remove-IsIndexed :
      (xs : List T) (s : OrderedSet T) → IsIndexed s → IsIndexed (remove dec xs s)
  unfolding remove
  remove-IsIndexed [] s v = v
  remove-IsIndexed (x ∷ xs) s v = elim (Option-cases (lookup dec x s.index)) [
    | inl e ↦ rw (e, remove) v
    | inr (i, e) ↦
        rw (e, remove)
          (remove-IsIndexed xs (remove_item dec i x s) (remove_item-IsIndexed x i s e v))
  ]
