-- ===== src/Basic/OrderedMap/Order.antt =====
-- The ordered map keeps its keys in the order of insertion.
use own_x_go.Base.{
  suc, ◌≡◌, ◌≢◌, refl, ap, ◌∙◌, sym, if◌then◌else◌, List, [], ◌∷◌, ◌++◌, map, append_assoc, Option,
  none, some, true, length, replicate, lookup, insert, delete, erase, keys, All, arith, ite,
  ite_each, if_pos, if_neg, subst, if_each, is_some, ltb, length-append, set-append, length-snoc,
  lookup-insert, lookup-delete,
}
use own_x_go.Basic.OrderedMap.{OrderedMap, put, get, remove, fill, values}

module _ {K V : Type 0} where
  -- No key stands twice.
  abbrev pub Unique : List (K × V) → Type 0
  Unique [] = Unit {0}
  Unique ((k, v) ∷ m) = All (λ (e : K × V). k ≢ e.0) m × Unique m

  -- The list of keys is the domain of the store, each key once, in the order in which the entries
  -- came.
  pub record IsOrdered (m : OrderedMap K V) : Type 0 where
    pub order : m.order ≡ keys m.store
    pub unique : Unique m.store

module _ {K V : Type 0} (dec : Discrete K) where
  keys-insert :
      (k : K) (v : V) (m : List (K × V))
      → keys (insert dec k v m) ≡ (if is_some (lookup dec k m) then keys m else keys m ++ (k ∷ []))
  unfolding insert lookup
  keys-insert k v [] = refl
  keys-insert k v ((j, w) ∷ m) = ground (arith, keys-insert k v m)

  All-insert :
      (j k : K) (v : V) (m : List (K × V))
      → j ≢ k
      → All (λ (e : K × V). j ≢ e.0) m
      → All (λ (e : K × V). j ≢ e.0) (insert dec k v m)
  unfolding insert
  All-insert j k v [] h a = (h, tt)
  All-insert j k v ((i, w) ∷ m) h a =
      ite_each (All (λ (e : K × V). j ≢ e.0)) (dec k i) (λ p. (h, a.1))
        (λ p. (a.0, All-insert j k v m h a.1))

  pub insert-Unique : (k : K) (v : V) (m : List (K × V)) → Unique m → Unique (insert dec k v m)
  unfolding insert
  insert-Unique k v [] u = (tt, tt)
  insert-Unique k v ((i, w) ∷ m) u =
      ite_each Unique (dec k i)
        (λ p. (subst (λ j. All (λ (e : K × V). j ≢ e.0) m) (sym p) u.0, u.1))
        (λ p. (All-insert i k v m (λ e. p (sym e)) u.0, insert-Unique k v m u.1))

  pub delete_absent :
      (k : K) (m : List (K × V)) → All (λ (e : K × V). k ≢ e.0) m → delete dec k m ≡ m
  unfolding delete
  delete_absent k [] a = refl
  delete_absent k ((i, w) ∷ m) a =
      rw (if_neg (dec k i) a.0) (ap (◌∷◌ (i, w)) (delete_absent k m a.1))

  pub keys-delete :
      (k : K) (m : List (K × V)) → Unique m → keys (delete dec k m) ≡ erase dec k (keys m)
  unfolding delete erase
  keys-delete k [] u = refl
  keys-delete k ((i, w) ∷ m) u = elim (dec k i) [
    | yes p ↦
        rw (if_pos (dec k i) p, if_pos (dec k i) p)
          (ap keys (delete_absent k m (subst (λ j. All (λ (e : K × V). j ≢ e.0) m) (sym p) u.0)))
    | no p ↦ rw (if_neg (dec k i) p, if_neg (dec k i) p) (ap (◌∷◌ i) (keys-delete k m u.1))
  ]

  All-delete :
      (j k : K) (m : List (K × V))
      → All (λ (e : K × V). j ≢ e.0) m
      → All (λ (e : K × V). j ≢ e.0) (delete dec k m)
  unfolding delete
  All-delete j k [] a = tt
  All-delete j k ((i, w) ∷ m) a =
      ite_each (All (λ (e : K × V). j ≢ e.0)) (dec k i) (λ p. All-delete j k m a.1)
        (λ p. (a.0, All-delete j k m a.1))

  pub delete-Unique : (k : K) (m : List (K × V)) → Unique m → Unique (delete dec k m)
  unfolding delete
  delete-Unique k [] u = tt
  delete-Unique k ((i, w) ∷ m) u =
      ite_each Unique (dec k i) (λ p. delete-Unique k m u.1)
        (λ p. (All-delete i k m u.0, delete-Unique k m u.1))

  -- After a put the list of keys is still the domain of the store, each key once and in order.
  pub put-IsOrdered : (k : K) (v : V) (m : OrderedMap K V) → IsOrdered m → IsOrdered (put dec k v m)
  unfolding put
  put-IsOrdered k v m h =
      let s = insert dec k v m.store in
      let e = keys-insert k v m.store in
      let u = insert-Unique k v m.store h.unique in
      if_each IsOrdered (is_some (lookup dec k m.store))
        (λ old. record { order = ground (arith, e, h.order); unique = u })
        (λ new. record { order = ground (arith, e, h.order); unique = u })

  -- After a removal, too, of a key that is there or not.
  pub remove-IsOrdered : (k : K) (m : OrderedMap K V) → IsOrdered m → IsOrdered (remove dec k m)
  unfolding remove
  remove-IsOrdered k m h =
      if_each IsOrdered (is_some (lookup dec k m.store))
        (λ old. record {
          order = ap (erase dec k) h.order ∙ sym (keys-delete k m.store h.unique);
          unique = delete-Unique k m.store h.unique;
        })
        (λ new. h)

  fill-lookup :
      (s : List (K × V)) (ks : List K) (before : List (Option V))
      → fill dec s (length before) ks (before ++ replicate (length ks) none)
        ≡ some (before ++ map (λ k. lookup dec k s) ks)
  unfolding fill
  fill-lookup s [] before = refl
  fill-lookup s (k ∷ ks) before =
      let v = lookup dec k s in
      let rest = replicate (length ks) none in
      let room : ltb (length before) (length (before ++ (none ∷ rest))) ≡ true =
        ground (arith, length-append before (none ∷ rest)) in
      rw (room, set-append before none v rest)
        (simp (append_assoc, length-snoc) at (fill-lookup s ks (before ++ (v ∷ []))))

  lookup_skip :
      (k : K) (v : V) (m s : List (K × V))
      → All (λ (e : K × V). k ≢ e.0) s
      → map (λ j. lookup dec j ((k, v) ∷ m)) (keys s) ≡ map (λ j. lookup dec j m) (keys s)
  unfolding lookup
  lookup_skip k v m [] a = refl
  lookup_skip k v m ((j, w) ∷ s) a =
      rw (if_neg (dec j k) (λ e. a.0 (sym e))) (ap (◌∷◌ (lookup dec j m)) (lookup_skip k v m s a.1))

  lookup-keys :
      (s : List (K × V))
      → Unique s
      → map (λ k. lookup dec k s) (keys s) ≡ map (λ (e : K × V). some e.1) s
  unfolding lookup
  lookup-keys [] u = refl
  lookup-keys ((k, v) ∷ s) u =
      rw (if_pos (dec k k) refl) (ap (◌∷◌ (some v)) (lookup_skip k v s s u.0 ∙ lookup-keys s u.1))

  length-keys : (s : List (K × V)) → length (keys s) ≡ length s
  length-keys [] = refl
  length-keys (e ∷ s) = ap suc (length-keys s)

  -- Where the list of keys is the domain of the store, in order, `Values` never runs past its slice,
  -- and gives the values in the order in which their keys came.
  pub values-IsOrdered :
      (m : OrderedMap K V)
      → IsOrdered m
      → values dec m ≡ some (map (λ (e : K × V). some e.1) m.store)
  unfolding values
  values-IsOrdered m h = rw h.order (
      subst
        (λ n.
          fill dec m.store 0 (keys m.store) (replicate n none)
          ≡ some (map (λ (e : K × V). some e.1) m.store))
        (length-keys m.store)
        (fill-lookup m.store (keys m.store) [] ∙ ap some (lookup-keys m.store h.unique)))

  -- A read after a write or a removal: the key that was written or removed, and every other key.
  pub get_after :
      (k j : K) (v : V) (m : OrderedMap K V)
      → (get dec j (put dec k v m) ≡ ite (dec j k) (some v) (get dec j m))
        × (get dec j (remove dec k m) ≡ ite (dec j k) none (get dec j m))
  unfolding get put remove
  get_after k j v m = (
    ground (arith, lookup-insert dec k j v m.store),
    ground (arith, lookup-delete dec k j m.store),
  )
