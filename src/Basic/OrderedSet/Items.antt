-- ===== src/Basic/OrderedSet/Items.antt =====
-- The items of an ordered set, in the order of insertion, under `Add`, `Values` and `Remove`.
use own_x_go.Base.{
  ℕ, ◌≡◌, refl, ap, ◌∙◌, sym, if◌then◌else◌, List, [], ◌∷◌, ◌++◌, map, none, some, Bool, true,
  false, lookup, arith, Bool-cases, Option-cases, lookup-delete, has, is_some, inl, ℕ_discrete, inr,
}
use own_x_go.Basic.OrderedSet.{OrderedSet, put_item, remove_item, add, remove, values, has_item}
use own_x_go.Basic.OrderedSet.Order.{
  IsIndexed, swap, put-store, insert_fresh, add-IsIndexed, put_item-IsIndexed,
}
use own_x_go.Basic.OrderedMap.Order.{values-IsOrdered}

module _ {T : Type 0} (dec : Discrete T) where
  -- The items in the order of insertion.
  abbrev pub items : OrderedSet T → List T
  items s = map (λ (e : ℕ × T). e.1) s.store.store

  -- Each new item once, at the end.
  unfoldable pub add_new : List T → List T → List T
  add_new [] l = l
  add_new (x ∷ xs) l = add_new xs (if has dec x l then l else l ++ (x ∷ []))

  has-swap :
      (x : T) (m : List (ℕ × T))
      → is_some (lookup dec x (map swap m)) ≡ has dec x (map (λ (e : ℕ × T). e.1) m)
  unfolding lookup has
  has-swap x [] = refl
  has-swap x ((i, y) ∷ m) = ground (arith, has-swap x m)

  pub has-items : (x : T) (s : OrderedSet T) → IsIndexed s → has_item dec x s ≡ has dec x (items s)
  has-items x s v =
      ap (λ (l : List (T × ℕ)). is_some (lookup dec x l)) v.inverse ∙ has-swap x s.store.store

  items-snoc :
      (m : List (ℕ × T)) (e : ℕ × T)
      → map (λ (d : ℕ × T). d.1) (m ++ (e ∷ [])) ≡ map (λ (d : ℕ × T). d.1) m ++ (e.1 ∷ [])
  items-snoc [] e = refl
  items-snoc (d ∷ m) e = ap (◌∷◌ d.1) (items-snoc m e)

  put_item-items :
      (x : T) (s : OrderedSet T) → IsIndexed s → items (put_item dec x s) ≡ items s ++ (x ∷ [])
  unfolding put_item
  put_item-items x s v =
      ap (map (λ (d : ℕ × T). d.1)) (
        put-store dec s.current_index x s.store
        ∙ insert_fresh dec s.current_index x s.store.store v.used)
      ∙ items-snoc s.store.store (s.current_index, x)

  add-has :
      (x : T) (xs : List T) (s : OrderedSet T)
      → has_item dec x s ≡ true
      → add dec (x ∷ xs) s ≡ add dec xs s
  unfolding add
  add-has x xs s e = ap (λ (b : Bool). add dec xs (if b then s else put_item dec x s)) e

  add-lacks :
      (x : T) (xs : List T) (s : OrderedSet T)
      → has_item dec x s ≡ false
      → add dec (x ∷ xs) s ≡ add dec xs (put_item dec x s)
  unfolding add
  add-lacks x xs s e = ap (λ (b : Bool). add dec xs (if b then s else put_item dec x s)) e

  add_new-has : (x : T) (xs l : List T) → has dec x l ≡ true → add_new (x ∷ xs) l ≡ add_new xs l
  unfolding add_new
  add_new-has x xs l e = ap (λ (b : Bool). add_new xs (if b then l else l ++ (x ∷ []))) e

  add_new-lacks :
      (x : T) (xs l : List T)
      → has dec x l ≡ false
      → add_new (x ∷ xs) l ≡ add_new xs (l ++ (x ∷ []))
  unfolding add_new
  add_new-lacks x xs l e = ap (λ (b : Bool). add_new xs (if b then l else l ++ (x ∷ []))) e

  pub items-add :
      (xs : List T) (s : OrderedSet T) → IsIndexed s → items (add dec xs s) ≡ add_new xs (items s)
  unfolding add add_new
  items-add [] s v = refl
  items-add (x ∷ xs) s v = elim (Bool-cases (has_item dec x s)) [
    | inl old ↦
        ap items (add-has x xs s old)
        ∙ items-add xs s v
        ∙ sym (add_new-has x xs (items s) (sym (has-items x s v) ∙ old))
    | inr new ↦
        ap items (add-lacks x xs s new)
        ∙ items-add xs (put_item dec x s) (put_item-IsIndexed dec x s new v)
        ∙ ap (add_new xs) (put_item-items x s v)
        ∙ sym (add_new-lacks x xs (items s) (sym (has-items x s v) ∙ new))
  ]

  pub map-some :
      (m : List (ℕ × T)) → map (λ (e : ℕ × T). some e.1) m ≡ map some (map (λ (e : ℕ × T). e.1) m)
  map-some [] = refl
  map-some (e ∷ m) = ap (◌∷◌ (some e.1)) (map-some m)

  -- On a set whose index and store agree `Add` appends the items that the set lacks, each once and in
  -- the order of the call, and `Values` gives them in that order.
  pub values-add :
      (xs : List T) (s : OrderedSet T)
      → IsIndexed s
      → values (add dec xs s) ≡ some (map some (add_new xs (items s)))
  unfolding values
  values-add xs s v =
      values-IsOrdered ℕ_discrete (add dec xs s).store (add-IsIndexed dec xs s v).ordered
      ∙ ap some (map-some (add dec xs s).store.store ∙ ap (map some) (items-add xs s v))

  lookup-remove_item :
      (x y : T) (i : ℕ) (s : OrderedSet T)
      → lookup dec y s.index ≡ none
      → lookup dec y (remove_item dec i x s).index ≡ none
  unfolding remove_item
  lookup-remove_item x y i s e = ground (arith, lookup-delete dec x y s.index)

  -- `Remove` gives up at the first item that the set lacks: what comes after it in the call stays,
  -- where the comment of the method promises that such an item is passed over.
  pub remove_stops :
      (xs ys : List T) (y : T) (s : OrderedSet T)
      → lookup dec y s.index ≡ none
      → remove dec (xs ++ (y ∷ ys)) s ≡ remove dec xs s
  unfolding remove
  remove_stops [] ys y s e = rw (e, remove)
  remove_stops (x ∷ xs) ys y s e = elim (Option-cases (lookup dec x s.index)) [
    | inl f ↦ rw (f, remove)
    | inr (i, f) ↦
        rw (f, remove) (remove_stops xs ys y (remove_item dec i x s) (lookup-remove_item x y i s e))
  ]
