-- ===== src/Basic/OrderedSet/Refine.antt =====
-- The ordered set as a list of items, each once, in the order in which they came.
use own_x_go.Base.{
  ℕ, ◌≡◌, suc, refl, ap, ◌∙◌, sym, if◌then◌else◌, List, [], ◌∷◌, map, some, Option, Bool, true,
  lookup, Option-cases, has, is_some, inl, ℕ_discrete, inr, erase, keys, length, ◌&&◌, ◌==◌,
  answers, answers_agree,
}
use own_x_go.Basic.OrderedSet.{
  OrderedSet, new_ordered_set, remove_item, add, remove, values, contains, size, empty,
}
use own_x_go.Basic.OrderedSet.Order.{
  IsIndexed, swap, add-IsIndexed, remove_item-IsIndexed, remove-IsIndexed,
}
use own_x_go.Basic.OrderedSet.Items.{items, has-items, items-add, map-some, add_new}
use own_x_go.Basic.OrderedMap as Map
use own_x_go.Basic.OrderedMap.Order.{values-IsOrdered, keys-delete}

-- The calls of a set and what they answer; `Values` gives none where it faults.
pub data Call (T : Type 0) : Type 0 where
  call_add : (xs : List T) → Call T
  call_remove : (xs : List T) → Call T
  call_contains : (xs : List T) → Call T
  call_values call_size call_empty : Call T

pub data Answer (T : Type 0) : Type 0 where
  nothing : Answer T
  yes_or_no : (b : Bool) → Answer T
  listed : (vs : Option (List (Option T))) → Answer T
  counted : (n : ℕ) → Answer T

module _ {T : Type 0} (dec : Discrete T) where
  -- A call on the set, and on the list of the items.
  abbrev pub handle : Call T → OrderedSet T → OrderedSet T × Answer T
  handle (call_add xs) s = (add dec xs s, nothing)
  handle (call_remove xs) s = (remove dec xs s, nothing)
  handle (call_contains xs) s = (s, yes_or_no (contains dec xs s))
  handle call_values s = (s, listed (values s))
  handle call_size s = (s, counted (size s))
  handle call_empty s = (s, yes_or_no (empty s))

  -- Up to the first that is not there.
  abbrev pub erase_all : List T → List T → List T
  erase_all [] l = l
  erase_all (x ∷ xs) l = let rest = erase_all xs (erase dec x l) in if has dec x l then rest else l

  abbrev pub has_all : List T → List T → Bool
  has_all [] l = true
  has_all (x ∷ xs) l = has dec x l && has_all xs l

  abbrev pub handle_list : Call T → List T → List T × Answer T
  handle_list (call_add xs) l = (add_new dec xs l, nothing)
  handle_list (call_remove xs) l = (erase_all xs l, nothing)
  handle_list (call_contains xs) l = (l, yes_or_no (has_all xs l))
  handle_list call_values l = (l, listed (some (map some l)))
  handle_list call_size l = (l, counted (length l))
  handle_list call_empty l = (l, yes_or_no (length l == 0))

  keys-swap : (m : List (ℕ × T)) → keys (map swap m) ≡ map (λ (e : ℕ × T). e.1) m
  keys-swap [] = refl
  keys-swap ((i, x) ∷ m) = ap (◌∷◌ x) (keys-swap m)

  items-index : (s : OrderedSet T) → IsIndexed s → items dec s ≡ keys s.index
  items-index s v = sym (keys-swap s.store.store) ∙ ap keys (sym v.inverse)

  items-remove_item :
      (i : ℕ) (x : T) (s : OrderedSet T)
      → lookup dec x s.index ≡ some i
      → IsIndexed s
      → items dec (remove_item dec i x s) ≡ erase dec x (items dec s)
  unfolding remove_item
  items-remove_item i x s e v =
      items-index (remove_item dec i x s) (remove_item-IsIndexed dec x i s e v)
      ∙ keys-delete dec x s.index v.distinct
      ∙ ap (erase dec x) (sym (items-index s v))

  items-remove :
      (xs : List T) (s : OrderedSet T)
      → IsIndexed s
      → items dec (remove dec xs s) ≡ erase_all xs (items dec s)
  unfolding remove
  items-remove [] s v = refl
  items-remove (x ∷ xs) s v = elim (Option-cases (lookup dec x s.index)) [
    | inl e ↦ rw (e, remove, sym (has-items dec x s v) ∙ ap is_some e) refl
    | inr (i, e) ↦
        rw (e, remove, sym (has-items dec x s v) ∙ ap is_some e)
          (items-remove xs (remove_item dec i x s) (remove_item-IsIndexed dec x i s e v)
            ∙ ap (erase_all xs) (items-remove_item i x s e v))
  ]

  contains-items :
      (xs : List T) (s : OrderedSet T) → IsIndexed s → contains dec xs s ≡ has_all xs (items dec s)
  unfolding contains
  contains-items [] s v = refl
  contains-items (x ∷ xs) s v = rw (has-items dec x s v, contains-items xs s v) refl

  length-map : (m : List (ℕ × T)) → length m ≡ length (map (λ (e : ℕ × T). e.1) m)
  length-map [] = refl
  length-map (e ∷ m) = ap suc (length-map m)

  values-items : (s : OrderedSet T) → IsIndexed s → values s ≡ some (map some (items dec s))
  unfolding values
  values-items s v =
      values-IsOrdered ℕ_discrete s.store v.ordered ∙ ap some (map-some dec s.store.store)

  Agrees : OrderedSet T → List T → Type 0
  Agrees s l = IsIndexed s × (items dec s ≡ l)

  -- One call keeps a set that agrees with the list of its items, and answers as the list does.
  handle-Agrees :
      (c : Call T) (s : OrderedSet T) (l : List T)
      → Agrees s l
      → Agrees (handle c s).0 (handle_list c l).0 × ((handle c s).1 ≡ (handle_list c l).1)
  unfolding size empty Map.size Map.empty Agrees
  handle-Agrees (call_add xs) s l (v, e) =
      ((add-IsIndexed dec xs s v, items-add dec xs s v ∙ ap (add_new dec xs) e), refl)
  handle-Agrees (call_remove xs) s l (v, e) =
      ((remove-IsIndexed dec xs s v, items-remove xs s v ∙ ap (erase_all xs) e), refl)
  handle-Agrees (call_contains xs) s l (v, e) =
      ((v, e), ap yes_or_no (contains-items xs s v ∙ ap (has_all xs) e))
  handle-Agrees call_values s l (v, e) =
      ((v, e), ap listed (values-items s v ∙ ap (λ m. some (map some m)) e))
  handle-Agrees call_size s l (v, e) = ((v, e), ap counted (length-map s.store.store ∙ ap length e))
  handle-Agrees call_empty s l (v, e) =
      ((v, e), ap (λ n. yes_or_no (n == 0)) (length-map s.store.store ∙ ap length e))

  -- Whatever is called on a new set, each call answers as on the list of the items in the order in
  -- which they came, each once: `Add` appends the items that are not there, `Remove` takes items out up
  -- to the first that is not there, where the comment of the method promises to pass it over, and
  -- `Values` never faults.
  pub new_ordered_set-answers :
      (cs : List (Call T)) → answers handle cs new_ordered_set ≡ answers handle_list cs []
  unfolding Agrees
  new_ordered_set-answers cs =
      answers_agree handle handle_list Agrees handle-Agrees cs new_ordered_set [] (
        record {
          ordered = record { order = refl; unique = tt };
          used = tt;
          inverse = refl;
          distinct = tt;
        },
        refl,
      )
