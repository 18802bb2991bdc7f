-- ===== src/Basic/OrderedMap/Refine.antt =====
-- The ordered map as a list of entries, in the order in which their keys came.
use own_x_go.Base.{
  ℕ, ◌≡◌, refl, ap, ◌∙◌, sym, List, [], ◌∷◌, map, some, Option, Bool, false, lookup, arith, is_some,
  keys, delete, insert, length, ◌==◌, if_each, answers, answers_agree,
}
use own_x_go.Basic.OrderedMap.{OrderedMap, new_ordered_map, put, get, remove, values, size, empty}
use own_x_go.Basic.OrderedMap.Order.{IsOrdered, put-IsOrdered, remove-IsOrdered, values-IsOrdered}

-- The calls of a map and what they answer; `call_keys` is the field `order`.
pub data Call (K V : Type 0) : Type 0 where
  call_put : (k : K) (v : V) → Call K V
  call_get : (k : K) → Call K V
  call_remove : (k : K) → Call K V
  call_keys call_values call_size call_empty : Call K V

pub data Answer (K V : Type 0) : Type 0 where
  nothing : Answer K V
  found : (v : Option V) → Answer K V
  keyed : (ks : List K) → Answer K V
  listed : (vs : Option (List (Option V))) → Answer K V
  counted : (n : ℕ) → Answer K V
  yes_or_no : (b : Bool) → Answer K V

module _ {K V : Type 0} (dec : Discrete K) where
  -- A call on the map, and on the list of entries.
  abbrev pub handle : Call K V → OrderedMap K V → OrderedMap K V × Answer K V
  handle (call_put k v) m = (put dec k v m, nothing)
  handle (call_get k) m = (m, found (get dec k m))
  handle (call_remove k) m = (remove dec k m, nothing)
  handle call_keys m = (m, keyed m.order)
  handle call_values m = (m, listed (values dec m))
  handle call_size m = (m, counted (size m))
  handle call_empty m = (m, yes_or_no (empty m))

  abbrev pub handle_list : Call K V → List (K × V) → List (K × V) × Answer K V
  handle_list (call_put k v) l = (insert dec k v l, nothing)
  handle_list (call_get k) l = (l, found (lookup dec k l))
  handle_list (call_remove k) l = (delete dec k l, nothing)
  handle_list call_keys l = (l, keyed (keys l))
  handle_list call_values l = (l, listed (some (map (λ (e : K × V). some e.1) l)))
  handle_list call_size l = (l, counted (length l))
  handle_list call_empty l = (l, yes_or_no (length l == 0))

  put-store : (k : K) (v : V) (m : OrderedMap K V) → (put dec k v m).store ≡ insert dec k v m.store
  unfolding put
  put-store k v m = ground arith

  delete_unknown :
      (k : K) (l : List (K × V)) → is_some (lookup dec k l) ≡ false → delete dec k l ≡ l
  unfolding delete lookup
  delete_unknown k [] h = refl
  delete_unknown k ((j, w) ∷ l) h = ground (arith, delete_unknown k l)

  remove-store : (k : K) (m : OrderedMap K V) → (remove dec k m).store ≡ delete dec k m.store
  unfolding remove
  remove-store k m =
      if_each (λ (d : OrderedMap K V). d.store ≡ delete dec k m.store)
        (is_some (lookup dec k m.store)) (λ old. refl) (λ new. sym (delete_unknown k m.store new))

  Agrees : OrderedMap K V → List (K × V) → Type 0
  Agrees m l = IsOrdered m × (m.store ≡ l)

  -- One call keeps a map that agrees with the list of its entries, and answers as the list does.
  handle-Agrees :
      (c : Call K V) (m : OrderedMap K V) (l : List (K × V))
      → Agrees m l
      → Agrees (handle c m).0 (handle_list c l).0 × ((handle c m).1 ≡ (handle_list c l).1)
  unfolding size empty get Agrees
  handle-Agrees (call_put k v) m l (h, e) =
      ((put-IsOrdered dec k v m h, put-store k v m ∙ ap (insert dec k v) e), refl)
  handle-Agrees (call_get k) m l (h, e) = ((h, e), ap (λ n. found (lookup dec k n)) e)
  handle-Agrees (call_remove k) m l (h, e) =
      ((remove-IsOrdered dec k m h, remove-store k m ∙ ap (delete dec k) e), refl)
  handle-Agrees call_keys m l (h, e) = ((h, e), ap keyed (h.order ∙ ap keys e))
  handle-Agrees call_values m l (h, e) = (
    (h, e),
    ap listed (values-IsOrdered dec m h ∙ ap (λ n. some (map (λ (d : K × V). some d.1) n)) e),
  )
  handle-Agrees call_size m l (h, e) = ((h, e), ap (λ n. counted (length n)) e)
  handle-Agrees call_empty m l (h, e) = ((h, e), ap (λ n. yes_or_no (length n == 0)) e)

  -- Whatever is called on a new map, each call answers as on the list of the entries in the order in
  -- which their keys came: a put of a key that is there keeps its place, a removed key that is put
  -- again goes to the end, and `Values` never faults.
  pub new_ordered_map-answers :
      (cs : List (Call K V)) → answers handle cs new_ordered_map ≡ answers handle_list cs []
  unfolding Agrees
  new_ordered_map-answers cs =
      answers_agree handle handle_list Agrees handle-Agrees cs new_ordered_map []
        (record { order = refl; unique = tt }, refl)
