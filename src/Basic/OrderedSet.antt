-- ===== src/Basic/OrderedSet.antt =====
-- basic/orderedset.go: a set that remembers the order of insertion, as an ordered map from a
-- running number to the items, with the number of each item beside it.
pub mod Order
pub mod Items
pub mod Refine
use own_x_go.Base.{
  ℕ, suc, ◌+◌, if◌then◌else◌, List, [], ◌∷◌, Option, none, some, Bool, true, false, ◌&&◌, is_some,
  lookup, insert, delete, ℕ_discrete,
}
use own_x_go.Basic.OrderedMap.{OrderedMap, new_ordered_map}
use own_x_go.Basic.OrderedMap as Map

pub record OrderedSet (T : Type 0) : Type 0 where
  pub current_index : ℕ
  pub index : List (T × ℕ)
  pub store : OrderedMap ℕ T

module _ {T : Type 0} where
  abbrev pub new_ordered_set : OrderedSet T
  new_ordered_set = record { current_index = 0; index = []; store = new_ordered_map }

  unfoldable pub values : OrderedSet T → Option (List (Option T))
  values s = Map.values ℕ_discrete s.store

  unfoldable pub size : OrderedSet T → ℕ
  size s = Map.size s.store

  unfoldable pub empty : OrderedSet T → Bool
  empty s = Map.empty s.store

module _ {T : Type 0} (dec : Discrete T) where
  -- `put`, of one item
  unfoldable pub put_item : T → OrderedSet T → OrderedSet T
  put_item x s = record {
    current_index = s.current_index + 1;
    index = insert dec x s.current_index s.index;
    store = Map.put ℕ_discrete s.current_index x s.store;
  }

  abbrev pub has_item : T → OrderedSet T → Bool
  has_item x s = is_some (lookup dec x s.index)

  -- `Add`
  unfoldable pub add : List T → OrderedSet T → OrderedSet T
  unfolding put_item
  add [] s = s
  add (x ∷ xs) s = add xs (if has_item x s then s else put_item x s)

  -- `remove`, of one item
  unfoldable pub remove_item : ℕ → T → OrderedSet T → OrderedSet T
  remove_item i x s = record s {
    index = delete dec x s.index;
    store = Map.remove ℕ_discrete i s.store;
  }

  -- `Remove`: the loop returns at the first item that is not there.
  unfoldable pub remove : List T → OrderedSet T → OrderedSet T
  remove [] s = s
  remove (x ∷ xs) s = elim (lookup dec x s.index) [
    | none ↦ s
    | some i ↦ remove xs (remove_item i x s)
  ]

  -- `Contains`
  unfoldable pub contains : List T → OrderedSet T → Bool
  contains [] s = true
  contains (x ∷ xs) s = has_item x s && contains xs s
