-- ===== src/Basic/OrderedMap.antt =====
-- basic/orderedmap.go: a map that remembers the order in which its keys came. Keys and values are
-- those of any types, with Go's `==` on the keys. The lock makes each call one step.
pub mod Order
pub mod Refine
use own_x_go.Base.{
  ℕ, zero, suc, ◌+◌, ltb, ◌==◌, if◌then◌else◌, List, [], ◌∷◌, ◌++◌, Option, none, some, Bool, true,
  false, length, set, replicate, lookup, insert, delete, erase, is_some,
}

pub record OrderedMap (K V : Type 0) : Type 0 where
  pub order : List K
  pub store : List (K × V)

module _ {K V : Type 0} where
  abbrev pub new_ordered_map : OrderedMap K V
  new_ordered_map = record { order = []; store = [] }

  unfoldable pub size : OrderedMap K V → ℕ
  size m = length m.store

  unfoldable pub empty : OrderedMap K V → Bool
  empty m = length m.store == 0

module _ {K V : Type 0} (dec : Discrete K) where
  unfoldable pub put : K → V → OrderedMap K V → OrderedMap K V
  put k v m =
      let s = insert dec k v m.store in
      if is_some (lookup dec k m.store)
      then record m { store = s }
      else record { order = m.order ++ (k ∷ []); store = s }

  unfoldable pub get : K → OrderedMap K V → Option V
  get k m = lookup dec k m.store

  unfoldable pub remove : K → OrderedMap K V → OrderedMap K V
  remove k m =
      if is_some (lookup dec k m.store)
      then record { order = erase dec k m.order; store = delete dec k m.store }
      else m

  -- The loop of `Values`: none is the fault of an index past the slice, which has a cell for each
  -- entry of the store; a key without a value would give nil.
  unfoldable pub fill : List (K × V) → ℕ → List K → List (Option V) → Option (List (Option V))
  fill s i [] vs = some vs
  fill s i (k ∷ ks) vs =
      let rest = fill s (suc i) ks (set vs i (lookup dec k s)) in
      if ltb i (length vs) then rest else none

  unfoldable pub values : OrderedMap K V → Option (List (Option V))
  unfolding fill
  values m = fill m.store 0 m.order (replicate (length m.store) none)
