-- ===== src/Basic/LinkedList/Refine.antt =====
-- The linked list of basic/linkedlist.go refines a plain list of values, over any sequence of calls.
pub mod Lists
pub mod Ends
pub mod Branches
pub mod Places
pub mod Runs
use own_x_go.Base.{
  ℤ, pos, negsuc, ℕ, zero, suc, Bool, Option, none, some, List, [], ◌∷◌, ◌++◌, ltb, if◌then◌else◌,
  length, drop, get_elem?,
}
use own_x_go.Basic.LinkedList.{
  ListError, out_of_range, LinkedList, ◌>>=◌, add_last, add_first, add_before, remove, remove_until,
  remove_first, remove_last, clear,
}
use own_x_go.Basic.LinkedList.Walk.{get_first, get_last, get, remove_data}
use own_x_go.Basic.LinkedList.Walk.Finds.{without}

-- A call of one of the functions, and what it returns.
pub data Call (A : Type 0) : Type 0 where
  call_add_last : Option A → Call A
  call_add_first : Option A → Call A
  call_add_before : ℤ → Option A → Call A
  call_remove : ℤ → Call A
  call_remove_data : Option A → Call A
  call_remove_until : ℤ → Call A
  call_remove_first : Call A
  call_remove_last : Call A
  call_clear : Call A
  call_size : Call A
  call_get : ℤ → Call A
  call_get_first : Call A
  call_get_last : Call A

pub data Answer (A : Type 0) : Type 0 where
  nothing : Answer A
  value : Option A → Answer A
  failure : Option ListError → Answer A
  found : Bool → Answer A
  count : ℕ → Answer A

module _ {A : Type 0} where
  -- lists of values: the one at an index, the first and the last, nil where there is none
  abbrev pub value_at : ℕ → List (Option A) → Option A
  value_at i vs = elim (get_elem? vs i) [ none ↦ none | some v ↦ v ]

  abbrev pub last_value : List (Option A) → Option A
  last_value [] = none
  last_value (v ∷ []) = v
  last_value (v ∷ w ∷ vs) = last_value (w ∷ vs)

  abbrev pub all_but_last : List (Option A) → List (Option A)
  all_but_last [] = []
  all_but_last (v ∷ []) = []
  all_but_last (v ∷ w ∷ vs) = v ∷ all_but_last (w ∷ vs)

  abbrev pub insert_before : ℕ → Option A → List (Option A) → List (Option A)
  insert_before zero v vs = v ∷ vs
  insert_before (suc i) v [] = v ∷ []
  insert_before (suc i) v (w ∷ vs) = w ∷ insert_before i v vs

  abbrev pub delete_at : ℕ → List (Option A) → List (Option A)
  delete_at i [] = []
  delete_at zero (v ∷ vs) = vs
  delete_at (suc i) (v ∷ vs) = v ∷ delete_at i vs

  -- a call on the plain list
  abbrev pub on_list : Discrete A → Call A → List (Option A) → List (Option A) × Answer A
  on_list dec (call_add_last v) vs = (vs ++ (v ∷ []), nothing)
  on_list dec (call_add_first v) vs = (v ∷ vs, nothing)
  on_list dec (call_add_before (negsuc _) v) vs = (vs, failure (some out_of_range))
  on_list dec (call_add_before (pos i) v) vs =
      if ltb (length vs) i
      then (vs, failure (some out_of_range))
      else (insert_before i v vs, failure none)
  on_list dec (call_remove (negsuc _)) vs = (vs, value none)
  on_list dec (call_remove (pos i)) vs = (delete_at i vs, value (value_at i vs))
  on_list dec (call_remove_data v) vs = let (ws, b) = without dec v vs in (ws, found b)
  on_list dec (call_remove_until (negsuc _)) vs = (vs, failure (some out_of_range))
  on_list dec (call_remove_until (pos i)) vs =
      if ltb i (length vs)
      then (drop (suc i) vs, failure none)
      else (vs, failure (some out_of_range))
  on_list dec call_remove_first vs = (drop 1 vs, value (value_at 0 vs))
  on_list dec call_remove_last vs = (all_but_last vs, value (last_value vs))
  on_list dec call_clear vs = ([], nothing)
  on_list dec call_size vs = (vs, count (length vs))
  on_list dec (call_get (negsuc _)) vs = (vs, value none)
  on_list dec (call_get (pos i)) vs = (vs, value (value_at i vs))
  on_list dec call_get_first vs = (vs, value (value_at 0 vs))
  on_list dec call_get_last vs = (vs, value (last_value vs))

  -- the same call on the linked list
  unfoldable pub on_linked : Discrete A → Call A → LinkedList A → Option (LinkedList A × Answer A)
  on_linked dec (call_add_last v) l = add_last v l >>= λ d. some (d, nothing)
  on_linked dec (call_add_first v) l = add_first v l >>= λ d. some (d, nothing)
  on_linked dec (call_add_before i v) l = add_before i v l >>= λ (d, e). some (d, failure e)
  on_linked dec (call_remove i) l = remove i l >>= λ (d, v). some (d, value v)
  on_linked dec (call_remove_data v) l = remove_data dec v l >>= λ (d, b). some (d, found b)
  on_linked dec (call_remove_until i) l = remove_until i l >>= λ (d, e). some (d, failure e)
  on_linked dec call_remove_first l = remove_first l >>= λ (d, v). some (d, value v)
  on_linked dec call_remove_last l = remove_last l >>= λ (d, v). some (d, value v)
  on_linked dec call_clear l = clear l >>= λ d. some (d, nothing)
  on_linked dec call_size l = some (l, count l.size)
  on_linked dec (call_get i) l = get i l >>= λ v. some (l, value v)
  on_linked dec call_get_first l = some (l, value (get_first l))
  on_linked dec call_get_last l = some (l, value (get_last l))

  -- the answers to a sequence of calls
  abbrev pub answers : Discrete A → List (Call A) → List (Option A) → List (Answer A)
  answers dec [] vs = []
  answers dec (c ∷ cs) vs = let (ws, r) = on_list dec c vs in r ∷ answers dec cs ws

  unfoldable pub run : Discrete A → List (Call A) → LinkedList A → Option (List (Answer A))
  run dec [] l = some []
  run dec (c ∷ cs) l = on_linked dec c l >>= λ (d, r). run dec cs d >>= λ rs. some (r ∷ rs)
