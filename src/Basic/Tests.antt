-- ===== src/Basic/Tests.antt =====
-- Runs of the containers of the package basic, and the theorems at them.
use own_x_go.Base.{pos, ℕ, ◌≡◌, [], ◌∷◌, none, some, ℕ_discrete, lookup}
use own_x_go.Base.{answers, has, erase, insert, delete, false, List, true}
use own_x_go.Basic.LinkedList.{new_linked_list, out_of_range}
use own_x_go.Basic.LinkedList.Walk.{same}
use own_x_go.Basic.LinkedList.Refine.{
  Call, call_add_last, call_add_first, call_add_before, call_remove_data, call_get,
  call_remove_last, call_remove_until, call_get_first, nothing, failure, found, value, run,
}
use own_x_go.Basic.LinkedList.Refine.Runs.{run-answers}
use own_x_go.Basic.OrderedSet.{new_ordered_set}
use own_x_go.Basic.OrderedSet.Items.{add_new}
use own_x_go.Basic.OrderedSet.Refine as SetRefine
use own_x_go.Basic.OrderedSet.Refine.{new_ordered_set-answers}
use own_x_go.Basic.OrderedMap.{new_ordered_map}
use own_x_go.Basic.OrderedMap.Refine as MapRefine
use own_x_go.Basic.OrderedMap.Refine.{new_ordered_map-answers}

abbrev calls : List (Call ℕ)
calls =
    call_add_last (some 4)
    ∷ call_add_first none
    ∷ call_add_before (pos 1) (some 6)
    ∷ call_add_before (pos 9) (some 6)
    ∷ call_remove_data none
    ∷ call_get (pos 1)
    ∷ call_remove_last
    ∷ call_remove_until (pos 0)
    ∷ call_get_first
    ∷ []

run-answers_example :
    run ℕ_discrete calls new_linked_list
    ≡ some (
        nothing
        ∷ nothing
        ∷ failure none
        ∷ failure (some out_of_range)
        ∷ found true
        ∷ value (some 4)
        ∷ value (some 4)
        ∷ failure none
        ∷ value none
        ∷ [])
unfolding same ℕ_discrete
run-answers_example = run-answers ℕ_discrete calls

abbrev set_calls : List (SetRefine.Call ℕ)
set_calls =
    SetRefine.call_add (4 ∷ 9 ∷ 4 ∷ [])
    ∷ SetRefine.call_remove (9 ∷ 5 ∷ 4 ∷ [])
    ∷ SetRefine.call_contains (4 ∷ 9 ∷ [])
    ∷ SetRefine.call_values
    ∷ []

-- 5 is not in the set, and 4 stays in it.
new_ordered_set-answers_example :
    answers (SetRefine.handle ℕ_discrete) set_calls new_ordered_set
    ≡ SetRefine.nothing
      ∷ SetRefine.nothing
      ∷ SetRefine.yes_or_no false
      ∷ SetRefine.listed (some (some 4 ∷ []))
      ∷ []
unfolding answers has erase add_new ℕ_discrete
new_ordered_set-answers_example = new_ordered_set-answers ℕ_discrete set_calls

abbrev map_calls : List (MapRefine.Call ℕ ℕ)
map_calls =
    MapRefine.call_put 7 1
    ∷ MapRefine.call_put 8 2
    ∷ MapRefine.call_put 7 3
    ∷ MapRefine.call_remove 8
    ∷ MapRefine.call_put 8 4
    ∷ MapRefine.call_get 7
    ∷ MapRefine.call_keys
    ∷ []

new_ordered_map-answers_example :
    answers (MapRefine.handle ℕ_discrete) map_calls new_ordered_map
    ≡ MapRefine.nothing
      ∷ MapRefine.nothing
      ∷ MapRefine.nothing
      ∷ MapRefine.nothing
      ∷ MapRefine.nothing
      ∷ MapRefine.found (some 3)
      ∷ MapRefine.keyed (7 ∷ 8 ∷ [])
      ∷ []
unfolding answers insert delete lookup ℕ_discrete
new_ordered_map-answers_example = new_ordered_map-answers ℕ_discrete map_calls
