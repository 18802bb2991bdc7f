-- ===== src/Basic/LinkedList/Refine/Runs.antt =====
-- The linked list of basic/linkedlist.go under any sequence of calls.
use own_x_go.Base.{◌≡◌, refl, some, List, [], ◌∷◌}
use own_x_go.Basic.LinkedList.{LinkedList, new_linked_list}
use own_x_go.Basic.LinkedList.Cells.{Cells, values, Links}
use own_x_go.Basic.LinkedList.Rep.{IsList}
use own_x_go.Basic.LinkedList.Refine.{
  Call, call_add_last, call_add_first, call_add_before, call_remove, call_remove_data,
  call_remove_until, call_remove_first, call_remove_last, call_clear, call_size, call_get,
  call_get_first, call_get_last, answers, run,
}
use own_x_go.Basic.LinkedList.Refine.Ends.{
  Refined, Refined-add_last, Refined-add_first, Refined-clear, Refined-size, Refined-remove_first,
  Refined-remove_last, Refined-get_first, Refined-get_last,
}
use own_x_go.Basic.LinkedList.Refine.Places.{
  Refined-add_before, Refined-remove, Refined-get, Refined-remove_until, Refined-remove_data,
}

module _ {A : Type 0} (dec : Discrete A) where
  refined :
      (c : Call A) (l : LinkedList A) (xs : Cells A) → IsList l xs → Refined dec c l (values xs)
  refined (call_add_last v) l xs h = Refined-add_last dec l xs h v
  refined (call_add_first v) l xs h = Refined-add_first dec l xs h v
  refined (call_add_before i v) l xs h = Refined-add_before dec l xs h i v
  refined (call_remove i) l xs h = Refined-remove dec l xs h i
  refined (call_remove_data v) l xs h = Refined-remove_data dec l xs h v
  refined (call_remove_until i) l xs h = Refined-remove_until dec l xs h i
  refined call_remove_first l xs h = Refined-remove_first dec l xs h
  refined call_remove_last l xs h = Refined-remove_last dec l xs h
  refined call_clear l xs h = Refined-clear dec l xs h
  refined call_size l xs h = Refined-size dec l xs h
  refined (call_get i) l xs h = Refined-get dec l xs h i
  refined call_get_first l xs h = Refined-get_first dec l xs h
  refined call_get_last l xs h = Refined-get_last dec l xs h

  run_from :
      (cs : List (Call A)) (l : LinkedList A) (xs : Cells A)
      → IsList l xs
      → run dec cs l ≡ some (answers dec cs (values xs))
  unfolding run
  run_from [] l xs h = refl
  run_from (c ∷ cs) l xs h =
      let r = refined c l xs h in rw (r.returns, run_from cs r.after r.cells r.holds, r.agrees)

  -- From NewLinkedList on, any sequence of calls of AddLast, AddFirst, AddBefore, Remove,
  -- RemoveData, RemoveUntil, RemoveFirst, RemoveLast, Clear, Size, Get, GetFirst and GetLast
  -- returns, without a panic on a nil pointer and without a loop that runs out of rounds, and gives
  -- the answers that the same calls give on a plain list of values.
  pub run-answers : (cs : List (Call A)) → run dec cs new_linked_list ≡ some (answers dec cs [])
  unfolding new_linked_list
  run-answers cs =
      run_from cs new_linked_list []
        (record { begins = refl; ends = refl; chain = Links.nil; size = refl; below = λ a i. cc })
