-- ===== src/Task/Allocator/Cut.antt =====
-- task/node/allocator.go, `cutInLine`: addresses that do not wait for their round.
use own_x_go.Base.{
  ℕ, zero, suc, ◌+◌, ◌*◌, ◌-◌, ◌/◌, ◌==◌, leb, if◌then◌else◌, String, List, [], ◌∷◌, Option, none,
  some, length, take, drop,
}
use own_x_go.Task.Allocator.{Allocator, emit, puts, cuts_in}
use own_x_go.Task.Worker.{Task}

-- `batchData`: the batch `i` of `n + i`, and those after it.
unfoldable pub batches_from : ℕ → ℕ → List String → List (List String)
batches_from zero i ips = []
batches_from (suc n) i ips =
    let start = i * 1024 in
    let end_ = if n == 0 then length ips - 1 else start + 1024 in
    take (end_ - start) (drop start ips) ∷ batches_from n (i + 1) ips

unfoldable pub cut_batches : List String → List (List String)
cut_batches ips = batches_from ((length ips + 1024 - 1) / 1024) 0 ips

module _ {D : Type 0} where
  -- The loop of `cutInLine` over its functions.
  unfoldable pub cut_all :
      List String → List (List String → Option (List (Task D))) → Allocator D → Allocator D
  cut_all ips [] a = a
  cut_all ips (f ∷ fs) a = cut_all ips fs (elim (f ips) [ none ↦ a | some ts ↦ emit (puts ts) a ])

  -- The loop over the nodes that are alive: none is the fault of an index past `batchData`.
  unfoldable pub send_cuts : List String → List (List String) → Allocator D → Option (Allocator D)
  send_cuts [] bs a = some a
  send_cuts (n ∷ ns) [] a = none
  send_cuts (n ∷ ns) (b ∷ bs) a = send_cuts ns bs (emit (cuts_in n b) a)

  -- `cutInLine`, on a list of addresses.
  unfoldable pub cut_in_line : List String → List String → Allocator D → Option (Allocator D)
  cut_in_line alive ips a =
      if length ips == 0
      then some a
      else if leb (length ips) 1024
      then some (cut_all ips a.cut_in_line_funcs a)
      else send_cuts alive (cut_batches ips) a
