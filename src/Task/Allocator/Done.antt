-- ===== src/Task/Allocator/Done.antt =====
-- task/node/allocator.go, `partitionDone`, `syncPartitionDone` and `callRoundDone`: the end of a round.
use own_x_go.Base.{
  is_some, ℕ, ◌+◌, ◌==◌, ltb, if◌then◌else◌, String, String_discrete, List, [], ◌∷◌, Option, none,
  some, Bool, true, false, not, ◌&&◌, ite, length, lookup, insert,
}
use own_x_go.Task.Allocator.{Allocator, Partition, Partitions, emit, tells_done, ends_round}

-- How a call of `partitionDone` ends: with an error or nil, or never, at a send to a nil channel.
pub data Ending : Type 0 where
  returns : (err : Option String) → Ending
  blocks : Ending

unfoldable pub intersection : Partitions → List String → List String
intersection ps [] = []
intersection ps (n ∷ ns) =
    let rest = intersection ps ns in
    if is_some (lookup String_discrete n ps) then n ∷ rest else rest

-- The loop over the intersection: every partition but the own one is done.
unfoldable pub all_done : String → Partitions → List String → Bool
all_done own ps [] = true
all_done own ps (n ∷ ns) =
    let rest = all_done own ps ns in
    elim (lookup String_discrete n ps) [
      | none ↦ rest
      | some p ↦ ite (String_discrete own n) rest (if p.round_done then rest else false)
    ]

module _ {D : Type 0} where
  unfoldable pub sync_partition_done : Partition → Allocator D → Allocator D
  sync_partition_done pt a = elim (lookup String_discrete pt.node_name a.node_partition) [
    | none ↦ a
    | some p ↦ record a {
      node_partition =
          insert String_discrete pt.node_name (record p { round_done = pt.round_done })
            a.node_partition;
    }
  ]

  -- `callRoundDone`: the send to `cancelRoundTimeout` is the last thing.
  unfoldable pub call_round_done : ℕ → Allocator D → Allocator D
  call_round_done r a = emit (ends_round r) a

  unfoldable pub tell_done : Partition → List String → Allocator D → Allocator D
  tell_done p [] a = a
  tell_done p (n ∷ ns) a = tell_done p ns (emit (tells_done n p) a)

  -- The second part of `partitionDone`, for the own partition `q`.
  unfoldable pub finish_round : Partition → List String → Allocator D → Allocator D × Ending
  finish_round q names a =
      let nobody = length names == 0 in
      let b = if nobody then call_round_done q.round a else a in
      if nobody && not a.cancel_round_timeout
      then (b, blocks)
      else if all_done q.node_name a.node_partition names
      then (call_round_done q.round b, if a.cancel_round_timeout then returns none else blocks)
      else (tell_done q names b, returns none)

  -- `partitionDone`, on data of the right type, taken whole: the nodes that are alive are those that
  -- its second part finds.
  unfoldable pub partition_done : String → List String → Allocator D → Allocator D × Ending
  partition_done me alive a = elim (lookup String_discrete me a.node_partition) [
    | none ↦ (a, returns (some "cant find my partition"))
    | some p ↦
        let q : Partition = record p { fin_batch_count = p.fin_batch_count + 1 } in
        let q' : Partition = record q { round_done = true } in
        let ps = insert String_discrete me q' a.node_partition in
        if ltb q.fin_batch_count q.batch_count
        then (
          record a { node_partition = insert String_discrete me q a.node_partition },
          returns (some "partition done"),
        )
        else finish_round q' (intersection ps alive) (record a { node_partition = ps })
  ]
