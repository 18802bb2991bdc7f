-- ===== src/Task/Scheduler/Rounds.antt =====
-- The rounds that a scheduler starts.
pub mod Stops
use own_x_go.Base.{
  ℕ, ◌≡◌, refl, String, String_discrete, List, [], ◌∷◌, Option, none, some, Bool, true, false,
  arith, lookup, lookup-insert, ◌==◌, if◌then◌else◌, insert,
}
use own_x_go.Task.Scheduler.{
  Scheduler, new_scheduler, calls_of, prev_check, start, call_all, start_all, begin_round,
  start_new_round, mark_done, round_done, round_call_registry, stop,
}

-- The calls of a scheduler. The loop of `Start` takes what `RoundDone` sends and starts the next
-- round, at the time `now`.
pub data Event : Type 0 where
  starts : Event
  starts_all : (clock : String → ℕ) → Event
  dones : (name : String) (r now : ℕ) → Event
  registers : (name : String) (f : ℕ) → Event
  stops : Event

abbrev pub take_signal : ℕ → Scheduler × Option String → Scheduler
take_signal now (s, none) = s
take_signal now (s, some name) = start_new_round now name s

pub handle : Event → Scheduler → Scheduler
handle starts s = (start s).0
handle (starts_all clock) s = start_all clock s
handle (dones name r now) s = take_signal now (round_done name r s)
handle (registers name f) s = round_call_registry name f s
handle stops s = (stop s).0

pub run : List Event → Scheduler → Scheduler
run [] s = s
run (e ∷ es) s = run es (handle e s)

call_all-flag :
    (clock : String → ℕ) (fs : List (String × ℕ)) (s : Scheduler)
    → (call_all clock fs s).round_done_flag ≡ s.round_done_flag
unfolding call_all
call_all-flag clock [] s = refl
call_all-flag clock ((name, f) ∷ fs) s = call_all-flag clock fs (record s {
  round = insert String_discrete name (clock name) s.round;
  trace = record { function = f; at_round = clock name } ∷ s.trace;
})

no_flag :
    (name : String) (r : ℕ) (s : Scheduler)
    → s.round_done_flag ≡ []
    → round_done name r s ≡ (s, none)
unfolding round_done mark_done lookup
no_flag name r s e = ground arith

handle-flag :
    (e : Event) (s : Scheduler) → s.round_done_flag ≡ [] → (handle e s).round_done_flag ≡ []
unfolding handle start start_all round_call_registry stop
handle-flag starts s h = ground arith
handle-flag (starts_all clock) s h = ground (arith, call_all-flag clock (calls_of s) s)
handle-flag (dones name r now) s h = rw (no_flag name r s h) h
handle-flag (registers name f) s h = ground arith
handle-flag stops s h = ground arith

run-flag :
    (es : List Event) (s : Scheduler) → s.round_done_flag ≡ [] → (run es s).round_done_flag ≡ []
unfolding run
run-flag [] s h = h
run-flag (e ∷ es) s h = run-flag es (handle e s) (handle-flag e s h)

-- Whatever is called on a new scheduler, and in whatever order, `RoundDone` changes nothing and
-- sends nothing: `startAll` leaves the flags that `RoundDone` looks for unset, and so no round
-- follows the first.
pub round_done-run :
    (n name : String) (r : ℕ) (es : List Event)
    → round_done name r (run es (new_scheduler n)) ≡ (run es (new_scheduler n), none)
unfolding new_scheduler
round_done-run n name r es =
    no_flag name r (run es (new_scheduler n)) (run-flag es (new_scheduler n) refl)

lookup_here :
    {V : Type 0} (k : String) (v : V) (m : List (String × V))
    → lookup String_discrete k (insert String_discrete k v m) ≡ some v
lookup_here k v m = ground (arith, lookup-insert String_discrete k k v m)

done-marks :
    (name : String) (r current : ℕ) (b : Bool) (s : Scheduler)
    → prev_check s ≡ none
    → lookup String_discrete name s.round_done_flag ≡ some b
    → lookup String_discrete name s.round ≡ some current
    → round_done name r s ≡ mark_done name r (some b) (some current) s
unfolding round_done
done-marks name r current b s ok flag at = rw (ok, flag, at) refl

starts-begins :
    (now f : ℕ) (name : String) (s : Scheduler)
    → prev_check s ≡ none
    → lookup String_discrete name (calls_of s) ≡ some f
    → start_new_round now name s ≡ begin_round now name (some f) s
unfolding start_new_round
starts-begins now f name s ok known = rw (ok, known) refl

-- A round in which `name` is at `now`, with its flag set.
marked-refuses :
    (name : String) (r now : ℕ) (s : Scheduler)
    → prev_check s ≡ none
    → lookup String_discrete name s.round ≡ some now
    → (round_done name r
        (record s { round_done_flag = insert String_discrete name true s.round_done_flag })).1
      ≡ none
unfolding mark_done prev_check
marked-refuses name r now s ok at =
    rw
      (done-marks name r now true
        (record s { round_done_flag = insert String_discrete name true s.round_done_flag }) ok
        (lookup_here name true s.round_done_flag) at)
      refl

-- Once a round of a registered name has been started by `startNewRound`, the first `RoundDone` with
-- its number is sent on, one with another number is not, and a second one is not either.
pub round_done-start_new_round :
    (now f r : ℕ) (name : String) (s : Scheduler)
    → prev_check s ≡ none
    → lookup String_discrete name (calls_of s) ≡ some f
    → let d = start_new_round now name s in
      let e = (round_done name now d).0 in
      ((round_done name r d).1 ≡ (if now == r then some name else none))
      × ((round_done name r e).1 ≡ none)
unfolding begin_round prev_check mark_done
round_done-start_new_round now f r name s ok known = rw (starts-begins now f name s ok known) (
    let d = begin_round now name (some f) s in
    let flag = lookup_here name false s.round_done_flag in
    let at = lookup_here name now s.round in
    let equal : (now == now) ≡ true = ground arith in
    (
      rw (done-marks name r now false d ok flag at) (ground arith),
      rw (done-marks name now now false d ok flag at)
          (rw (equal) (marked-refuses name r now d ok at)),
    ))
