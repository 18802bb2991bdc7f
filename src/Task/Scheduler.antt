-- ===== src/Task/Scheduler.antt =====
-- task/scheduler.go: rounds under names. A function of `roundCall` is a number; `trace` holds the
-- calls, the last first. `done` and `round_done_chan` say that the channel is not nil; `round_call`
-- is none where the map is nil. A method that holds the lock is one step. `looping` says that a
-- goroutine is in the loop of `Start`, which is where a send on a channel is received.
pub mod Rounds
use own_x_go.Base.{
  ℕ, if◌then◌else◌, String, String_discrete, List, [], ◌∷◌, Option, none, some, Bool, true, false,
  not, ◌&&◌, ◌==◌, lookup, insert,
}

pub record Called : Type 0 where
  pub function : ℕ
  pub at_round : ℕ

pub record Scheduler : Type 0 where
  pub name : String
  pub is_running : Bool
  pub looping : Bool
  pub done : Bool
  pub round : List (String × ℕ)
  pub round_done_flag : List (String × Bool)
  pub round_done_chan : Bool
  pub round_call : Option (List (String × ℕ))
  pub trace : List Called

unfoldable pub new_scheduler : String → Scheduler
new_scheduler name = record {
  name = name;
  is_running = false;
  looping = false;
  done = true;
  round = [];
  round_done_flag = [];
  round_done_chan = true;
  round_call = some [];
  trace = [];
}

abbrev pub calls_of : Scheduler → List (String × ℕ)
calls_of s = elim s.round_call [ none ↦ [] | some l ↦ l ]

-- The error, if there is one.
unfoldable pub prev_check : Scheduler → Option String
prev_check s =
    if not s.done
    then some "scheduler done not init"
    else if not s.round_done_chan
    then some "scheduler roundDoneChan not init"
    else elim s.round_call [ none ↦ some "scheduler roundCall not init" | some l ↦ none ]

abbrev pub checked : Option String → Bool
checked none = true
checked (some e) = false

-- `Start`, up to its loop: whether it starts `startAll` and enters the loop.
unfoldable pub start : Scheduler → Scheduler × Bool
unfolding prev_check
start s =
    if checked (prev_check s)
    then (if s.is_running
        then (s, false)
        else (record s { is_running = true; looping = true }, true))
    else (s, false)

-- `Stop`: whether the loop takes what it sends, and ends; without a loop the call waits.
unfoldable pub stop : Scheduler → Scheduler × Bool
stop s = if s.looping then (record s { looping = false }, true) else (s, false)

-- The loop of `startAll` over the map of functions; the clock may move on between two calls, and
-- `clock` is its value at each name.
unfoldable pub call_all : (String → ℕ) → List (String × ℕ) → Scheduler → Scheduler
call_all clock [] s = s
call_all clock ((name, f) ∷ fs) s = call_all clock fs (record s {
  round = insert String_discrete name (clock name) s.round;
  trace = record { function = f; at_round = clock name } ∷ s.trace;
})

unfoldable pub start_all : (String → ℕ) → Scheduler → Scheduler
unfolding prev_check call_all
start_all clock s = if checked (prev_check s) then call_all clock (calls_of s) s else s

unfoldable pub begin_round : ℕ → String → Option ℕ → Scheduler → Scheduler
begin_round now name none s = s
begin_round now name (some f) s = record s {
  round = insert String_discrete name now s.round;
  round_done_flag = insert String_discrete name false s.round_done_flag;
  trace = record { function = f; at_round = now } ∷ s.trace;
}

unfoldable pub start_new_round : ℕ → String → Scheduler → Scheduler
unfolding prev_check begin_round
start_new_round now name s =
    if checked (prev_check s)
    then begin_round now name (lookup String_discrete name (calls_of s)) s
    else s

-- The last test of `RoundDone`, on the flag and the round of the name.
unfoldable pub mark_done :
    String → ℕ → Option Bool → Option ℕ → Scheduler → Scheduler × Option String
mark_done name r none current s = (s, none)
mark_done name r (some flag) none s = (s, none)
mark_done name r (some flag) (some current) s =
    if not flag && (current == r)
    then (
      record s { round_done_flag = insert String_discrete name true s.round_done_flag },
      some name,
    )
    else (s, none)

-- `RoundDone`: the state, and the name that it sends to `roundDoneChan`.
unfoldable pub round_done : String → ℕ → Scheduler → Scheduler × Option String
unfolding prev_check mark_done
round_done name r s =
    if checked (prev_check s)
    then mark_done name r (lookup String_discrete name s.round_done_flag)
        (lookup String_discrete name s.round) s
    else (s, none)

-- `RoundCallRegistry`
unfoldable pub round_call_registry : String → ℕ → Scheduler → Scheduler
unfolding prev_check
round_call_registry name f s =
    if checked (prev_check s)
    then record s { round_call = some (insert String_discrete name f (calls_of s)) }
    else s
