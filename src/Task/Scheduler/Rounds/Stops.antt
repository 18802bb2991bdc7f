-- ===== src/Task/Scheduler/Rounds/Stops.antt =====
-- A scheduler that has been stopped.
use own_x_go.Base.{
  ℕ, ◌≡◌, refl, String, String_discrete, List, [], ◌∷◌, Option, none, some, Bool, true, false,
  arith, insert, lookup, subst, sym, ◌∙◌,
}
use own_x_go.Task.Scheduler.{
  Scheduler, new_scheduler, calls_of, start, stop, start_all, call_all, round_done, mark_done,
  start_new_round, begin_round, round_call_registry,
}
use own_x_go.Task.Scheduler.Rounds.{
  Event, starts, starts_all, dones, registers, stops, handle, run, take_signal,
}

-- What the calls keep of the two flags.
abbrev flags : Scheduler → Bool × Bool
flags s = (s.is_running, s.looping)

call_all-flags :
    (clock : String → ℕ) (fs : List (String × ℕ)) (s : Scheduler)
    → flags (call_all clock fs s) ≡ flags s
unfolding call_all
call_all-flags clock [] s = refl
call_all-flags clock ((name, f) ∷ fs) s = call_all-flags clock fs (record s {
  round = insert String_discrete name (clock name) s.round;
  trace = record { function = f; at_round = clock name } ∷ s.trace;
})

start_all-flags : (clock : String → ℕ) (s : Scheduler) → flags (start_all clock s) ≡ flags s
unfolding start_all
start_all-flags clock s = ground (arith, call_all-flags clock (calls_of s) s)

mark_done-flags :
    (name : String) (r : ℕ) (flag : Option Bool) (current : Option ℕ) (s : Scheduler)
    → flags (mark_done name r flag current s).0 ≡ flags s
unfolding mark_done
mark_done-flags name r none current s = refl
mark_done-flags name r (some b) none s = refl
mark_done-flags name r (some b) (some c) s = ground arith

round_done-flags : (name : String) (r : ℕ) (s : Scheduler) → flags (round_done name r s).0 ≡ flags s
unfolding round_done
round_done-flags name r s = ground (
  arith,
  mark_done-flags name r (lookup String_discrete name s.round_done_flag)
      (lookup String_discrete name s.round) s,
)

begin_round-flags :
    (now : ℕ) (name : String) (f : Option ℕ) (s : Scheduler)
    → flags (begin_round now name f s) ≡ flags s
unfolding begin_round
begin_round-flags now name none s = refl
begin_round-flags now name (some f) s = refl

start_new_round-flags :
    (now : ℕ) (name : String) (s : Scheduler) → flags (start_new_round now name s) ≡ flags s
unfolding start_new_round
start_new_round-flags now name s =
    ground (arith, begin_round-flags now name (lookup String_discrete name (calls_of s)) s)

take_signal-flags :
    (now : ℕ) (x : Scheduler × Option String) → flags (take_signal now x) ≡ flags x.0
take_signal-flags now (s, none) = refl
take_signal-flags now (s, some name) = start_new_round-flags now name s

registry-flags :
    (name : String) (f : ℕ) (s : Scheduler) → flags (round_call_registry name f s) ≡ flags s
unfolding round_call_registry
registry-flags name f s = ground arith

-- A predicate of the two flags that `Start` and `Stop` keep is kept by every call.
handle-flags :
    (P : Bool × Bool → Type 0)
    → ((s : Scheduler) → P (flags s) → P (flags (start s).0))
    → ((s : Scheduler) → P (flags s) → P (flags (stop s).0))
    → (e : Event) (s : Scheduler) → P (flags s)
    → P (flags (handle e s))
unfolding handle
handle-flags P begins ends starts s h = begins s h
handle-flags P begins ends (starts_all clock) s h = subst P (sym (start_all-flags clock s)) h
handle-flags P begins ends (dones name r now) s h =
    subst P (sym (take_signal-flags now (round_done name r s) ∙ round_done-flags name r s)) h
handle-flags P begins ends (registers name f) s h = subst P (sym (registry-flags name f s)) h
handle-flags P begins ends stops s h = ends s h

run-flags :
    (P : Bool × Bool → Type 0)
    → ((s : Scheduler) → P (flags s) → P (flags (start s).0))
    → ((s : Scheduler) → P (flags s) → P (flags (stop s).0))
    → (es : List Event) (s : Scheduler) → P (flags s)
    → P (flags (run es s))
unfolding run
run-flags P begins ends [] s h = h
run-flags P begins ends (e ∷ es) s h =
    run-flags P begins ends es (handle e s) (handle-flags P begins ends e s h)

-- The loop runs only where `isRunning` is set.
Marked : Bool × Bool → Type 0
Marked (running, looping) = looping ≡ true → running ≡ true

abbrev Over : Bool × Bool → Type 0
Over (running, looping) = (running ≡ true) × (looping ≡ false)

start-Marked : (s : Scheduler) → Marked (flags s) → Marked (flags (start s).0)
unfolding start Marked
start-Marked s h l = ground (arith, h)

stop-Marked : (s : Scheduler) → Marked (flags s) → Marked (flags (stop s).0)
unfolding stop Marked
stop-Marked s h l = ground (arith, h)

start-Over : (s : Scheduler) → Over (flags s) → Over (flags (start s).0)
unfolding start
start-Over s h = ground arith

stop-Over : (s : Scheduler) → Over (flags s) → Over (flags (stop s).0)
unfolding stop
stop-Over s h = ground arith

start-ends : (s : Scheduler) → Over (flags s) → (start s).1 ≡ false
unfolding start
start-ends s h = ground arith

stop-ends : (s : Scheduler) → Marked (flags s) → (stop s).1 ≡ true → Over (flags (stop s).0)
unfolding stop Marked
stop-ends s h taken =
    let looping : s.looping ≡ true = ground arith in
    let running : s.is_running ≡ true = h looping in ground arith

-- Whatever is called before and after on a new scheduler: once `Stop` has ended the loop, no `Start`
-- enters it again, since `isRunning` stays set.
pub stop-run :
    (n : String) (before later : List Event)
    → let s = run before (new_scheduler n) in
      (stop s).1 ≡ true → (start (run later (stop s).0)).1 ≡ false
unfolding new_scheduler Marked
stop-run n before later taken =
    let s = run before (new_scheduler n) in
    let marked = run-flags Marked start-Marked stop-Marked before (new_scheduler n) (λ l. cc l) in
    start-ends (run later (stop s).0)
      (run-flags Over start-Over stop-Over later (stop s).0 (stop-ends s marked taken))
