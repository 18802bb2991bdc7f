-- ===== src/TimingWheel/Tests.antt =====
-- A wheel after `Init` at 1000, whose tasks are numbers, and the theorems at such wheels.
use own_x_go.Base.{ℕ, ◌≡◌, refl, [], ◌∷◌, arith}
use own_x_go.TimingWheel.Chain.{Chain, tier_task, add_to, walk, nil_pointer, chained}
use own_x_go.TimingWheel.Wheel.{Wheel, bucket, init, added, place, add_once}
use own_x_go.TimingWheel.Punctual.{rounds, runs, held}
use own_x_go.TimingWheel.Schedule.{IsOnTime}
use own_x_go.TimingWheel.Adding.{with_task, add_once-punctual, add_once-with_task}
use own_x_go.TimingWheel.Insert.{tasks_at, insert_tier, add_to-insert_tier}
use own_x_go.TimingWheel.Stuck.{last_bucket_stuck, IsStuck}
use own_x_go.TimingWheel.Histories.{Reach-IsOnTime, starts, adds, Reach}

abbrev fresh : Wheel ℕ
fresh = init 1000

fresh-IsOnTime : IsOnTime fresh
fresh-IsOnTime = Reach-IsOnTime {now = 1000} starts

abbrev one : Wheel ℕ
one = with_task fresh 7 1040

add_one : add_once fresh 7 1040 ≡ added one
unfolding add_once place add_to walk insert_tier
add_one = refl

add_once-punctual_example : runs (rounds 40 one) ≡ 7 ∷ []
unfolding held tasks_at place
add_once-punctual_example = add_once-punctual fresh one 7 1040 fresh-IsOnTime (omega arith) add_one

one-Reach : Reach 1000 one
one-Reach = adds 7 1040 starts add_one

abbrev from_one : Chain ℕ
from_one = tier_task 1 (5 ∷ []) ∷ []

-- A task of a tier before the head's.
add_to-insert_tier_example : add_to 0 7 from_one ≡ nil_pointer
add_to-insert_tier_example = add_to-insert_tier 0 7 from_one

abbrev one_four : Chain ℕ
one_four = tier_task 1 (5 ∷ []) ∷ tier_task 4 (7 ∷ []) ∷ []

adds_four : add_to 4 7 from_one ≡ chained one_four
unfolding add_to walk
adds_four = refl

-- A wheel whose hand is at the last bucket, with a task for the present second there.
abbrev last : Wheel ℕ
last =
    with_task (record fresh { current = record { timestamp = 1031; tier = 0; index = 31 } }) 7 1031

last-IsStuck : IsStuck (tier_task 0 (7 ∷ [])) [] last
unfolding insert_tier place
last-IsStuck = record { size = refl; index = omega arith; head = refl; reached = omega arith }

last_bucket_stuck_example :
    (bucket 31 (rounds 64 last) ≡ tier_task 0 (7 ∷ []) ∷ [])
    × ((rounds 64 last).current.index ≡ 31 → runs (rounds 64 last) ≡ [])
last_bucket_stuck_example = last_bucket_stuck (tier_task 0 (7 ∷ [])) [] 64 last last-IsStuck

Reach-IsOnTime_example : IsOnTime one
Reach-IsOnTime_example = Reach-IsOnTime one-Reach

add_once-with_task_example : add_once fresh 7 1040 ≡ added one
unfolding place
add_once-with_task_example = add_once-with_task fresh 7 1040 fresh-IsOnTime
