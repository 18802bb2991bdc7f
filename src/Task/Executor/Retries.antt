-- ===== src/Task/Executor/Retries.antt =====
-- The retries of the tasks of task/node/executor.go.
use own_x_go.Base.{ℕ, ◌≡◌, none, some, Bool, true, false}
use own_x_go.Task.Worker.{Task, exec_runs}
use own_x_go.Task.Executor.{Payload, Host, Ended, exited, returned, exec}

-- whether `Exec` returns an error
abbrev pub failed : Ended → Bool
failed exited = false
failed (returned none) = false
failed (returned (some e)) = true

abbrev pub RunsOnce : (ℕ → Host) → Task Payload → Type 0
RunsOnce hosts t = exec_runs 1 (λ k. failed (exec (hosts k) t.payload)) 0 t ≡ some 1
