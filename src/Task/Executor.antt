-- ===== src/Task/Executor.antt =====
-- task/node/executor.go and task/node/job.go: the tasks of the node executor, which run a script on
-- each address. ssh is what the host answers: the error of a connection, and what a command prints.
pub mod Retries
use own_x_go.Base.{
  ℕ, ◌+◌, String, List, [], ◌∷◌, Option, none, some, Bool, true, false, ◌||◌, not, ite,
  String_discrete, if◌then◌else◌,
}
use own_x_go.Task.Worker.{Task}
use Prim.Native.String as Text

-- `Data` of a task, and the input of TaskBuild: what the type assertions tell apart.
pub data Payload : Type 0 where
  job : String → Payload
  ip_list : List String → Payload
  anything : Payload

-- None is the error.
unfoldable pub decode_job : Payload → Option String
decode_job (job ip) = some ip
decode_job (ip_list _) = none
decode_job anything = none

pub record CmdResult : Type 0 where
  pub stdout : String
  pub stderr : String
  pub failed : Bool

pub record Host : Type 0 where
  pub connect : String → Option String
  pub run_cmd : String → String → CmdResult

abbrev pub has_error : CmdResult → Bool
has_error r = not (ite (String_discrete r.stderr "") true false) || r.failed

pub record Script : Type 0 where
  pub text : String
  pub output : Option String

-- `recv`: the script, and the output.
unfoldable pub recv : Script → String → Script × String
recv m result = (record m { output = some result }, result)

unfoldable pub recv_all : String → List Script → List String
unfolding recv
recv_all message [] = []
recv_all message (s ∷ scripts) = (recv s message).1 ∷ recv_all message scripts

-- The loop over the commands: `HasError(true)` ends the process where a command fails, which is none.
unfoldable pub run_all : Host → String → List Script → Option (List String)
unfolding recv
run_all host ip [] = some []
run_all host ip (s ∷ scripts) =
    let ret = host.run_cmd ip s.text in
    let rest = run_all host ip scripts in
    if has_error ret
    then none
    else elim rest [ none ↦ none | some outputs ↦ some ((recv s ret.stdout).1 ∷ outputs) ]

unfoldable pub remote_exec : Host → String → List Script → Option (List String)
unfolding recv_all run_all
remote_exec host ip scripts = elim (host.connect (Text.◌++◌ ip ":port")) [
  | some err ↦ some (
      recv_all (Text.◌++◌ "connect to host " (Text.◌++◌ ip (Text.◌++◌ " failed. err=" err)))
        scripts)
  | none ↦ run_all host ip scripts
]

-- The error, which there never is.
unfoldable pub update_result : String → List String → Option String
update_result ip [] = none
update_result ip (o ∷ outputs) = none

pub data Ended : Type 0 where
  exited : Ended
  returned : Option String → Ended

unfoldable pub exec : Host → Payload → Ended
unfolding decode_job remote_exec update_result
exec host job_data = elim (decode_job job_data) [
  | none ↦ returned (some "data is invalid")
  | some ip ↦ elim (remote_exec host ip (record { text = "echo 'hello!'"; output = none } ∷ [])) [
    | none ↦ exited
    | some outputs ↦ returned (update_result ip outputs)
  ]
]

-- `clock i` is the time at the address `i`; `f` stands for `Exec`.
unfoldable pub build_tasks : (clock : ℕ → ℕ) (f i : ℕ) → List String → List (Task Payload)
build_tasks clock f i [] = []
build_tasks clock f i (ip ∷ ips) =
    record {
      id = clock i;
      f = f;
      payload = job ip;
      need_retry = true;
      retry_times = 0;
      retry_limit = 3;
    }
    ∷ build_tasks clock f (i + 1) ips

unfoldable pub task_build : (clock : ℕ → ℕ) (f : ℕ) → Payload → Option (List (Task Payload))
unfolding build_tasks
task_build clock f (job _) = none
task_build clock f (ip_list ips) = some (build_tasks clock f 0 ips)
task_build clock f anything = none
