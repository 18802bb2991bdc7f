-- ===== src/Ssh/Commands.antt =====
-- ssh/client.go: `Cmd` with its connection, and the commands that it runs. What the library ssh, the
-- network and the file with the key answer is an argument; a timeout that is not positive is 0.
use own_x_go.Base.{
  ℕ, zero, suc, ◌≡◌, refl, String, String_discrete, List, [], ◌∷◌, ◌++◌, Option, none, some, ite,
  Bool, true, false, if◌then◌else◌, not, ◌||◌, is_some, arith,
}

-- `client` says that the field is not nil.
pub record Cmd : Type 0 where
  pub addr : String
  pub username : String
  pub password : String
  pub key_file : String
  pub client : Bool
  pub connect_timeout : ℕ
  pub io_timeout : ℕ

-- In seconds.
unfoldable pub new_cmd : String → Cmd
new_cmd addr = record {
  addr = addr;
  username = "root";
  password = "";
  key_file = "";
  client = false;
  connect_timeout = 10;
  io_timeout = 10;
}

unfoldable pub user : String → Cmd → Cmd
user username c = record c { username = username }

unfoldable pub password : String → Cmd → Cmd
password word c = record c { password = word }

unfoldable pub key_file : String → Cmd → Cmd
key_file file c = record c { key_file = file }

unfoldable pub connect_timeout : ℕ → Cmd → Cmd
connect_timeout zero c = c
connect_timeout (suc t) c = record c { connect_timeout = suc t }

unfoldable pub io_timeout : ℕ → Cmd → Cmd
io_timeout zero c = c
io_timeout (suc t) c = record c { io_timeout = suc t }

pub data AuthMethod : Type 0 where
  by_password : (password : String) → AuthMethod
  by_key : (file : String) → AuthMethod

module _ {E : Type 0} where
  -- With the error of the file of the key, if it has one.
  unfoldable pub gen_auth_method : (String → Option E) → Cmd → List AuthMethod × Option E
  gen_auth_method key_error c =
      let first = ite (String_discrete c.password "") [] (by_password c.password ∷ []) in
      ite (String_discrete c.key_file "") (first, none)
        (elim (key_error c.key_file) [
          | none ↦ (first ++ (by_key c.key_file ∷ []), none)
          | some e ↦ ([], some e)
        ])

  -- `Connect`, with the errors of the key, the dial and the handshake: no `Cmd` is nil.
  unfoldable pub connect : (String → Option E) → Option E → Option E → Cmd → Option Cmd × Option E
  unfolding gen_auth_method
  connect key_error dial handshake c = elim (gen_auth_method key_error c).1 [
    | some e ↦ (some c, some e)
    | none ↦ elim dial [
      | some e ↦ (none, some e)
      | none ↦ elim handshake [
        | some e ↦ (none, some e)
        | none ↦ (some (record c { client = true }), none)
      ]
    ]
  ]

  -- `Close`, with the error of the client.
  unfoldable pub close : Option E → Cmd → Cmd
  close none c = if c.client then record c { client = false } else c
  close (some e) c = c

  -- `Read` and `Write` of `Conn`, with the error of the deadline and what the connection answers.
  unfoldable pub with_deadline : Option E → ℕ × Option E → ℕ × Option E
  with_deadline none answer = answer
  with_deadline (some e) answer = (0, some e)

-- What a session answers; `run` and `wait` give the end of the command, `stdout` and `stderr` what it
-- printed, without a line break at the end.
pub record Session (E : Type 0) : Type 0 where
  pub new_session : Option E
  pub stdin_pipe : Option E
  pub shell : Option E
  pub send : String → Option E
  pub close_stdin : Option E
  pub wait : Option E
  pub run : Option E
  pub stdout : String
  pub stderr : String

pub record Result (E : Type 0) : Type 0 where
  pub command : String
  pub stdout : String
  pub stderr : String
  pub err : Option E

module _ {E : Type 0} where
  abbrev pub failed : String → E → Result E
  failed command e = record { command = command; stdout = ""; stderr = ""; err = some e }

  abbrev pub ended : String → Session E → Option E → Result E
  ended command s err = record {
    command = command;
    stdout = s.stdout;
    stderr = s.stderr;
    err = err;
  }

  unfoldable pub run_cmd : String → Session E → Result E
  run_cmd command s = elim s.new_session [
    | some e ↦ failed command e
    | none ↦ ended command s s.run
  ]

  -- The loop over the variables, on the lines that set them: the lines that are sent, and the error that
  -- ends it.
  unfoldable pub export_all : (String → Option E) → Bool → List String → List String × Option E
  export_all send must_env [] = ([], none)
  export_all send must_env (line ∷ lines) =
      let (sent, err) = export_all send must_env lines in
      elim (send line) [
        | none ↦ (line ∷ sent, err)
        | some e ↦ if must_env then ([], some e) else (sent, err)
      ]

  abbrev pub send_command : String → Session E → List String → Result E × List String
  send_command command s sent = elim (s.send command) [
    | some e ↦ (failed command e, sent)
    | none ↦ (
      elim s.close_stdin [ some e ↦ failed command e | none ↦ ended command s s.wait ],
      sent ++ (command ∷ []),
    )
  ]

  abbrev pub in_shell : String → Session E → List String × Option E → Result E × List String
  in_shell command s (sent, some e) = (failed command e, sent)
  in_shell command s (sent, none) = send_command command s sent

  -- `RunCmdWithEnv`, with the lines that the shell has been sent.
  unfoldable pub run_cmd_with_env : String → List String → Bool → Session E → Result E × List String
  unfolding run_cmd export_all
  run_cmd_with_env command [] must_env s = (run_cmd command s, [])
  run_cmd_with_env command (line ∷ lines) must_env s = elim s.new_session [
    | some e ↦ (failed command e, [])
    | none ↦ elim s.stdin_pipe [
      | some e ↦ (failed command e, [])
      | none ↦ elim s.shell [
        | some e ↦ (failed command e, [])
        | none ↦ in_shell command s (export_all s.send must_env (line ∷ lines))
      ]
    ]
  ]

  -- `HasError`, of which the exit of the process with `printDetailWhenError` is left out.
  unfoldable pub has_error : Result E → Bool
  has_error r = not (ite (String_discrete r.stderr "") true false) || is_some r.err

  -- `ErrInfo`, with the text of an error.
  unfoldable pub err_info : (E → String) → Result E → String
  err_info text r =
      ite (String_discrete r.stderr "") (elim r.err [ some e ↦ text e | none ↦ r.stdout ]) r.stderr

  unfoldable pub is_exit0 : Result E → Bool
  is_exit0 r = not (is_some r.err)

  export_all-all :
      (send : String → Option E) (lines : List String)
      → (export_all send true lines).1 ≡ none
      → (export_all send true lines).0 ≡ lines
  unfolding export_all
  export_all-all send [] h = refl
  export_all-all send (line ∷ lines) h = ground (arith, export_all-all send lines)

  -- With `mustEnv`, a command that ends without an error was sent after every line that sets a
  -- variable, in their order.
  pub run_cmd_with_env-exports :
      (command line : String) (lines : List String) (s : Session E)
      → (run_cmd_with_env command (line ∷ lines) true s).0.err ≡ none
      → (run_cmd_with_env command (line ∷ lines) true s).1 ≡ (line ∷ lines) ++ (command ∷ [])
  unfolding run_cmd_with_env
  run_cmd_with_env-exports command line lines s h =
      ground (arith, export_all-all s.send (line ∷ lines))
