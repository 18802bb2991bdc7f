-- ===== src/Nio/Handler.antt =====
-- nio/handler.go: `readIo`, the loop that reads a connection, with the default codec. What `Read`
-- returns, and whether the socket is found closed before it, is the input, one entry for each round.
-- The handler has all its callbacks.
pub mod Drains
pub mod Chunks
pub mod Failures
use own_x_go.Base.{
  ℕ, zero, suc, ◌+◌, leb, List, [], ◌∷◌, ◌++◌, Option, none, some, Bool, true, false, if◌then◌else◌,
  length, map,
}
use own_x_go.Nio.Codec.{Msg, create_msg, decode}

-- The errors that the switch tells apart.
pub data Cause : Type 0 where
  end_of_file by_remote closed_network other_error : Cause

pub data Read : Type 0 where
  got : List ℕ → Read
  failed : Cause → Read

-- What the loop does with a message: it calls `OnMessageReceived` itself, or starts a goroutine that does.
-- When a goroutine runs, and before which others, is left open.
pub data Handed (V : Type 0) : Type 0 where
  called : (msg : Msg V) → Handed V
  started : (msg : Msg V) → Handed V

-- `received` is what the loop has done with the messages, in order; `exceptions` counts the goroutines
-- that call `OnException`, and `closes` those of `session.Close`; `ended` says that the loop has returned.
pub record Reader (V : Type 0) : Type 0 where
  pub fail_times : ℕ
  pub last_msg : Msg V
  pub buf : List ℕ
  pub received : List (Handed V)
  pub exceptions : ℕ
  pub closes : ℕ
  pub ended : Bool

abbrev pub Drained : Type 0 → Type 0
Drained V = List (Msg V) × Msg V × List ℕ

module _ {V : Type 0} where
  abbrev pub new_msg : Msg V
  new_msg = create_msg 0 none

  unfoldable pub new_reader : Reader V
  new_reader = record {
    fail_times = 0;
    last_msg = new_msg;
    buf = [];
    received = [];
    exceptions = 0;
    closes = 0;
    ended = false;
  }

  abbrev pub close_session : Reader V → Reader V
  close_session r = record r { closes = r.closes + 1; ended = true }

  -- An error that is not one of a closed connection: the third in a row closes the session.
  unfoldable pub read_failed : Reader V → Reader V
  read_failed r =
      let s = record r { fail_times = r.fail_times + 1; exceptions = r.exceptions + 1 } in
      if leb 3 s.fail_times then close_session s else s

  unfoldable pub on_error : Cause → Reader V → Reader V
  unfolding read_failed
  on_error other_error r = read_failed r
  on_error end_of_file r = close_session r
  on_error by_remote r = close_session r
  on_error closed_network r = close_session r

  abbrev pub and_first : Msg V → Option (Drained V) → Option (Drained V)
  and_first m none = none
  and_first m (some (ms, n, r)) = some (m ∷ ms, n, r)

  -- The test of `socket.ordered`.
  abbrev pub hand : Bool → Msg V → Handed V
  hand ordered m = if ordered then called m else started m

  abbrev pub took : Bool → Reader V → Option (Drained V) → Option (Reader V)
  took ordered r none = none
  took ordered r (some (ms, n, b)) =
      some (record r { received = r.received ++ map (hand ordered) ms; last_msg = n; buf = b })

  abbrev pub and_then : Option (Reader V) → (Reader V → Option (Reader V)) → Option (Reader V)
  and_then none f = none
  and_then (some r) f = f r

module _ {V : Type 0} (deflate inflate : List ℕ → Option (List ℕ)) (json : V → Option (List ℕ))
    (z : Bool) where
  -- The inner loop: messages are taken off the buffer until one is not complete. None: out of rounds.
  unfoldable pub drain : ℕ → Msg V → List ℕ → Option (Drained V)
  drain zero m buf = none
  drain (suc k) m buf =
      let (n, r, more) = decode deflate inflate json z m buf in
      elim more [ true ↦ and_first n (drain k new_msg r) | false ↦ some ([], n, r) ]

  unfoldable pub on_read : Bool → Read → Reader V → Option (Reader V)
  unfolding drain on_error
  on_read ordered (failed e) r = some (on_error e r)
  on_read ordered (got []) r = some (record r { fail_times = 0 })
  on_read ordered (got (x ∷ bytes)) r =
      let buf = r.buf ++ (x ∷ bytes) in
      took ordered (record r { fail_times = 0 }) (drain (length buf + 2) r.last_msg buf)

  unfoldable pub read_io : Bool → List (Bool × Read) → Reader V → Option (Reader V)
  unfolding on_read
  read_io ordered [] r = some r
  read_io ordered ((closed, d) ∷ ds) r =
      if r.ended
      then some r
      else if closed
      then some (record r { ended = true })
      else and_then (on_read ordered d r) (read_io ordered ds)
