-- ===== src/Nio/Acceptor.antt =====
-- nio/acceptor.go: the acceptor with its sessions. A round of the loop of `handlerConnection`, a call of
-- `CloseSession` and one of `Close` are a step each; sockets are what they answer.
pub mod Histories
use own_x_go.Base.{
  ℕ, zero, suc, ◌+◌, ◌-◌, List, [], ◌∷◌, ◌++◌, Bool, true, false, if◌then◌else◌, ℕ_discrete, erase,
  has, length,
}

-- What `Close` of a socket answers, by what `CloseSession` tells apart.
pub data Closing : Type 0 where
  closes_well already_closed close_error : Closing

pub data Callback : Type 0 where
  on_connected : (id : ℕ) → Callback
  on_closed : (id : ℕ) → Callback

-- `session_id` is the counter of `handlerConnection`, and `accepting` says that its loop goes on;
-- `sessions` holds the ids of the map; `callbacks` is what the handler has been called with, the last
-- first; `close_calls` counts the calls of `Close` of sockets.
pub record SocketAcceptor : Type 0 where
  pub closed : Bool
  pub accepting : Bool
  pub session_id : ℕ
  pub sessions : List ℕ
  pub callbacks : List Callback
  pub close_calls : ℕ

unfoldable pub create_acceptor : SocketAcceptor
create_acceptor = record {
  closed = false;
  accepting = false;
  session_id = 0;
  sessions = [];
  callbacks = [];
  close_calls = 0;
}

-- `Open`, with whether it can listen, up to its loop, whose counter starts at 0; the result is true where
-- there is no error.
unfoldable pub open_acceptor : Bool → SocketAcceptor → SocketAcceptor × Bool
open_acceptor listens a =
    if listens then (record a { accepting = true; session_id = 0 }, true) else (a, false)

unfoldable pub session_count : SocketAcceptor → ℕ
session_count a = length a.sessions

-- A map has a key once.
unfoldable pub add_session : ℕ → SocketAcceptor → SocketAcceptor
unfolding has
add_session i a = record a {
  sessions = if has ℕ_discrete i a.sessions then a.sessions else i ∷ a.sessions;
}

unfoldable pub remove_session : ℕ → SocketAcceptor → SocketAcceptor
unfolding erase
remove_session i a = record a { sessions = erase ℕ_discrete i a.sessions }

-- What `Accept` brings: an error, or a connection with whether it takes the id that is sent.
pub data Arrival : Type 0 where
  accept_error : Arrival
  connection : (takes_id : Bool) → Arrival

unfoldable pub accept_round : Arrival → SocketAcceptor → SocketAcceptor
unfolding add_session
accept_round accept_error a = record a { accepting = false }
accept_round (connection false) a =
    let b = record a { session_id = a.session_id + 1 } in
    record b { session_id = b.session_id - 1; close_calls = b.close_calls + 1 }
accept_round (connection true) a =
    let b = record a { session_id = a.session_id + 1 } in
    let c = add_session b.session_id b in
    record c { callbacks = on_connected b.session_id ∷ c.callbacks }

unfoldable pub handler_connection : Arrival → SocketAcceptor → SocketAcceptor
unfolding accept_round
handler_connection d a =
    if a.accepting
    then (if a.closed then record a { accepting = false } else accept_round d a)
    else a

-- The loops of at most three calls of `Close`: how many there are.
unfoldable pub close_connection : ℕ → List Closing → ℕ
close_connection zero ds = 0
close_connection (suc k) [] = 0
close_connection (suc k) (close_error ∷ ds) = suc (close_connection k ds)
close_connection (suc k) (_ ∷ ds) = 1

unfoldable pub close_listener : ℕ → List Closing → ℕ
close_listener zero ds = 0
close_listener (suc k) [] = 0
close_listener (suc k) (closes_well ∷ ds) = 1
close_listener (suc k) (_ ∷ ds) = suc (close_listener k ds)

unfoldable pub close_session : ℕ → List Closing → SocketAcceptor → SocketAcceptor
unfolding remove_session close_connection
close_session i ds a =
    let b = remove_session i a in
    record b {
      callbacks = on_closed i ∷ b.callbacks;
      close_calls = b.close_calls + close_connection 3 ds;
    }

-- `Close` calls the handler for every session, and leaves the sessions as they are.
unfoldable pub all_closed : List ℕ → List Callback → List Callback
all_closed [] cs = cs
all_closed (i ∷ is) cs = all_closed is (on_closed i ∷ cs)

unfoldable pub close_acceptor : List Closing → SocketAcceptor → SocketAcceptor
unfolding all_closed close_listener
close_acceptor ds a = record a {
  closed = true;
  callbacks = all_closed a.sessions a.callbacks;
  close_calls = a.close_calls + close_listener 3 ds;
}
