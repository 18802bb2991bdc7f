-- ===== src/Nio/Session.antt =====
-- nio/session.go, and the ids of nio/acceptor.go and nio/client.go: a session with its attributes, its
-- writes and its close, and the eight bytes by which a client learns its id.
pub mod Ids
use own_x_go.Base.{
  ℕ, zero, suc, ◌+◌, ◌*◌, ◌-◌, ◌/◌, ◌%◌, ◌^◌, ◌==◌, if◌then◌else◌, String, String_discrete, List,
  [], ◌∷◌, ◌++◌, length, Option, none, some, Bool, true, false, lookup, insert,
}
use own_x_go.Nio.Handler.{Read, got, failed}

-- `attribute` is none while the map is nil; `connected` says that `connection` is not nil; `written` is
-- what has been written to it. The fields for the codec and the owner are arguments where they count.
pub record Session (A : Type 0) : Type 0 where
  pub id : ℕ
  pub is_client : Bool
  pub attribute : Option (List (String × A))
  pub connected : Bool
  pub written : List ℕ

module _ {A : Type 0} where
  abbrev pub or_empty : Option (List (String × A)) → List (String × A)
  or_empty none = []
  or_empty (some m) = m

  unfoldable pub set_attribute : String → A → Session A → Session A
  unfolding insert
  set_attribute k v s = record s {
    attribute = some (insert String_discrete k v (or_empty s.attribute));
  }

  unfoldable pub get_attribute : String → Session A → Option A
  unfolding lookup
  get_attribute k s = elim s.attribute [ none ↦ none | some m ↦ lookup String_discrete k m ]

  -- `Write` and `WriteMsg` of the bytes of a message; `takes` says that the connection takes them. The
  -- result is true where there is no error.
  unfoldable pub write : Bool → List ℕ → Session A → Session A × Bool
  write takes bytes s =
      if s.connected
      then (if takes then (record s { written = s.written ++ bytes }, true) else (s, false))
      else (s, false)

-- `binary.Write` and `binary.Read` of an int64 that is not negative, big-endian.
unfoldable pub put_int64 : ℕ → List ℕ
put_int64 n =
    n / 72057594037927936 % 256
    ∷ n / 281474976710656 % 256
    ∷ n / 1099511627776 % 256
    ∷ n / 4294967296 % 256
    ∷ n / 16777216 % 256
    ∷ n / 65536 % 256
    ∷ n / 256 % 256
    ∷ n % 256
    ∷ []

unfoldable pub int64_from : ℕ → List ℕ → ℕ
int64_from acc [] = acc
int64_from acc (b ∷ bs) = int64_from (acc * 256 + b) bs

pub data Synced : Type 0 where
  synced : (id : ℕ) (unread : List Read) → Synced
  sync_failed : Synced
  waiting : Synced

-- The loop of `syncSessionId`: `need` bytes are still to come, and `Read` gives at most so many.
unfoldable pub sync_loop : ℕ → List ℕ → List Read → Synced
unfolding int64_from
sync_loop need data_so_far [] = waiting
sync_loop need data_so_far (failed e ∷ ds) = sync_failed
sync_loop need data_so_far (got b ∷ ds) =
    let now = data_so_far ++ b in
    let rest = sync_loop (need - length b) now ds in
    if need - length b == 0 then synced (int64_from 0 now) ds else rest

unfoldable pub sync_session_id : List Read → Synced
unfolding sync_loop
sync_session_id ds = sync_loop 8 [] ds

-- nio/client.go: a connector. `session` is the id of its session, none before `Connect`; `callbacks` is
-- what the handler has been called with, the last first, true for `OnSessionConnected`, false for
-- `OnSessionClosed`.
pub record SocketConnector : Type 0 where
  pub closed : Bool
  pub session : Option ℕ
  pub callbacks : List (Bool × ℕ)
  pub close_calls : ℕ

-- `Connect`, with whether the dial succeeds, what comes on the connection, and the counter of
-- sessions, which it also returns. The last part is true where there is no error; none is a wait
-- that does not end.
unfoldable pub connect :
    Bool → List Read → ℕ → SocketConnector → Option (SocketConnector × ℕ × Bool)
unfolding sync_session_id
connect false ds n c = some (c, n, false)
connect true ds n c = elim (sync_session_id ds) [
  | synced i unread ↦
      some (record c { session = some i; callbacks = (true, i) ∷ c.callbacks }, n + 1, true)
  | sync_failed ↦
      some (record c { session = some (n + 1); close_calls = c.close_calls + 1 }, n + 1, false)
  | waiting ↦ none
]

-- `CreateConnector`, with whether there is a handler; none is the error.
unfoldable pub create_connector : Bool → Option SocketConnector
create_connector handled =
    if handled
    then some (record { closed = false; session = none; callbacks = []; close_calls = 0 })
    else none

-- At most `left` calls of `Close` of the socket, until one has no error: how many there are.
unfoldable pub close_socket : ℕ → List Bool → ℕ
close_socket zero ds = 0
close_socket (suc left) [] = 0
close_socket (suc left) (true ∷ ds) = 1
close_socket (suc left) (false ∷ ds) = suc (close_socket left ds)

-- `Close` of a connector, with what the socket answers; none is the fault where there is no session.
unfoldable pub close_connector : List Bool → SocketConnector → Option SocketConnector
unfolding close_socket
close_connector ds c = elim c.session [
  | none ↦ none
  | some i ↦ some (record c {
    closed = true;
    callbacks = (false, i) ∷ c.callbacks;
    close_calls = c.close_calls + close_socket 3 ds;
  })
]
