-- ===== src/Nio/Tests.antt =====
-- A codec whose compression puts a byte in front, and the theorems at it.
use own_x_go.Base.{
  ℕ, ◌+◌, ◌≡◌, ◌<◌, refl, List, [], ◌∷◌, ◌++◌, Option, none, some, true, false, arith, length, map,
}
use own_x_go.Nio.Codec.{
  Msg, Body, text, create_msg, encode, decode, body_bytes, gzip, to_byte, read_header, decode_body,
  uint32,
}
use own_x_go.Nio.Handler.{got, Reader, new_reader, read_io, started, new_msg}
use own_x_go.Nio.Handler.Chunks.{concat, reads, stream, as_read, AreSmall, read_io-encode}
use own_x_go.Nio.Handler.Failures.{failures, read_io-failures}
use own_x_go.Nio.Session.{put_int64, synced, sync_session_id}
use own_x_go.Nio.Session.Ids.{sync_session_id-put_int64}
use own_x_go.Nio.Acceptor.{connection, closes_well, create_acceptor, open_acceptor}
use own_x_go.Nio.Acceptor.Histories.{
  Event, arrives, session_closes, run, IsNumbered, run-IsNumbered,
}
use own_x_go.Nio.Codec.Frames.{decode-encode, decode-resumes, Compresses}

abbrev mark : List ℕ → Option (List ℕ)
mark b = some (1 ∷ b)

abbrev unmark : List ℕ → Option (List ℕ)
unmark [] = none
unmark (x ∷ b) = some b

abbrev no_json : ℕ → Option (List ℕ)
no_json v = none

mark-Compresses : Compresses mark unmark no_json
mark-Compresses = λ b h. (1 ∷ b, refl, omega arith, refl)

abbrev hello : Option (Body ℕ)
hello = some (text (104 ∷ 105 ∷ []))

small_frame : length (body_bytes mark unmark no_json true hello) + 1 < 4294967296
unfolding body_bytes gzip to_byte
small_frame = omega arith

decode-encode_example :
    decode mark unmark no_json true
      (create_msg 0 none)
      ((encode mark unmark no_json true (create_msg 14 hello)).1 ++ (9 ∷ []))
    ≡ (
      record { flag = 14; body = none; length_field = 4; payload = some (104 ∷ 105 ∷ []) },
      9 ∷ [],
      true,
    )
unfolding encode body_bytes gzip to_byte create_msg
decode-encode_example =
    decode-encode mark unmark no_json mark-Compresses true 14 hello (9 ∷ []) small_frame

-- The header has come, and one byte of two.
abbrev waiting : Msg ℕ
waiting = record { flag = 14; body = none; length_field = 3; payload = none }

waits :
    decode mark unmark no_json false (create_msg 0 none) (0 ∷ 0 ∷ 0 ∷ 3 ∷ 14 ∷ 104 ∷ [])
    ≡ (waiting, 104 ∷ [], false)
unfolding decode read_header decode_body uint32 create_msg
waits = refl

decode-resumes_example :
    decode mark unmark no_json false waiting (104 ∷ 105 ∷ [])
    ≡ decode mark unmark no_json false (create_msg 0 none) (0 ∷ 0 ∷ 0 ∷ 3 ∷ 14 ∷ 104 ∷ 105 ∷ [])
decode-resumes_example =
    decode-resumes mark unmark no_json false (create_msg 0 none) waiting
      (0 ∷ 0 ∷ 0 ∷ 3 ∷ 14 ∷ 104 ∷ []) (105 ∷ []) (104 ∷ []) waits

-- Two messages, the second without a body, in three pieces.
abbrev two_messages : List (ℕ × Option (Body ℕ))
two_messages = (14, hello) ∷ (13, none) ∷ []

abbrev pieces : List (List ℕ)
pieces = (0 ∷ 0 ∷ 0 ∷ []) ∷ (4 ∷ 14 ∷ 1 ∷ 104 ∷ 105 ∷ 0 ∷ []) ∷ (0 ∷ 0 ∷ 1 ∷ 13 ∷ []) ∷ []

pieces-stream : concat pieces ≡ stream mark unmark no_json true false two_messages
unfolding encode body_bytes gzip to_byte create_msg
pieces-stream = refl

small_messages : AreSmall mark unmark no_json true false two_messages
unfolding body_bytes gzip to_byte
small_messages = (omega arith, (omega arith, tt))

read_io-encode_example :
    (s : Reader ℕ) × (read_io mark unmark no_json true false (reads pieces) new_reader ≡ some s)
    × (s.received ≡ map started (as_read mark unmark no_json true false two_messages))
    × (s.buf ≡ [])
    × (s.ended ≡ false)
read_io-encode_example =
    read_io-encode mark unmark no_json true false mark-Compresses two_messages pieces small_messages
      pieces-stream

read_io-failures_example :
    (s : Reader ℕ) × (read_io mark unmark no_json true false
        (failures mark unmark no_json true false 5)
        (record new_reader { fail_times = 1 })
      ≡ some s)
    × (s.received ≡ [])
    × (s.buf ≡ [])
    × (s.last_msg ≡ new_msg)
    × (s.ended ≡ true)
    × (s.closes ≡ 1)
    × (s.exceptions ≡ 2)
unfolding new_reader
read_io-failures_example =
    read_io-failures mark unmark no_json true false 5 (record new_reader { fail_times = 1 }) refl
      (omega arith)

sends_258 : concat ((0 ∷ 0 ∷ 0 ∷ []) ∷ (0 ∷ 0 ∷ 0 ∷ 1 ∷ 2 ∷ []) ∷ []) ≡ put_int64 258
unfolding put_int64
sends_258 = refl

sync_session_id-put_int64_example :
    sync_session_id (got (0 ∷ 0 ∷ 0 ∷ []) ∷ got (0 ∷ 0 ∷ 0 ∷ 1 ∷ 2 ∷ []) ∷ got (9 ∷ []) ∷ [])
    ≡ synced 258 (got (9 ∷ []) ∷ [])
sync_session_id-put_int64_example =
    sync_session_id-put_int64 258 ((0 ∷ 0 ∷ 0 ∷ []) ∷ (0 ∷ 0 ∷ 0 ∷ 1 ∷ 2 ∷ []) ∷ [])
      (got (9 ∷ []) ∷ []) (omega arith) (omega arith, (omega arith, tt)) sends_258

abbrev history : List Event
history =
    arrives (connection true)
    ∷ arrives (connection false)
    ∷ arrives (connection true)
    ∷ session_closes 1 (closes_well ∷ [])
    ∷ []

run-IsNumbered_example : IsNumbered (run history (open_acceptor true create_acceptor).0)
run-IsNumbered_example = run-IsNumbered history
