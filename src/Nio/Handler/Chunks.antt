-- ===== src/Nio/Handler/Chunks.antt =====
-- `readIo` of nio/handler.go on a stream that comes in pieces.
use own_x_go.Base.{
  if◌then◌else◌, if◌then◌else◌, ◌==◌, ◌==◌, ◌^◌, ℕ, ◌+◌, ◌≡◌, refl, ap, sym, ◌∙◌, List, [], ◌∷◌,
  ◌++◌, map, Option, some, Bool, false, length, arith, append_assoc, append-nil, ◌<◌, suc, none,
}
use own_x_go.Nio.Handler.{
  and_first, Read, got, Reader, Drained, drain, took, on_read, read_io, new_reader, new_msg, hand,
  called, started,
}
use own_x_go.Nio.Handler.Drains.{
  drain_on, drain_stop, drain_unique, drain_settles, drain_ends, drain-append,
}
use own_x_go.Nio.Codec.{decode, Body, Msg, encode, body_bytes, read_header, create_msg}
use own_x_go.Nio.Codec.Frames.{Compresses, content, decode-encode}

abbrev pub concat : List (List ℕ) → List ℕ
concat [] = []
concat (c ∷ cs) = c ++ concat cs

-- the rounds in which the socket is open and the pieces come
abbrev pub reads : List (List ℕ) → List (Bool × Read)
reads cs = map (λ c. (false, got c)) cs

map-append : {A B : Type 0} (f : A → B) (xs ys : List A) → map f (xs ++ ys) ≡ map f xs ++ map f ys
map-append f [] ys = refl
map-append f (x ∷ xs) ys = ap (◌∷◌ (f x)) (map-append f xs ys)

module _ {V : Type 0} (deflate inflate : List ℕ → Option (List ℕ)) (json : V → Option (List ℕ))
    (z ordered : Bool) where
  -- the messages that the loop has received, and what it is left with
  Received : Reader V → Drained V → Reader V → Type 0
  Received r v s =
      (s.received ≡ r.received ++ map (hand ordered) v.0)
      × (s.last_msg ≡ v.1)
      × (s.buf ≡ v.2)
      × (s.ended ≡ false)

  -- no whole message is waiting in the buffer
  IsSettled : Reader V → Type 0
  IsSettled r = drain deflate inflate json z 1 r.last_msg r.buf ≡ some ([], r.last_msg, r.buf)

  on_read_lem :
      (x : ℕ) (bytes : List ℕ) (r : Reader V)
      → (u : Drained V) × (drain deflate inflate json z
            (length (r.buf ++ (x ∷ bytes)) + 2)
            r.last_msg
            (r.buf ++ (x ∷ bytes))
          ≡ some u)
        × (on_read deflate inflate json z ordered (got (x ∷ bytes)) r
            ≡ some (record r {
              fail_times = 0;
              received = r.received ++ map (hand ordered) u.0;
              last_msg = u.1;
              buf = u.2;
            }))
  unfolding on_read
  on_read_lem x bytes r =
      let buf = r.buf ++ (x ∷ bytes) in
      let (u, e) =
        drain_ends deflate inflate json z (length buf + 2) r.last_msg buf (omega arith) in
      (u, e, ap (took ordered (record r { fail_times = 0 })) e)

  on_read_nothing :
      (r : Reader V)
      → on_read deflate inflate json z ordered (got []) r ≡ some (record r { fail_times = 0 })
  unfolding on_read
  on_read_nothing r = refl

  read_io_step :
      (c : List ℕ) (ds : List (Bool × Read)) (r s : Reader V)
      → r.ended ≡ false
      → on_read deflate inflate json z ordered (got c) r ≡ some s
      → read_io deflate inflate json z ordered ((false, got c) ∷ ds) r
        ≡ read_io deflate inflate json z ordered ds s
  unfolding read_io
  read_io_step c ds r s e h = rw (h, e)

  -- However a stream is cut into pieces, the loop receives the messages that the inner loop takes off
  -- the whole of it, and is left with the same message begun and the same bytes.
  read_io_cut :
      (cs : List (List ℕ)) (r : Reader V)
      → r.ended ≡ false
      → IsSettled r
      → (k : ℕ) × (v : Drained V) × (s : Reader V) × (drain deflate inflate json z k r.last_msg
            (r.buf ++ concat cs)
          ≡ some v)
        × (read_io deflate inflate json z ordered (reads cs) r ≡ some s)
        × Received r v s
  unfolding read_io IsSettled Received
  read_io_cut [] r e h = (
    1,
    ([], r.last_msg, r.buf),
    r,
    ap (drain deflate inflate json z 1 r.last_msg) (append-nil r.buf) ∙ h,
    refl,
    (sym (append-nil r.received), refl, refl, e),
  )
  read_io_cut ([] ∷ cs) r e h =
      let d = record r { fail_times = 0 } in
      let (k, v, s, a, b, t) = read_io_cut cs d e h in
      (k, v, s, a, read_io_step [] (reads cs) r d e (on_read_nothing r) ∙ b, t)
  read_io_cut ((x ∷ c) ∷ cs) r e h =
      let (u, f, g) = on_read_lem x c r in
      let d = record r {
        fail_times = 0;
        received = r.received ++ map (hand ordered) u.0;
        last_msg = u.1;
        buf = u.2;
      } in
      let j = length (r.buf ++ (x ∷ c)) + 2 in
      let (k, v, s, a, b, t) =
        read_io_cut cs d e
          (drain_settles deflate inflate json z j r.last_msg (r.buf ++ (x ∷ c)) u f) in
      let w =
        drain-append deflate inflate json z j k (j + k) r.last_msg (r.buf ++ (x ∷ c)) (concat cs) u
          v (omega arith) f a in
      (
        j + k,
        (u.0 ++ v.0, v.1, v.2),
        s,
        ap (drain deflate inflate json z (j + k) r.last_msg)
              (sym (append_assoc r.buf (x ∷ c) (concat cs)))
            ∙ w,
        read_io_step (x ∷ c) (reads cs) r d e g ∙ b,
        (
          t.0
              ∙ append_assoc r.received (map (hand ordered) u.0) (map (hand ordered) v.0)
              ∙ ap (◌++◌ r.received) (sym (map-append (hand ordered) u.0 v.0)),
          t.1,
          t.2,
          t.3,
        ),
      )

  -- the bytes that a sequence of messages, each with a flag and a body, is sent as
  abbrev pub stream : List (ℕ × Option (Body V)) → List ℕ
  stream [] = []
  stream ((f, b) ∷ ms) = (encode deflate inflate json z (create_msg f b)).1 ++ stream ms

  -- and the messages that are read from them
  abbrev pub as_read : List (ℕ × Option (Body V)) → List (Msg V)
  as_read [] = []
  as_read ((f, b) ∷ ms) =
      let c = content deflate inflate json b in
      record {
        flag = f;
        body = none;
        length_field = (encode deflate inflate json z (create_msg f b)).0.length_field;
        payload = if length c == 0 then none else some c;
      }
      ∷ as_read ms

  abbrev pub AreSmall : List (ℕ × Option (Body V)) → Type 0
  AreSmall [] = Unit {0}
  AreSmall ((f, b) ∷ ms) = (length (body_bytes deflate inflate json z b) + 1 < 2 ^ 32) × AreSmall ms

  drain-stream :
      (law : Compresses deflate inflate json) (ms : List (ℕ × Option (Body V)))
      → AreSmall ms
      → drain deflate inflate json z (suc (length ms)) new_msg (stream ms)
        ≡ some (as_read ms, new_msg, [])
  unfolding decode read_header create_msg
  drain-stream law [] h = drain_stop deflate inflate json z 0 new_msg new_msg [] [] refl
  drain-stream law ((f, b) ∷ ms) h =
      drain_on deflate inflate json z (suc (length ms)) new_msg _ _ (stream ms)
        (decode-encode deflate inflate json law z f b (stream ms) h.0)
      ∙ ap (and_first _) (drain-stream law ms h.1)

  -- Messages with frames shorter than 2 ^ 32 that are encoded and sent one after the other are all read
  -- by the loop, each once and in order, however the stream is cut into pieces, and nothing is left:
  -- where the socket is ordered, the loop calls the handler with each, and otherwise it starts a
  -- goroutine for each, of which nothing more is said. The deflation is taken to succeed, with some
  -- bytes that the inflation turns back.
  pub read_io-encode :
      (law : Compresses deflate inflate json) (ms : List (ℕ × Option (Body V))) (cs : List (List ℕ))
      → AreSmall ms
      → concat cs ≡ stream ms
      → (s : Reader V) × (read_io deflate inflate json z ordered (reads cs) new_reader ≡ some s)
        × (s.received ≡ map (λ m. if ordered then called m else started m) (as_read ms))
        × (s.buf ≡ [])
        × (s.ended ≡ false)
  unfolding new_reader IsSettled Received
  read_io-encode law ms cs h e =
      let (k, v, s, a, b, t) = read_io_cut cs new_reader refl (drain-stream law [] tt) in
      let a' = ap (drain deflate inflate json z k new_msg) (sym e) ∙ a in
      let u =
        drain_unique deflate inflate json z k (suc (length ms)) new_msg (stream ms) v
          (as_read ms, new_msg, []) a' (drain-stream law ms h) in
      (
        s,
        b,
        t.0 ∙ ap (λ (t : Drained V). map (hand ordered) t.0) u,
        t.2 ∙ ap (λ (t : Drained V). t.2) u,
        t.3,
      )
