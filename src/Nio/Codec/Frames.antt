-- ===== src/Nio/Codec/Frames.antt =====
-- Frames: what is encoded is decoded again, however the bytes arrive.
use own_x_go.Base.{
  ℕ, suc, ◌+◌, ◌-◌, ◌/◌, ◌%◌, ◌^◌, ◌≡◌, ◌≤◌, ◌<◌, refl, ap, ◌∙◌, sym, ◌==◌, ltb, leb, if◌then◌else◌,
  List, [], ◌∷◌, ◌++◌, Option, none, some, Bool, true, false, length, arith, Option-cases, inl, inr,
  take-append, drop-append, ℕ_discrete, length-append,
}
use own_x_go.Nio.Codec.{
  Msg, Body, put_uint32, uint32, create_msg, read_header, gzip, un_gzip, body_bytes, encode,
  decompress, decode_body, decode, or_nothing, to_byte,
}

uint32-put_uint32 :
    (n : ℕ)
    → n < 2 ^ 32
    → uint32 (n / 16777216 % 256) (n / 65536 % 256) (n / 256 % 256) (n % 256) ≡ n
unfolding uint32
uint32-put_uint32 n h = omega (arith, h)

module _ {V : Type 0} where
  read_header-known : (m : Msg V) (p : List ℕ) → 0 < m.length_field → read_header m p ≡ some (m, p)
  unfolding read_header
  read_header-known m [] k = ground arith
  read_header-known m (a ∷ []) k = ground arith
  read_header-known m (a ∷ b ∷ []) k = ground arith
  read_header-known m (a ∷ b ∷ c ∷ []) k = ground arith
  read_header-known m (a ∷ b ∷ c ∷ d ∷ []) k = ground arith
  read_header-known m (a ∷ b ∷ c ∷ d ∷ f ∷ p) k = ground arith

  read_header-new :
      (m h : Msg V) (p q r : List ℕ)
      → m.length_field ≡ 0
      → read_header m p ≡ some (h, r)
      → read_header m (p ++ q) ≡ some (h, r ++ q)
  unfolding read_header
  read_header-new m h [] q r z e = absurd (ground (arith, z, e))
  read_header-new m h (a ∷ []) q r z e = absurd (ground (arith, z, e))
  read_header-new m h (a ∷ b ∷ []) q r z e = absurd (ground (arith, z, e))
  read_header-new m h (a ∷ b ∷ c ∷ []) q r z e = absurd (ground (arith, z, e))
  read_header-new m h (a ∷ b ∷ c ∷ d ∷ []) q r z e = absurd (ground (arith, z, e))
  read_header-new m h (a ∷ b ∷ c ∷ d ∷ f ∷ p) q r z e = ground (arith, z, e)

  pub read_header-append :
      (m h : Msg V) (p q r : List ℕ)
      → read_header m p ≡ some (h, r)
      → read_header m (p ++ q) ≡ some (h, r ++ q)
  read_header-append m h p q r e = elim (ℕ_discrete m.length_field 0) [
    | yes z ↦ read_header-new m h p q r z e
    | no n ↦
        let k : 0 < m.length_field = omega (arith, n) in
        ground (arith, read_header-known m p k, read_header-known m (p ++ q) k, e)
  ]

module _ {V : Type 0} (deflate inflate : List ℕ → Option (List ℕ))
    (json : V → Option (List ℕ)) where
  -- A body that is not there yet leaves everything as it is.
  decode_body-waits :
      (z : Bool) (m n : Msg V) (p r : List ℕ)
      → decode_body deflate inflate json z m p ≡ (n, r, false)
      → (m ≡ n) × (p ≡ r) × (1 < m.length_field)
  unfolding decode_body
  decode_body-waits z m n p r e = ground (arith, e)

  pub decode-none :
      (z : Bool) (m : Msg V) (p : List ℕ)
      → read_header m p ≡ none
      → decode deflate inflate json z m p ≡ (m, p, false)
  unfolding decode
  decode-none z m p f = rw (f, decode) refl

  pub decode-some :
      (z : Bool) (m h : Msg V) (p s : List ℕ)
      → read_header m p ≡ some (h, s)
      → decode deflate inflate json z m p ≡ decode_body deflate inflate json z h s
  unfolding decode
  decode-some z m h p s f = rw (f, decode) refl

  -- Where the bytes so far are not enough, they are kept: to decode what has come and then again
  -- with what comes next is to decode all of it at once, wherever the stream is cut.
  pub decode-resumes :
      (z : Bool) (m n : Msg V) (p q r : List ℕ)
      → decode deflate inflate json z m p ≡ (n, r, false)
      → decode deflate inflate json z n (r ++ q) ≡ decode deflate inflate json z m (p ++ q)
  unfolding decode
  decode-resumes z m n p q r e = elim (Option-cases (read_header m p)) [
    | inl f ↦
        let g = sym (decode-none z m p f) ∙ e in
        ap (λ (t : Msg V × List ℕ × Bool). decode deflate inflate json z t.0 (t.1 ++ q)) (sym g)
    | inr ((h, s), f) ↦
        let (a, b, k) = decode_body-waits z h n s r (sym (decode-some z m h p s f) ∙ e) in
        ap (λ (t : Msg V). decode deflate inflate json z t (r ++ q)) (sym a)
        ∙ ap (λ (t : List ℕ). decode deflate inflate json z h (t ++ q)) (sym b)
        ∙ decode-some z h h (s ++ q) (s ++ q) (read_header-known h (s ++ q) (omega (arith, k)))
        ∙ sym (decode-some z m h (p ++ q) (s ++ q) (read_header-append m h p q s f))
  ]

  -- What the message carries: the bytes of its body, none without one.
  abbrev pub content : Option (Body V) → List ℕ
  content none = []
  content (some b) = to_byte deflate inflate json b

  -- `deflate` succeeds on bytes, with some bytes that `inflate` turns back.
  abbrev pub Compresses : Type 0
  Compresses =
      (b : List ℕ)
      → 0 < length b
      → (c : List ℕ) × (deflate b ≡ some c) × (0 < length c) × (inflate c ≡ some b)

  decode_body-full :
      (z : Bool) (m : Msg V) (w rest : List ℕ)
      → 0 < length w
      → m.length_field ≡ length w + 1
      → m.payload ≡ none
      → decode_body deflate inflate json z m (w ++ rest)
        ≡ (record m { payload = decompress deflate inflate json z (some w) }, rest, true)
  unfolding decode_body
  decode_body-full z m w rest h l fresh =
      let n : m.length_field - 1 ≡ length w = omega (arith, l) in
      let fits : length w ≤ length (w ++ rest) = omega (arith, length-append w rest) in
      let not_one : (m.length_field == 1) ≡ false = ground (arith, l, h) in
      let more : ltb 1 m.length_field ≡ true = ground (arith, l, h) in
      let enough : leb (length w) (length (w ++ rest)) ≡ true = ground (arith, fits) in
      let t = take-append w rest in
      let d = drop-append w rest in rw (fresh, not_one, more, n, enough, t, d) refl

  decode_frame :
      (z : Bool) (f : ℕ) (b rest : List ℕ)
      → length b + 1 < 2 ^ 32
      → decode deflate inflate json z
          (create_msg 0 none)
          ((put_uint32 (length b + 1) ++ (f ∷ b)) ++ rest)
        ≡ (
          record {
            flag = f;
            body = none;
            length_field = length b + 1;
            payload = (if length b == 0 then none else decompress deflate inflate json z (some b));
          },
          rest,
          true,
        )
  unfolding put_uint32 create_msg read_header decode decode_body
  decode_frame z f [] rest h = refl
  decode_frame z f (x ∷ b) rest h =
      let some_bytes : (suc (length b) == 0) ≡ false = ground arith in
      rw (uint32-put_uint32 (suc (length b) + 1) h, some_bytes)
        (decode_body-full z
          (record { flag = f; body = none; length_field = suc (length b) + 1; payload = none })
          (x ∷ b) rest (omega arith) refl refl)

  module _ (law : Compresses) where
    zipped :
        (w : List ℕ)
        → let g = or_nothing (gzip deflate inflate json w) in
          (if length g == 0 then none else un_gzip deflate inflate json g)
          ≡ (if length w == 0 then none else some w)
    unfolding gzip un_gzip
    zipped [] = refl
    zipped (x ∷ w) =
        let (c, d, some_bytes, back) = law (x ∷ w) (omega arith) in
        let full : (suc (length w) == 0) ≡ false = ground arith in
        let packed : (length c == 0) ≡ false = ground (arith, some_bytes) in
        rw (full, d, packed) back

    -- What `decode_frame` finds in a frame with the body `b`.
    bytes-content :
        (z : Bool) (b : Option (Body V))
        → let w = body_bytes deflate inflate json z b in
          (if length w == 0 then none else decompress deflate inflate json z (some w))
          ≡ (if length (content b) == 0 then none else some (content b))
    unfolding body_bytes
    bytes-content z none = refl
    bytes-content false (some b) = refl
    bytes-content true (some b) = zipped (content (some b))

    -- A message that is encoded, with a frame shorter than 2 ^ 32, is decoded from a stream that
    -- starts with it: with its flag, its length, and the bytes of its body, if there are any; what
    -- follows in the stream stays. The deflation is taken to succeed, with some bytes that the
    -- inflation turns back.
    pub decode-encode :
        (z : Bool) (f : ℕ) (body : Option (Body V)) (rest : List ℕ)
        → length (body_bytes deflate inflate json z body) + 1 < 2 ^ 32
        → let e = encode deflate inflate json z (create_msg f body) in
          decode deflate inflate json z (create_msg 0 none) (e.1 ++ rest) ≡ (
            record {
              flag = f;
              body = none;
              length_field = e.0.length_field;
              payload = (if length (content body) == 0 then none else some (content body));
            },
            rest,
            true,
          )
    unfolding encode create_msg
    decode-encode z f body rest h =
        let w = body_bytes deflate inflate json z body in
        let small : (length w + 1) % 2 ^ 32 ≡ length w + 1 = omega (arith, h) in
        rw (small, sym (bytes-content z body)) (decode_frame z f w rest h)
