-- ===== src/Nio/Codec.antt =====
-- nio/codec.go: `defaultCodec`. A byte is a number below 256; a buffer is the list of its unread
-- bytes. compress/gzip and encoding/json are not of the repository: `deflate`, `inflate` and `json`
-- stand for them, with none for nil: an error, or for `inflate` one of the header of the stream.
pub mod Frames
use own_x_go.Base.{
  ℕ, ◌+◌, ◌*◌, ◌-◌, ◌/◌, ◌%◌, ◌^◌, ◌==◌, ltb, leb, if◌then◌else◌, List, [], ◌∷◌, ◌++◌, Option, none,
  some, Bool, true, false, ◌&&◌, length, take, drop,
}

-- What `ToByte` tells apart: a string, by its bytes, a slice of bytes, and anything else.
pub data Body (V : Type 0) : Type 0 where
  text : List ℕ → Body V
  raw : List ℕ → Body V
  other : V → Body V

pub record Msg (V : Type 0) : Type 0 where
  pub flag : ℕ
  pub body : Option (Body V)
  pub length_field : ℕ
  pub payload : Option (List ℕ)

-- `binary.Write` and `binary.Read` of a uint32, big-endian.
unfoldable pub put_uint32 : ℕ → List ℕ
put_uint32 n = n / 16777216 % 256 ∷ n / 65536 % 256 ∷ n / 256 % 256 ∷ n % 256 ∷ []

unfoldable pub uint32 : ℕ → ℕ → ℕ → ℕ → ℕ
uint32 a b c d = a * 16777216 + b * 65536 + c * 256 + d

abbrev pub or_nothing : Option (List ℕ) → List ℕ
or_nothing none = []
or_nothing (some b) = b

abbrev pub absent : Option (List ℕ) → Bool
absent none = true
absent (some b) = false

module _ {V : Type 0} where
  unfoldable pub create_msg : ℕ → Option (Body V) → Msg V
  create_msg f b = record { flag = f; body = b; length_field = 0; payload = none }

  -- The header, if it is not known and there are five bytes: none is `return false`.
  unfoldable pub read_header : Msg V → List ℕ → Option (Msg V × List ℕ)
  unfolding uint32
  read_header m (a ∷ b ∷ c ∷ d ∷ f ∷ reader) =
      if m.length_field == 0
      then some (record m { length_field = uint32 a b c d; flag = f }, reader)
      else some (m, a ∷ b ∷ c ∷ d ∷ f ∷ reader)
  read_header m reader = if m.length_field == 0 then none else some (m, reader)

module _ {V : Type 0} (deflate inflate : List ℕ → Option (List ℕ))
    (json : V → Option (List ℕ)) where
  unfoldable pub gzip : List ℕ → Option (List ℕ)
  gzip b = if length b == 0 then some [] else deflate b

  unfoldable pub un_gzip : List ℕ → Option (List ℕ)
  un_gzip b = if length b == 0 then some [] else inflate b

  -- An error of `Marshal` is dropped.
  unfoldable pub to_byte : Body V → List ℕ
  to_byte (text b) = b
  to_byte (raw b) = b
  to_byte (other v) = or_nothing (json v)

  -- The bytes after the flag, for a codec that compresses or not; an error of `Gzip` is dropped.
  unfoldable pub body_bytes : Bool → Option (Body V) → List ℕ
  unfolding gzip to_byte
  body_bytes z none = []
  body_bytes z (some b) = if z then or_nothing (gzip (to_byte b)) else to_byte b

  -- `Encode`: the message with its length, and the buffer. The length wraps as a uint32 does.
  unfoldable pub encode : Bool → Msg V → Msg V × List ℕ
  unfolding put_uint32
  encode z m =
      let b = body_bytes z m.body in
      let n = (length b + 1) % 2 ^ 32 in
      (record m { length_field = n }, put_uint32 n ++ (m.flag ∷ b))

  abbrev pub decompress : Bool → Option (List ℕ) → Option (List ℕ)
  decompress false d = d
  decompress true d = un_gzip (or_nothing d)

  -- What follows the header.
  unfoldable pub decode_body : Bool → Msg V → List ℕ → Msg V × List ℕ × Bool
  unfolding un_gzip
  decode_body z m reader =
      if m.length_field == 1
      then (m, reader, true)
      else if ltb 1 m.length_field && absent m.payload
      then (if leb (m.length_field - 1) (length reader)
          then (
            record m { payload = decompress z (some (take (m.length_field - 1) reader)) },
            drop (m.length_field - 1) reader,
            true,
          )
          else (m, reader, false))
      else (record m { payload = decompress z m.payload }, reader, true)

  unfoldable pub decode : Bool → Msg V → List ℕ → Msg V × List ℕ × Bool
  decode z m reader = elim (read_header m reader) [
    | none ↦ (m, reader, false)
    | some (h, rest) ↦ decode_body z h rest
  ]
