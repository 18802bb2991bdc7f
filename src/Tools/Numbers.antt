-- ===== src/Tools/Numbers.antt =====
-- tools/functions.go, `toInt64`, and tools/number.go, `CompareNumber`. What strconv and the conversions
-- of floating point give is an argument.
use own_x_go.Base.{
  ℕ, ◌≡◌, ◌≤◌, ◌==◌, leb, Option, none, some, Bool, true, false, if◌then◌else◌, ℤ, pos, negsuc, ◌⊎◌,
  inl, inr, dec_le, arith,
}

abbrev pub max_int64 : ℕ
max_int64 = 9223372036854775807

-- What `reflect` sees of the value; `parsed` is none where the text is not a number of 64 bits.
pub data Value : Type 0 where
  text : (parsed : Option ℤ) → Value
  signed : (n : ℤ) → Value
  unsigned : (n : ℕ) → Value
  unsigned_64 : (n : ℕ) → Value
  floating : (converted : ℤ) → Value
  boolean : (b : Bool) → Value
  other : Value

unfoldable pub to_int64 : Value → ℤ
to_int64 (text none) = pos 0
to_int64 (text (some n)) = n
to_int64 (signed n) = n
to_int64 (unsigned n) = pos n
to_int64 (unsigned_64 n) = if leb n max_int64 then pos n else pos max_int64
to_int64 (floating n) = n
to_int64 (boolean b) = if b then pos 1 else pos 0
to_int64 other = pos 0

-- `1` to `4` ask for greater, greater or equal, less, and less or equal; `x` and `y` stand for
-- the order of two numbers of one type.
unfoldable pub compare_by {ℓ} :
    {A : Type ℓ} → (A → A → Bool) → (A → A → Bool) → ℕ → A → A → Option Bool
compare_by less at_most f x y =
    if f == 1
    then some (less y x)
    else if f == 2
    then some (at_most y x)
    else if f == 3
    then some (less x y)
    else if f == 4
    then some (at_most x y)
    else none

-- The types that `CompareNumber` knows, and any other.
pub data Number (F : Type 0) : Type 0 where
  whole : (n : ℤ) → Number F
  single : (x : F) → Number F
  double : (x : F) → Number F
  wrong_type : Number F

-- `CompareNumber`, with the orders and what the text is as a number of each type; none is the error.
unfoldable pub compare_number :
    {F : Type 0} (less at_most : ℤ → ℤ → Bool) (less_f at_most_f : F → F → Bool) (n : ℤ)
    (x_32 x_64 : F)
    → Number F
    → ℕ
    → Option Bool
unfolding compare_by
compare_number less at_most less_f at_most_f n x_32 x_64 (whole m) f = compare_by less at_most f m n
compare_number less at_most less_f at_most_f n x_32 x_64 (single x) f =
    compare_by less_f at_most_f f x x_32
compare_number less at_most less_f at_most_f n x_32 x_64 (double x) f =
    compare_by less_f at_most_f f x x_64
compare_number less at_most less_f at_most_f n x_32 x_64 wrong_type f = none

-- A number of 64 bits with a sign.
abbrev pub IsInt64 : ℤ → Type 0
IsInt64 (pos n) = n ≤ max_int64
IsInt64 (negsuc n) = n ≤ max_int64

-- What reflect and strconv promise of a value.
abbrev pub IsSeen : Value → Type 0
IsSeen (text none) = Unit {0}
IsSeen (text (some n)) = IsInt64 n
IsSeen (signed n) = IsInt64 n
IsSeen (unsigned n) = n ≤ 4294967295
IsSeen (unsigned_64 n) = n ≤ 18446744073709551615
IsSeen (floating n) = IsInt64 n
IsSeen (boolean b) = Unit {0}
IsSeen other = Unit {0}

if_each_pos :
    (b : Bool) (n m : ℕ)
    → n ≤ max_int64 ⊎ (b ≡ false)
    → m ≤ max_int64
    → IsInt64 (if b then pos n else pos m)
if_each_pos true n m (inl h) k = h
if_each_pos true n m (inr e) k = cc e
if_each_pos false n m h k = k

-- The result has 64 bits, also of a number without a sign that has more.
pub to_int64-IsInt64 : (v : Value) → IsSeen v → IsInt64 (to_int64 v)
unfolding to_int64
to_int64-IsInt64 (text none) h = omega arith
to_int64-IsInt64 (text (some n)) h = h
to_int64-IsInt64 (signed n) h = h
to_int64-IsInt64 (unsigned n) h = omega (arith, h)
to_int64-IsInt64 (unsigned_64 n) h = elim (dec_le n max_int64) [
  | yes below ↦ if_each_pos (leb n max_int64) n max_int64 (inl below) (omega arith)
  | no above ↦ if_each_pos (leb n max_int64) n max_int64 (inr (ground arith)) (omega arith)
]
to_int64-IsInt64 (floating n) h = h
to_int64-IsInt64 (boolean b) h = if_each_pos b 1 0 (inl (omega arith)) (omega arith)
to_int64-IsInt64 other h = omega arith
