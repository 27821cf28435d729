-- ===== src/HouseNumber.antt =====
-- src/addr_interpolation_handler.cpp: `HouseNumber`. Characters are those of the C locale.
pub mod Parsing
use cerepso.Base.{
  ℕ, zero, suc, ◌+◌, ◌-◌, ◌*◌, ◌%◌, ◌^◌, Bytes, Bool, true, false, not, ◌&&◌, ◌||◌, [], ◌∷◌, Option,
  none, some, if◌then◌else◌, ◌==◌, ltb, leb, Result, ok, err,
}
use cerepso.Decimal.{is_digit}
use cerepso.Base.Int.{ℤ, pos, negsuc, sub_ℕ, ◌+ℤ◌, ◌-ℤ◌, leb_ℤ, ltb_ℤ}

pub data InterpolationType : Type 0 where
  unknown odd even every alphabetic : InterpolationType

-- The messages of the `std::runtime_error`s of the handler.
pub data Message : Type 0 where
  numeric_part_invalid non_alphabetic_character more_than_one_character : Message
  odd_difference beyond_range one_node_only no_first_point database invalid_location : Message

-- An exception, the use of a null pointer or of an iterator behind the end, a failed assertion.
pub data Fault : Type 0 where
  runtime_error : Message → Fault
  null_pointer out_of_range assertion : Fault

-- The suffix is the null character if there is none.
pub record HouseNumber : Type 0 where
  pub number : ℤ
  pub suffix : ℕ

abbrev pub house_number : HouseNumber
house_number = record { number = pos 0; suffix = 0 }

unfoldable pub valid : HouseNumber → Bool
valid hn = ltb_ℤ (pos 0) hn.number

abbrev pub tolower : ℕ → ℕ
tolower c = if leb b'A' c && leb c b'Z' then c + 32 else c

abbrev pub is_alphabetic : InterpolationType → Bool
is_alphabetic alphabetic = true
is_alphabetic _ = false

unfoldable pub interpolation_difference : InterpolationType → HouseNumber → HouseNumber → ℤ
interpolation_difference type hn other =
    if is_alphabetic type
    then sub_ℕ (tolower hn.suffix) (tolower other.suffix)
    else hn.number -ℤ other.number

abbrev pub is_space : ℕ → Bool
is_space c = leb 9 c && leb c 13 || c == b' '

abbrev pub is_alpha : ℕ → Bool
is_alpha c = leb b'A' c && leb c b'Z' || leb b'a' c && leb c b'z'

unfoldable pub skip_spaces : Bytes → Bytes
skip_spaces [] = []
skip_spaces (c ∷ s) = if is_space c then skip_spaces s else c ∷ s

-- The value of the leading digits behind `acc`, and what follows them.
unfoldable pub read_digits : ℕ → Bytes → ℕ × Bytes
read_digits acc [] = (acc, [])
read_digits acc (c ∷ s) =
    let more = read_digits (acc * 10 + (c - b'0')) s in if is_digit c then more else (acc, c ∷ s)

abbrev pub smaller : ℕ → ℕ → ℕ
smaller a b = if leb a b then a else b

-- The number behind the sign, capped as in a 64-bit long.
abbrev pub signed : Bool → ℕ → ℤ
signed false n = pos (smaller n (2 ^ 63 - 1))
signed true n = sub_ℕ 0 (smaller n (2 ^ 63))

unfoldable pub digits_behind : Bool → Bytes → Option (ℤ × Bytes)
unfolding read_digits
digits_behind negative [] = none
digits_behind negative (c ∷ s) =
    if is_digit c
    then some (signed negative (read_digits 0 (c ∷ s)).0, (read_digits 0 (c ∷ s)).1)
    else none

unfoldable pub behind_sign : Bytes → Option (ℤ × Bytes)
unfolding digits_behind
behind_sign [] = none
behind_sign (c ∷ s) =
    if c == b'-'
    then digits_behind true s
    else if c == b'+'
    then digits_behind false s
    else digits_behind false (c ∷ s)

-- `std::strtol(start, &end_ptr, 10)` with the text at `end_ptr`, or `none` if `end_ptr` is `start`.
unfoldable pub strtol : Bytes → Option (ℤ × Bytes)
unfolding skip_spaces behind_sign
strtol s = behind_sign (skip_spaces s)

abbrev pub from_bits : ℕ → ℤ
from_bits m = if ltb m (2 ^ 31) then pos m else negsuc (2 ^ 32 - 1 - m)

-- A long put into an `int`.
abbrev pub to_int : ℤ → ℤ
to_int (pos n) = from_bits (n % 2 ^ 32)
to_int (negsuc n) = from_bits (2 ^ 32 - 1 - n % 2 ^ 32)

abbrev pub skip_space : Bytes → Bytes
skip_space [] = []
skip_space (c ∷ s) = if is_space c then s else c ∷ s

abbrev pub end_of_number : ℤ → ℕ → Bytes → Result Fault HouseNumber
end_of_number number suffix [] = ok (record { number = number; suffix = suffix })
end_of_number number suffix (c ∷ s) = err (runtime_error more_than_one_character)

abbrev pub parse_suffix : ℤ → Bytes → Result Fault HouseNumber
parse_suffix number [] = ok (record { number = number; suffix = 0 })
parse_suffix number (c ∷ s) =
    if not (is_alpha c)
    then err (runtime_error non_alphabetic_character)
    else end_of_number number c s

abbrev pub parse_rest : Option (ℤ × Bytes) → Result Fault HouseNumber
parse_rest none = ok house_number
parse_rest (some (value, rest)) =
    if leb_ℤ (to_int value) (pos 0)
    then err (runtime_error numeric_part_invalid)
    else parse_suffix (to_int value) (skip_space rest)

-- `none` is the null pointer.
unfoldable pub parse_number : Option Bytes → Result Fault HouseNumber
unfolding strtol
parse_number none = ok house_number
parse_number (some start) = parse_rest (strtol start)

-- The sum of two `int`s. It wraps around, as the hardware computes it where C++ leaves an overflow
-- open.
unfoldable pub increment_numeric : ℕ → HouseNumber → HouseNumber
increment_numeric increment hn = record hn { number = to_int (hn.number +ℤ pos increment) }

unfoldable pub increment_alphabetic : ℕ → HouseNumber → Result Fault HouseNumber
increment_alphabetic increment hn =
    let new_suffix : ℕ = hn.suffix + increment in
    if ltb new_suffix 0x41 || ltb 0x5a new_suffix && ltb new_suffix 0x61 || ltb 0x7a new_suffix
    then err (runtime_error beyond_range)
    else ok (record hn { suffix = new_suffix })
