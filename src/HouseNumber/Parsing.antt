-- ===== src/HouseNumber/Parsing.antt =====
-- House numbers as they are written, and what `parse_number` reads.
use cerepso.Base.{
  length, ℕ, ◌+◌, ◌-◌, ◌*◌, ◌^◌, ◌≤◌, ◌<◌, Bytes, Bool, true, false, [], ◌∷◌, ◌++◌, Option, none,
  some, ◌==◌, ok, All, ◌≡◌, refl, ap, ◌∙◌, arith,
}
use cerepso.Base.Int.{ℤ, pos, leb_ℤ}
use cerepso.Decimal.{
  decimal, value_of, is_digit, value_of-decimal, decimal-is_digit, decimal-nonempty,
}
use cerepso.HouseNumber.{
  parse_number, strtol, skip_spaces, read_digits, behind_sign, digits_behind, signed, parse_rest,
  parse_suffix, skip_space, is_alpha, is_space, to_int,
}

-- A blank or none, then a letter or none.
abbrev pub tail_text : Bool → Option ℕ → Bytes
tail_text true none = b' ' ∷ []
tail_text true (some c) = b' ' ∷ c ∷ []
tail_text false none = []
tail_text false (some c) = c ∷ []

abbrev pub suffix_of : Option ℕ → ℕ
suffix_of none = 0
suffix_of (some c) = c

abbrev pub IsLetter : Option ℕ → Type 0
IsLetter none = Unit
IsLetter (some c) = is_alpha c ≡ true

-- What follows the digits of a number.
abbrev NoDigit : Bytes → Type 0
NoDigit [] = Unit
NoDigit (c ∷ s) = is_digit c ≡ false

tail_text-NoDigit :
    (blank : Bool) (suffix : Option ℕ) → IsLetter suffix → NoDigit (tail_text blank suffix)
tail_text-NoDigit true none h = refl
tail_text-NoDigit true (some c) h = refl
tail_text-NoDigit false none h = tt
tail_text-NoDigit false (some c) h = ground arith

read_digits_end : (acc : ℕ) (rest : Bytes) → NoDigit rest → read_digits acc rest ≡ (acc, rest)
unfolding read_digits
read_digits_end acc [] h = refl
read_digits_end acc (c ∷ rest) h = rw h refl

read_digits-append :
    (acc : ℕ) (ds rest : Bytes)
    → All (λ c. is_digit c ≡ true) ds
    → NoDigit rest
    → read_digits acc (ds ++ rest) ≡ (value_of acc ds, rest)
unfolding read_digits value_of
read_digits-append acc [] rest h n = read_digits_end acc rest n
read_digits-append acc (c ∷ ds) rest (hc, h) n =
    rw hc (read_digits-append (acc * 10 + (c - b'0')) ds rest h n)

digits_behind-digit :
    (c : ℕ) (s : Bytes)
    → is_digit c ≡ true
    → digits_behind false (c ∷ s)
      ≡ some (signed false (read_digits 0 (c ∷ s)).0, (read_digits 0 (c ∷ s)).1)
unfolding digits_behind
digits_behind-digit c s h = rw h refl

strtol-digit :
    (c : ℕ) (s : Bytes) → is_digit c ≡ true → strtol (c ∷ s) ≡ digits_behind false (c ∷ s)
unfolding strtol skip_spaces behind_sign
strtol-digit c s h = rw (no_space, no_minus, no_plus) refl
  where
    no_space : is_space c ≡ false
    no_space = ground arith

    no_minus : (c == b'-') ≡ false
    no_minus = ground arith

    no_plus : (c == b'+') ≡ false
    no_plus = ground arith

strtol-digits :
    (ds rest : Bytes)
    → 1 ≤ length ds
    → All (λ c. is_digit c ≡ true) ds
    → NoDigit rest
    → strtol (ds ++ rest) ≡ some (signed false (value_of 0 ds), rest)
strtol-digits [] rest e h n = absurd (omega arith)
strtol-digits (c ∷ ds) rest e (hc, h) n =
    strtol-digit c (ds ++ rest) hc
    ∙ digits_behind-digit c (ds ++ rest) hc
    ∙ ap (λ (r : ℕ × Bytes). some (signed false r.0, r.1))
        (read_digits-append 0 (c ∷ ds) rest (hc, h) n)

to_int-signed : (n : ℕ) → n < 2 ^ 31 → to_int (signed false n) ≡ pos n
to_int-signed n h = ground arith

parse_suffix-tail_text :
    (number : ℤ) (blank : Bool) (suffix : Option ℕ)
    → IsLetter suffix
    → parse_suffix number (skip_space (tail_text blank suffix))
      ≡ ok (record { number = number; suffix = suffix_of suffix })
parse_suffix-tail_text number true none h = refl
parse_suffix-tail_text number true (some c) h = rw h refl
parse_suffix-tail_text number false none h = refl
parse_suffix-tail_text number false (some c) h = rw (no_space, h) refl
  where
    no_space : is_space c ≡ false
    no_space = ground arith

parse_rest-positive :
    (value : ℤ) (n : ℕ) (rest : Bytes)
    → 0 < n
    → to_int value ≡ pos n
    → parse_rest (some (value, rest)) ≡ parse_suffix (pos n) (skip_space rest)
parse_rest-positive value n rest p e = rw (e, positive) refl
  where
    positive : leb_ℤ (pos n) (pos 0) ≡ false
    positive = ground arith

-- `parse_number` reads a positive `int`, a blank or none and a letter or none back as written.
pub parse_number-decimal :
    (n : ℕ) (blank : Bool) (suffix : Option ℕ)
    → 0 < n
    → n < 2 ^ 31
    → IsLetter suffix
    → parse_number (some (decimal n ++ tail_text blank suffix))
      ≡ ok (record { number = pos n; suffix = suffix_of suffix })
unfolding parse_number
parse_number-decimal n blank suffix p b h =
    ap parse_rest (
      strtol-digits (decimal n) (tail_text blank suffix) (decimal-nonempty n) (decimal-is_digit n)
        (tail_text-NoDigit blank suffix h)
      ∙ ap (λ v. some (signed false v, tail_text blank suffix)) (value_of-decimal n))
    ∙ parse_rest-positive (signed false n) n (tail_text blank suffix) p (to_int-signed n b)
    ∙ parse_suffix-tail_text (pos n) blank suffix h
