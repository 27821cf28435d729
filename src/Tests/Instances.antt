-- ===== src/Tests/Instances.antt =====
-- Concrete parameters: the text format of COPY, and a number type in place of `double`.
use cerepso.Base.{
  ℕ, ◌+◌, ◌*◌, ◌/◌, ◌^◌, Bytes, Bool, true, false, [], ◌∷◌, if◌then◌else◌, ◌==◌, ◌≡◌, ◌≢◌, refl,
  arith,
}
use cerepso.Base.Int.{ℤ, pos, sub_ℕ, pos_part, neg_part, ◌+ℤ◌, ◌-ℤ◌, ltb_ℤ, leb_ℤ, eq_ℤ}
use cerepso.CopyText.{CopyFormat, is_reserved}
use cerepso.Doubles.{Doubles}

-- The control characters that letters stand for behind a backslash.
abbrev letter : ℕ → ℕ
letter c = if c == b'n' then b'\n' else if c == b't' then b'\t' else if c == b'r' then b'\r' else c

copy_decode : Bool → Bytes → Bytes
copy_decode escaped [] = []
copy_decode true (c ∷ text) = letter c ∷ copy_decode false text
copy_decode false (c ∷ text) = elim (c == b'\\') [
  | true ↦ copy_decode true text
  | false ↦ c ∷ copy_decode false text
]

copy_decode-plain :
    (c : ℕ) (rest : Bytes) → c ≢ b'\\' → copy_decode false (c ∷ rest) ≡ c ∷ copy_decode false rest
unfolding copy_decode
copy_decode-plain c rest p = ground arith

copy_decode-escaped :
    (c : ℕ) (rest : Bytes)
    → is_reserved c ≡ false
    → copy_decode false (b'\\' ∷ c ∷ rest) ≡ c ∷ copy_decode false rest
unfolding copy_decode
copy_decode-escaped c rest p = ground arith

pub copy : CopyFormat
unfolding copy_decode
copy = record {
  decode = copy_decode false;
  decode_nil = refl;
  decode_plain = copy_decode-plain;
  decode_escaped = copy_decode-escaped;
}

abbrev pub times : ℤ → ℤ → ℤ
times a b =
    sub_ℕ (pos_part a * pos_part b + neg_part a * neg_part b)
      (pos_part a * neg_part b + neg_part a * pos_part b)

abbrev pub quotient : ℤ → ℤ → ℤ
quotient a (pos m) = sub_ℕ (pos_part a / m) (neg_part a / m)
quotient a b = sub_ℕ (neg_part a / neg_part b) (pos_part a / neg_part b)

-- Whole numbers, which round every fraction towards zero.
abbrev pub whole : Doubles
whole = record {
  Double = ℤ;
  add = ◌+ℤ◌;
  sub = ◌-ℤ◌;
  mul = times;
  div = quotient;
  lt = ltb_ℤ;
  le = leb_ℤ;
  eq = eq_ℤ;
  of_int = λ n. n;
  to_int = λ n. n;
  numeral = λ m e. pos (m / 10 ^ e);
  sin = λ a. a;
  cos = λ a. a;
  acos = λ a. a;
  tan = λ a. a;
  log = λ a. a;
  abs = λ a. pos (pos_part a + neg_part a);
  pi = pos 3;
  deg_to_rad = λ a. a;
}
