-- ===== src/Decimal.antt =====
-- What `sprintf` writes for "%ld", "%d", "%hi" and "%u".
use cerepso.Base.{
  ℕ, zero, suc, length, length-append, ◌+◌, ◌-◌, ◌*◌, ◌/◌, ◌%◌, ◌≤◌, Bytes, [], ◌∷◌, ◌++◌, true,
  false, ltb, ◌≡◌, refl, arith, All, All-append, Bool-cases, inl, inr, leb, Bool, ◌&&◌,
}
use cerepso.Base.Int.{ℤ, pos, negsuc}
use cerepso.CopyText.{StaysInside, StaysInside-nil, StaysInside-append, StaysInside-plain}

-- The digits of a number, on as much fuel as it has units, which is more than it has digits.
pub digits_loop : ℕ → ℕ → Bytes
digits_loop zero n = (48 + n) ∷ []
digits_loop (suc fuel) n = elim (ltb n 10) [
  | true ↦ (48 + n) ∷ []
  | false ↦ digits_loop fuel (n / 10) ++ (48 + n % 10) ∷ []
]

unfoldable pub decimal : ℕ → Bytes
unfolding digits_loop
decimal n = digits_loop n n

unfoldable pub decimal_ℤ : ℤ → Bytes
unfolding decimal
decimal_ℤ (pos n) = decimal n
decimal_ℤ (negsuc n) = b'-' ∷ decimal (suc n)

-- `strtoll` on digits.
unfoldable pub value_of : ℕ → Bytes → ℕ
value_of acc [] = acc
value_of acc (c ∷ cs) = value_of (acc * 10 + (c - 48)) cs

value_of-append : (a b : Bytes) (acc : ℕ) → value_of acc (a ++ b) ≡ value_of (value_of acc a) b
unfolding value_of
value_of-append [] b acc = refl
value_of-append (c ∷ a) b acc = value_of-append a b (acc * 10 + (c - 48))

digits_loop-value_of : (fuel n : ℕ) → n ≤ fuel → value_of 0 (digits_loop fuel n) ≡ n
unfolding digits_loop value_of
digits_loop-value_of zero n h = omega arith
digits_loop-value_of (suc fuel) n h = elim (Bool-cases (ltb n 10)) [
  | inl small ↦ rw (digits_loop, small) (omega arith)
  | inr big ↦
      rw
        (
          digits_loop,
          big,
          value_of-append (digits_loop fuel (n / 10)) ((48 + n % 10) ∷ []) 0,
          digits_loop-value_of fuel (n / 10) (ground arith),
        )
        (omega arith)
]

-- Reading what was printed gives the number back.
pub value_of-decimal : (n : ℕ) → value_of 0 (decimal n) ≡ n
unfolding decimal
value_of-decimal n = digits_loop-value_of n n (omega arith)

abbrev pub is_digit : ℕ → Bool
is_digit c = leb b'0' c && leb c b'9'

digits_loop-is_digit : (fuel n : ℕ) → n ≤ fuel → All (λ c. is_digit c ≡ true) (digits_loop fuel n)
unfolding digits_loop
digits_loop-is_digit zero n h = ground arith
digits_loop-is_digit (suc fuel) n h = elim (Bool-cases (ltb n 10)) [
  | inl small ↦ rw (digits_loop, small) (ground arith)
  | inr big ↦
      rw (digits_loop, big)
        (All-append (λ c. is_digit c ≡ true) (digits_loop fuel (n / 10)) _
          (digits_loop-is_digit fuel (n / 10) (ground arith)) (ground arith))
]

plain-StaysInside : (s : Bytes) → All (λ c. is_digit c ≡ true) s → StaysInside s
plain-StaysInside [] h = StaysInside-nil
plain-StaysInside (c ∷ s) h =
    StaysInside-append (c ∷ []) s (StaysInside-plain c (ground arith)) (plain-StaysInside s h.1)

pub decimal-is_digit : (n : ℕ) → All (λ c. is_digit c ≡ true) (decimal n)
unfolding decimal
decimal-is_digit n = digits_loop-is_digit n n (omega arith)

digits_loop-nonempty : (fuel n : ℕ) → 1 ≤ length (digits_loop fuel n)
unfolding digits_loop
digits_loop-nonempty zero n = omega arith
digits_loop-nonempty (suc fuel) n = elim (Bool-cases (ltb n 10)) [
  | inl small ↦ rw (digits_loop, small) (omega arith)
  | inr big ↦ rw (digits_loop, big, length-append (digits_loop fuel (n / 10)) _) (omega arith)
]

pub decimal-nonempty : (n : ℕ) → 1 ≤ length (decimal n)
unfolding decimal
decimal-nonempty n = digits_loop-nonempty n n

pub decimal-StaysInside : (n : ℕ) → StaysInside (decimal n)
unfolding decimal
decimal-StaysInside n = plain-StaysInside _ (digits_loop-is_digit n n (omega arith))

pub decimal_ℤ-StaysInside : (z : ℤ) → StaysInside (decimal_ℤ z)
unfolding decimal_ℤ
decimal_ℤ-StaysInside (pos n) = decimal-StaysInside n
decimal_ℤ-StaysInside (negsuc n) =
    StaysInside-append (b'-' ∷ []) _ (StaysInside-plain b'-' refl) (decimal-StaysInside (suc n))
