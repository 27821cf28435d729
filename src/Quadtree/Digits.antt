-- ===== src/Quadtree/Digits.antt =====
-- The loops as recursions that take one digit of x and y, or two of the tile number, at a time.
use Prim.Native.Nat.{bit_and}
use native.Mathlib.Nat.{
  two-pow-succ, mul-div_cancel, one-le-pow, mul_assoc, mul_comm, div-div-eq-div-mul,
  mod-eq-sub-mul-div, div-add-mod, div-one, mod-eq_of_lt, pow-le-pow_right,
}
use native.Mathlib.Numerals.{add-one}
use cerepso.Base.{
  ℕ, zero, suc, ◌+◌, ◌*◌, ◌/◌, ◌%◌, ◌^◌, ◌<◌, ◌≤◌, lt→ltb, ◌≡◌, refl, sym, ap, ◌∙◌, arith,
  bit_and-pow, div-two-pow-suc,
}
use cerepso.Quadtree.{
  XyCoord, bit_at, shift_right, xy_to_quadtree_loop, xy_to_quadtree, quadtree_to_xy_loop,
  quadtree_to_xy,
}

-- The digits of `x` and `y`, taking turns, x first and lowest first.
pub interleave : ℕ → ℕ → ℕ → ℕ
interleave zero x y = 0
interleave (suc n) x y = x % 2 + 2 * (y % 2) + 4 * interleave n (x / 2) (y / 2)

-- Every second digit, lowest first.
pub every_second : ℕ → ℕ → ℕ
every_second zero q = 0
every_second (suc n) q = q % 2 + 2 * every_second n (q / 4)

-- 4 ^ n
abbrev pub four_pow : ℕ → ℕ
four_pow n = 2 ^ n * 2 ^ n

pub four_pow-suc : (n : ℕ) → four_pow (suc n) ≡ 4 * four_pow n
four_pow-suc n = rw (two-pow-succ n) (omega arith)

-- The highest digit of each.
interleave_top :
    (n x y : ℕ)
    → interleave (suc n) x y
      ≡ interleave n x y + (x / 2 ^ n % 2) * four_pow n + (y / 2 ^ n % 2) * (2 * four_pow n)
unfolding interleave
interleave_top zero x y = omega arith
interleave_top (suc n) x y =
    rw (div-two-pow-suc x n, div-two-pow-suc y n, four_pow-suc n, interleave_top n (x / 2) (y / 2))
      (omega arith)

every_second_top :
    (n q : ℕ) → every_second (suc n) q ≡ every_second n q + (q / four_pow n % 2) * 2 ^ n
unfolding every_second
every_second_top zero q = omega arith
every_second_top (suc n) q = rw (quarter, every_second_top n (q / 4), two-pow-succ n) (omega arith)
  where
    quarter : q / four_pow (suc n) ≡ q / 4 / four_pow n
    quarter = ap (λ (t : ℕ). q / t) (four_pow-suc n) ∙ sym (div-div-eq-div-mul q 4 (four_pow n))

-- One round of `xy_to_quadtree` puts the highest digits on.
round_top :
    (z x y : ℕ)
    → interleave z x y + bit_and x (2 ^ z) * 2 ^ z + bit_and y (2 ^ z) * 2 ^ (z + 1)
      ≡ interleave (suc z) x y
round_top z x y =
    rw (bit_and-pow x z, bit_and-pow y z, interleave_top z x y, add-one z, two-pow-succ z)
      (omega arith)

pub interleave-lt : (n x y : ℕ) → interleave n x y < four_pow n
unfolding interleave
interleave-lt zero x y = omega arith
interleave-lt (suc n) x y = omega (arith, interleave-lt n (x / 2) (y / 2), four_pow-suc n)

pub two-pow-double : (n : ℕ) → 2 ^ (2 * n) ≡ four_pow n
two-pow-double zero = refl
two-pow-double (suc n) =
    ap (λ (t : ℕ). 2 ^ t) twice
    ∙ rw (two-pow-succ (suc (2 * n)), two-pow-succ (2 * n), two-pow-succ n, two-pow-double n)
        (omega arith)
  where
    twice : 2 * suc n ≡ suc (suc (2 * n))
    twice = omega arith

-- Up to zoom 15 powers of two and tile numbers fit.
small_pow : (n : ℕ) → n ≤ 30 → 2 ^ n ≤ 2 ^ 30
small_pow n h = pow-le-pow_right (omega arith) h

bit_at-small : (n : ℕ) → n ≤ 30 → bit_at n ≡ 2 ^ n
bit_at-small n h = mod-eq_of_lt (omega (arith, small_pow n h))

pub four_pow-small : (n : ℕ) → n ≤ 15 → four_pow n ≤ 2 ^ 30
four_pow-small n h = rw (← two-pow-double n) (small_pow (2 * n) (omega arith))

wrapped :
    (z x y : ℕ)
    → suc z ≤ 15
    → (interleave z x y + bit_and x (bit_at z) * 2 ^ z + bit_and y (bit_at z) * 2 ^ (z + 1))
        % 2 ^ 32
      ≡ interleave (suc z) x y
wrapped z x y h =
    rw (bit_at-small z (omega arith), round_top z x y)
      (mod-eq_of_lt (omega (arith, interleave-lt (suc z) x y, four_pow-small (suc z) h)))

xy_to_quadtree_loop-interleave :
    (n z m x y : ℕ)
    → z + n ≡ m
    → m ≤ 15
    → xy_to_quadtree_loop n z (interleave z x y) x y ≡ interleave m x y
unfolding xy_to_quadtree_loop
xy_to_quadtree_loop-interleave zero z m x y e h = ap (λ (t : ℕ). interleave t x y) (omega arith)
xy_to_quadtree_loop-interleave (suc n) z m x y e h =
    rw (wrapped z x y (omega arith), add-one z)
      (xy_to_quadtree_loop-interleave n (suc z) m x y (omega arith) h)

pub xy_to_quadtree-interleave : (x y n : ℕ) → n ≤ 15 → xy_to_quadtree x y n ≡ interleave n x y
unfolding xy_to_quadtree interleave
xy_to_quadtree-interleave x y n h = xy_to_quadtree_loop-interleave n 0 n x y (omega arith) h

two-pow-odd : (n : ℕ) → 2 ^ (suc n + n) ≡ 2 ^ suc n * 2 ^ n
two-pow-odd n =
    ap (λ (t : ℕ). 2 ^ t) odd
    ∙ rw (two-pow-succ (2 * n), two-pow-double n, two-pow-succ n) (omega arith)
  where
    odd : suc n + n ≡ suc (2 * n)
    odd = omega arith

x_round : (n q : ℕ) → bit_and q (2 ^ (2 * n)) / 2 ^ n ≡ (q / four_pow n % 2) * 2 ^ n
x_round n q =
    rw (bit_and-pow q (2 * n), two-pow-double n, ← mul_assoc (q / four_pow n % 2) (2 ^ n) (2 ^ n))
      (mul-div_cancel _ (one-le-pow n 2 (omega arith)))

y_round : (n q : ℕ) → bit_and q (2 ^ (suc n + n)) / 2 ^ suc n ≡ (q / 2 / four_pow n % 2) * 2 ^ n
y_round n q =
    rw
      (
        bit_and-pow q (suc n + n),
        half,
        two-pow-odd n,
        mul_comm (2 ^ suc n) (2 ^ n),
        ← mul_assoc (q / 2 / four_pow n % 2) (2 ^ n) (2 ^ suc n),
      )
      (mul-div_cancel _ (one-le-pow (suc n) 2 (omega arith)))
  where
    half : q / 2 ^ (suc n + n) ≡ q / 2 / four_pow n
    half =
        ap (λ (t : ℕ). q / t) (two-pow-odd n ∙ rw (two-pow-succ n) (omega arith))
        ∙ sym (div-div-eq-div-mul q 2 (four_pow n))

digit_le : (n p : ℕ) → (n % 2) * p ≤ p
digit_le n p = below (n % 2) (omega arith)
  where
    below : (b : ℕ) → b < 2 → b * p ≤ p
    below zero h = omega arith
    below (suc zero) h = omega arith
    below (suc (suc b)) h = absurd (omega arith)

bit_and-small : (q k : ℕ) → k ≤ 30 → bit_and q (2 ^ k) < 2 ^ 31
bit_and-small q k h =
    rw (bit_and-pow q k) (omega (arith, small_pow k h, digit_le (q / 2 ^ k) (2 ^ k)))

shifted : (q k m : ℕ) → k ≤ 30 → shift_right (bit_and q (bit_at k)) m ≡ bit_and q (2 ^ k) / 2 ^ m
shifted q k m h = rw (bit_at-small k h, lt→ltb _ _ (bit_and-small q k h)) refl

-- There is room for the digits that are left.
room : (n a d : ℕ) → a + 2 ^ suc n ≤ 2 ^ 32 → a + (d % 2) * 2 ^ n + 2 ^ n ≤ 2 ^ 32
room n a d h =
    let double : 2 ^ suc n ≡ 2 ^ n * 2 = two-pow-succ n ∙ omega arith in
    omega (arith, double, digit_le d (2 ^ n))

added : (n a d : ℕ) → a + 2 ^ suc n ≤ 2 ^ 32 → (a + (d % 2) * 2 ^ n) % 2 ^ 32 ≡ a + (d % 2) * 2 ^ n
added n a d h = mod-eq_of_lt (omega (arith, room n a d h, one-le-pow n 2 (omega arith)))

quadtree_to_xy_loop-every_second :
    (n q : ℕ) (r : XyCoord)
    → n ≤ 15
    → r.x + 2 ^ n ≤ 2 ^ 32
    → r.y + 2 ^ n ≤ 2 ^ 32
    → quadtree_to_xy_loop n q r
      ≡ record { x = r.x + every_second n q; y = r.y + every_second n (q / 2) }
unfolding quadtree_to_xy_loop
quadtree_to_xy_loop-every_second zero q r h a b = unfold every_second in ground arith
quadtree_to_xy_loop-every_second (suc n) q r h a b =
    let dx = q / four_pow n in
    let dy = q / 2 / four_pow n in
    rw
      (
        shifted q (2 * n) n (omega arith),
        shifted q (suc n + n) (suc n) (omega arith),
        x_round n q,
        y_round n q,
        added n r.x dx a,
        added n r.y dy b,
      )
      (quadtree_to_xy_loop-every_second n q _ (omega arith) (room n r.x dx a) (room n r.y dy b)
        ∙ ground (arith, every_second_top n q, every_second_top n (q / 2)))

pub quadtree_to_xy-every_second :
    (q n : ℕ)
    → n ≤ 15
    → quadtree_to_xy q n ≡ record { x = every_second n q; y = every_second n (q / 2) }
unfolding quadtree_to_xy
quadtree_to_xy-every_second q n h =
    let room = small_pow n (omega arith) in
    quadtree_to_xy_loop-every_second n q _ h (omega arith) (omega arith) ∙ ground arith

mod-two-pow-suc : (x n : ℕ) → x % 2 ^ suc n ≡ x % 2 + 2 * (x / 2 % 2 ^ n)
mod-two-pow-suc x n =
    mod-eq-sub-mul-div x (2 ^ suc n)
    ∙ rw (div-two-pow-suc x n, two-pow-succ n) (omega (arith, div-add-mod (x / 2) (2 ^ n)))

mod-four_pow-suc :
    (q n : ℕ) → q % four_pow (suc n) ≡ q % 2 + 2 * (q / 2 % 2) + 4 * (q / 4 % four_pow n)
mod-four_pow-suc q n =
    ap (λ (t : ℕ). q % t) (four_pow-suc n)
    ∙ mod-eq-sub-mul-div q (4 * four_pow n)
    ∙ rw (← div-div-eq-div-mul q 4 (four_pow n)) (omega (arith, div-add-mod (q / 4) (four_pow n)))

-- The digits come apart again.
pub every_second-interleave :
    (n x y : ℕ)
    → (every_second n (interleave n x y) ≡ x % 2 ^ n)
      × (every_second n (interleave n x y / 2) ≡ y % 2 ^ n)
unfolding every_second interleave
every_second-interleave zero x y = omega arith
every_second-interleave (suc n) x y =
    let below = interleave n (x / 2) (y / 2) in
    let q = x % 2 + 2 * (y % 2) + 4 * below in
    let low : q / 4 ≡ below = omega arith in
    let high : q / 2 / 4 ≡ below / 2 = omega arith in
    let ih = every_second-interleave n (x / 2) (y / 2) in
    (
      rw (low, ih.0, mod-two-pow-suc x n) (omega arith),
      rw (high, ih.1, mod-two-pow-suc y n) (omega arith),
    )

pub interleave-every_second :
    (n q : ℕ) → interleave n (every_second n q) (every_second n (q / 2)) ≡ q % four_pow n
unfolding every_second interleave
interleave-every_second zero q = omega arith
interleave-every_second (suc n) q =
    let a = every_second n (q / 4) in
    let b = every_second n (q / 2 / 4) in
    let x_half : (q % 2 + 2 * a) / 2 ≡ a = omega arith in
    let y_half : (q / 2 % 2 + 2 * b) / 2 ≡ b = omega arith in
    let swap : q / 2 / 4 ≡ q / 4 / 2 = omega arith in
    rw (x_half, y_half, swap, interleave-every_second n (q / 4), mod-four_pow-suc q n) (omega arith)

pub interleave_parent : (n x y : ℕ) → interleave (suc n) x y / 4 ≡ interleave n (x / 2) (y / 2)
unfolding interleave
interleave_parent n x y = omega arith

pub interleave_ancestor :
    (d n m x y : ℕ)
    → d + n ≡ m
    → interleave m x y / four_pow d ≡ interleave n (x / 2 ^ d) (y / 2 ^ d)
interleave_ancestor zero n m x y e = simp div-one (ap (λ (t : ℕ). interleave t x y) (omega arith))
interleave_ancestor (suc d) n zero x y e = absurd (omega arith)
interleave_ancestor (suc d) n (suc m) x y e =
    ap (λ (t : ℕ). interleave (suc m) x y / t) (four_pow-suc d)
    ∙ sym (div-div-eq-div-mul (interleave (suc m) x y) 4 (four_pow d))
    ∙ rw (interleave_parent m x y, div-two-pow-suc x d, div-two-pow-suc y d)
        (interleave_ancestor d n m (x / 2) (y / 2) (omega arith))
