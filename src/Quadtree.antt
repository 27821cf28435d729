-- ===== src/Quadtree.antt =====
-- src/expire_tiles_quadtree.cpp: tile numbers in quadtree order, y and x digits taking turns.
-- An `int` is its 32-bit pattern, and sums and shifts wrap around, as the hardware computes them
-- where C++ leaves an overflow open. It can occur from zoom 16 on.
pub mod Digits
pub mod RoundTrip
use cerepso.Base.{
  ℕ, zero, suc, ◌+◌, ◌*◌, ◌/◌, ◌^◌, ◌-◌, ◌%◌, Option, some, none, if◌then◌else◌, ltb,
}
use Prim.Native.Nat.{bit_and}

pub record XyCoord : Type 0 where
  pub x : ℕ
  pub y : ℕ

-- `1 << n`
abbrev pub bit_at : ℕ → ℕ
bit_at n = 2 ^ n % 2 ^ 32

-- `a >> n`, which fills up with the sign.
abbrev pub shift_right : ℕ → ℕ → ℕ
shift_right a n = if ltb a (2 ^ 31) then a / 2 ^ n else a / 2 ^ n + (2 ^ 32 - 2 ^ (32 - n))

-- The loop of `xy_to_quadtree`: `rounds` rounds are left, and `z` is the loop variable.
unfoldable pub xy_to_quadtree_loop : ℕ → ℕ → ℕ → ℕ → ℕ → ℕ
xy_to_quadtree_loop zero z qt x y = qt
xy_to_quadtree_loop (suc rounds) z qt x y =
    xy_to_quadtree_loop rounds (z + 1)
      ((qt + bit_and x (bit_at z) * 2 ^ z + bit_and y (bit_at z) * 2 ^ (z + 1)) % 2 ^ 32) x y

unfoldable pub xy_to_quadtree : ℕ → ℕ → ℕ → ℕ
unfolding xy_to_quadtree_loop
xy_to_quadtree x y zoom = xy_to_quadtree_loop zoom 0 0 x y

-- The loop of `quadtree_to_xy`, where `z` falls to 1. The pattern's `next_zoom` is the source's.
unfoldable pub quadtree_to_xy_loop : ℕ → ℕ → XyCoord → XyCoord
quadtree_to_xy_loop zero qt_coord result = result
quadtree_to_xy_loop (suc next_zoom) qt_coord result =
    quadtree_to_xy_loop next_zoom qt_coord (record {
      x = (result.x + shift_right (bit_and qt_coord (bit_at (2 * next_zoom))) next_zoom) % 2 ^ 32;
      y =
          (result.y
            + shift_right (bit_and qt_coord (bit_at (suc next_zoom + next_zoom))) (suc next_zoom))
          % 2 ^ 32;
    })

unfoldable pub quadtree_to_xy : ℕ → ℕ → XyCoord
unfolding quadtree_to_xy_loop
quadtree_to_xy qt_coord zoom = quadtree_to_xy_loop zoom qt_coord (record { x = 0; y = 0 })

-- `none` is a failed assertion. `offset >= 0` holds of every ℕ.
unfoldable pub quadtree_upscale : ℕ → ℕ → ℕ → Option ℕ
quadtree_upscale qt_old zoom_steps offset =
    if ltb offset (2 ^ (2 * zoom_steps))
    then some ((qt_old * 2 ^ (2 * zoom_steps) + offset) % 2 ^ 32)
    else none
