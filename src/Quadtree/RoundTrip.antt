-- ===== src/Quadtree/RoundTrip.antt =====
-- The two conversions undo each other, and a parent tile is two digits shorter.
use native.Mathlib.Nat.{mod-eq_of_lt}
use cerepso.Base.{ℕ, ◌+◌, ◌*◌, ◌/◌, ◌^◌, ◌≤◌, ◌<◌, ◌≡◌, refl, ap, ◌∙◌, arith}
use cerepso.Quadtree.{XyCoord, xy_to_quadtree, quadtree_to_xy}
use cerepso.Quadtree.Digits.{
  interleave, xy_to_quadtree-interleave, quadtree_to_xy-every_second, every_second-interleave,
  interleave-every_second, interleave-lt, four_pow-small, interleave_ancestor, two-pow-double,
}

-- Up to zoom 15, the default maximum, a tile of the map survives the way to its number and back.
pub quadtree_to_xy-xy_to_quadtree :
    (x y zoom : ℕ)
    → zoom ≤ 15
    → x < 2 ^ zoom
    → y < 2 ^ zoom
    → quadtree_to_xy (xy_to_quadtree x y zoom) zoom ≡ record { x = x; y = y }
quadtree_to_xy-xy_to_quadtree x y zoom h hx hy =
    ap (λ q. quadtree_to_xy q zoom) (xy_to_quadtree-interleave x y zoom h)
    ∙ quadtree_to_xy-every_second _ zoom h
    ∙ ground (arith, every_second-interleave zoom x y, mod-eq_of_lt hx, mod-eq_of_lt hy)

-- A tile number with two binary digits for each zoom level survives the way to its tile and back.
pub xy_to_quadtree-quadtree_to_xy :
    (qt zoom : ℕ)
    → zoom ≤ 15
    → qt < 2 ^ zoom * 2 ^ zoom
    → let tile = quadtree_to_xy qt zoom in xy_to_quadtree tile.x tile.y zoom ≡ qt
xy_to_quadtree-quadtree_to_xy qt zoom small h =
    xy_to_quadtree-interleave _ _ zoom small
    ∙ ap (λ (t : XyCoord). interleave zoom t.x t.y) (quadtree_to_xy-every_second qt zoom small)
    ∙ interleave-every_second zoom qt
    ∙ mod-eq_of_lt h

-- At zoom levels up to 15 every tile number is that of a nonnegative `int`.
pub xy_to_quadtree-lt : (x y zoom : ℕ) → zoom ≤ 15 → xy_to_quadtree x y zoom < 2 ^ 31
xy_to_quadtree-lt x y zoom h =
    rw (xy_to_quadtree-interleave x y zoom h)
      (omega (arith, interleave-lt zoom x y, four_pow-small zoom h))

-- Dropping two binary digits for each level gives the number of the tile that encloses a tile.
pub xy_to_quadtree_parent :
    (d x y zoom : ℕ)
    → d + zoom ≤ 15
    → xy_to_quadtree x y (d + zoom) / 2 ^ (2 * d) ≡ xy_to_quadtree (x / 2 ^ d) (y / 2 ^ d) zoom
xy_to_quadtree_parent d x y zoom h =
    rw
      (
        xy_to_quadtree-interleave x y (d + zoom) h,
        two-pow-double d,
        xy_to_quadtree-interleave (x / 2 ^ d) (y / 2 ^ d) zoom (omega arith),
      )
      (interleave_ancestor d zoom (d + zoom) x y refl)
