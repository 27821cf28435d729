-- ===== src/Tests/Tiles.antt =====
-- Tile numbers, dirty tiles and the expiry file.
use cerepso.Base.{◌↔◌, ℕ, ◌<◌, true, List, [], ◌∷◌, Option, some, ◌≡◌, ◌⊎◌, refl, arith, All}
use cerepso.Base.Int.{pos, ◌+ℤ◌}
use cerepso.Quadtree.{xy_to_quadtree, quadtree_to_xy}
use cerepso.Quadtree.RoundTrip.{quadtree_to_xy-xy_to_quadtree}
use cerepso.TileSet.{contains, insert}
use cerepso.Expiry.{ZoomConfig, expire_tile, output_and_destroy}
use cerepso.Expiry.Lines
use cerepso.Expiry.Lines.{for_int, rounds_between}
use cerepso.Expiry.Coverage.{
  tile_number, row_at, expire_bbox_marks, expire_bbox_only, expire_vertical_line_exact,
  expire_slanted_line_north,
}
use cerepso.Expiry.Output.{Justified, output_and_destroy-Justified}
use cerepso.Tests.Instances.{whole}

-- The values of test/t/test_expire_tiles_quadtree.cpp.
quadtree_3_5 : xy_to_quadtree 3 5 3 ≡ 39
unfolding xy_to_quadtree
quadtree_3_5 = refl

quadtree_to_xy-xy_to_quadtree_example :
    quadtree_to_xy (xy_to_quadtree 3 5 3) 3 ≡ record { x = 3; y = 5 }
quadtree_to_xy-xy_to_quadtree_example =
    quadtree_to_xy-xy_to_quadtree 3 5 3 (omega arith) (omega arith) (omega arith)

abbrev config : ZoomConfig
config = record { m_min_zoom = 2; m_max_zoom = 3 }

abbrev single : ZoomConfig
single = record { m_min_zoom = 3; m_max_zoom = 3 }

output_and_destroy-Justified_example :
    All (Justified config (7 ∷ 39 ∷ [])) (output_and_destroy config true (7 ∷ 39 ∷ []))
output_and_destroy-Justified_example = output_and_destroy-Justified config true (7 ∷ 39 ∷ [])

-- What a marking operation leaves, and nothing where an assertion fails.
abbrev dirty_of : Option (List ℕ) → List ℕ
dirty_of Option.none = []
dirty_of (some dirty) = dirty

box : List ℕ
unfolding Lines.expire_bbox
box = dirty_of (Lines.expire_bbox whole config (pos 1) (pos 1) (pos 2) (pos 2) [])

expire_bbox_marks_example :
    contains (tile_number config (pos 1 +ℤ pos 1) (pos 1 +ℤ pos 0)) box ≡ true
unfolding box Lines.expire_bbox for_int Lines.mark expire_tile contains insert xy_to_quadtree ◌+ℤ◌
expire_bbox_marks_example =
    expire_bbox_marks whole config (pos 1) (pos 1) (pos 2) (pos 2) [] box refl 1 0 (omega arith)
      (omega arith)

expire_bbox_only_example :
    (contains 3 [] ≡ true)
    ⊎ ((i : ℕ) × (i < rounds_between (pos 1) (pos 2))
        × ((j : ℕ) × (j < rounds_between (pos 1) (pos 2))
            × (3 ≡ tile_number config (pos 1 +ℤ pos i) (pos 1 +ℤ pos j))))
unfolding box Lines.expire_bbox for_int Lines.mark expire_tile contains insert xy_to_quadtree ◌+ℤ◌
expire_bbox_only_example =
    expire_bbox_only whole config (pos 1) (pos 1) (pos 2) (pos 2) [] box 3 refl refl

column : List ℕ
unfolding Lines.expire_vertical_line
column = dirty_of (Lines.expire_vertical_line whole config (pos 1) (pos 1) (pos 3) [])

expire_slanted_line_north_example :
    let first = pos 0 +ℤ pos 1 in
    (contains 10 (Lines.expire_slanted_line whole config (pos 0) (pos 3) (pos 3) (pos 0) []) ≡ true)
    ↔ ((contains 10 [] ≡ true)
        ⊎ ((10 ≡ tile_number config (pos 0) (pos 3))
            ⊎ ((k : ℕ) × (k < rounds_between first (pos 3))
                × (10
                    ≡ tile_number config
                        (first +ℤ pos k)
                        (row_at whole config (pos 0) (pos 3) (pos 3) (pos 0) (first +ℤ pos k))))))
unfolding ◌+ℤ◌
expire_slanted_line_north_example =
    expire_slanted_line_north whole config (pos 0) (pos 3) (pos 3) (pos 0) [] 10 refl

vertical : List ℕ
unfolding Lines.expire_vertical_line
vertical = dirty_of (Lines.expire_vertical_line whole config (pos 1) (pos 1) (pos 3) [])

expire_vertical_line_exact_example :
    let first = pos 1 +ℤ pos 1 in
    (contains 11 vertical ≡ true) ↔ (
      (contains 11 [] ≡ true)
      ⊎ ((11 ≡ tile_number config (pos 1) (pos 1))
          ⊎ ((k : ℕ) × (k < rounds_between first (pos 3))
              × (11 ≡ tile_number config (pos 1) (first +ℤ pos k)))))
unfolding vertical Lines.expire_vertical_line
expire_vertical_line_exact_example =
    expire_vertical_line_exact whole config (pos 1) (pos 1) (pos 3) [] vertical 11 refl
