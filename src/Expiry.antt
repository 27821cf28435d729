-- ===== src/Expiry.antt =====
-- src/expire_tiles_quadtree.cpp and src/expire_tiles.cpp: the set of dirty tiles, and its output.
pub mod Normalise
pub mod Lines
pub mod Loops
pub mod Coverage
pub mod Output
pub mod Levels
use cerepso.Base.{
  ℕ, zero, suc, ◌+◌, ◌-◌, ◌*◌, ◌/◌, ◌%◌, ◌^◌, Bool, true, false, not, List, [], ◌∷◌, ◌++◌,
  if◌then◌else◌,
}
use cerepso.Base.Int.{ℤ, pos, negsuc, ◌+ℤ◌, ◌-ℤ◌, ltb_ℤ}
use cerepso.Quadtree.{shift_right, xy_to_quadtree, quadtree_to_xy}
use cerepso.TileSet.{contains, insert}

-- The part of `CerepsoConfig` that tile expiry reads.
pub record ZoomConfig : Type 0 where
  pub m_min_zoom : ℕ
  pub m_max_zoom : ℕ

-- `x % map_width` of C++, which rounds towards zero, and the rest of `normalise_tile_x_coord`.
unfoldable pub c_remainder : ℤ → ℕ → ℤ
unfolding ◌-ℤ◌
c_remainder (pos n) w = pos (n % w)
c_remainder (negsuc n) w = pos 0 -ℤ pos (suc n % w)

unfoldable pub normalise_tile_x_coord : ℕ → ℤ → ℤ
unfolding c_remainder ◌-ℤ◌ ◌+ℤ◌
normalise_tile_x_coord map_width x =
    let r = c_remainder x map_width in if ltb_ℤ r (pos 0) then pos map_width -ℤ r +ℤ pos 1 else r

-- The constructor's `map_width = 1 << config.m_max_zoom`.
unfoldable pub map_width : ZoomConfig → ℕ
map_width config = 2 ^ config.m_max_zoom

-- The state is the keys of `m_dirty_tiles`.
unfoldable pub expire_tile : ZoomConfig → ℕ → ℕ → List ℕ → List ℕ
expire_tile config x y dirty =
    if not (contains (xy_to_quadtree x y config.m_max_zoom) dirty)
    then insert (xy_to_quadtree x y config.m_max_zoom) dirty
    else dirty

-- A line of the expiry file: "%i/%i/%i\n".
pub record Line : Type 0 where
  pub zoom : ℕ
  pub x : ℕ
  pub y : ℕ

-- `expired_tiles` and the lines written so far.
pub record Written : Type 0 where
  pub expired_tiles : List ℕ
  pub lines : List Line

unfoldable pub write_tile : ZoomConfig → ℕ → ℕ → Written → Written
write_tile config tile dz out =
    let qt_new = shift_right tile (dz * 2) in
    let xy = quadtree_to_xy qt_new (config.m_max_zoom - dz) in
    if not (contains qt_new out.expired_tiles)
    then record {
      expired_tiles = insert qt_new out.expired_tiles;
      lines = out.lines ++ (record { zoom = config.m_max_zoom - dz; x = xy.x; y = xy.y } ∷ []);
    }
    else out

-- The inner loop, with its rounds left. There is none if the zoom levels are in the wrong order.
unfoldable pub zoom_loop : ZoomConfig → ℕ → ℕ → ℕ → Written → Written
unfolding write_tile
zoom_loop config tile zero dz out = out
zoom_loop config tile (suc rounds) dz out =
    zoom_loop config tile rounds (dz + 1) (write_tile config tile dz out)

-- The outer loop, over `m_dirty_tiles` in ascending order. Numbers that have overflowed are taken
-- last here, as their patterns are the greatest; in the source they are negative and come first.
unfoldable pub tiles_loop : ZoomConfig → List ℕ → Written → Written
unfolding zoom_loop
tiles_loop config [] out = out
tiles_loop config (tile ∷ dirty) out =
    tiles_loop config dirty
      (zoom_loop config tile (config.m_max_zoom + 1 - config.m_min_zoom) 0 out)

-- The lines appended to the file; `opened` says that `fopen` gave a file.
unfoldable pub output_and_destroy : ZoomConfig → Bool → List ℕ → List Line
unfolding tiles_loop
output_and_destroy config false dirty = []
output_and_destroy config true dirty =
    (tiles_loop config dirty (record { expired_tiles = []; lines = [] })).lines
