-- ===== src/Expiry/Output.antt =====
-- What `output_and_destroy` writes for a set of dirty tiles.
use native.Mathlib.Nat.{mul_comm, div-lt_iff_lt-mul, one-le-pow}
use cerepso.Base.{
  ℕ, zero, suc, ◌+◌, ◌-◌, ◌*◌, ◌/◌, ◌^◌, ◌≤◌, ◌<◌, Bool, true, false, List, [], ◌∷◌, ◌≡◌, refl, ap,
  ◌∙◌, arith, All, All-append, two-pow-add, ◌||◌, ◌==◌, Bool-cases, inl, inr, lt→ltb,
}
use cerepso.Quadtree.{shift_right, xy_to_quadtree, quadtree_to_xy}
use cerepso.Quadtree.RoundTrip.{
  xy_to_quadtree_parent, xy_to_quadtree-lt, quadtree_to_xy-xy_to_quadtree,
}
use cerepso.TileSet.{contains, contains-insert, Ascending, insert-Ascending}
use cerepso.Expiry.{
  ZoomConfig, expire_tile, Line, Written, write_tile, zoom_loop, tiles_loop, output_and_destroy,
}

contains-again :
    (j q : ℕ) (keys : List ℕ)
    → contains q keys ≡ true
    → contains j keys ≡ (q == j || contains j keys)
contains-again j q keys h = ground (arith, ap (λ (t : ℕ). contains t keys))

-- Marking a tile makes it dirty, and no other.
pub contains-expire_tile :
    (config : ZoomConfig) (x y j : ℕ) (dirty : List ℕ)
    → contains j (expire_tile config x y dirty)
      ≡ (xy_to_quadtree x y config.m_max_zoom == j || contains j dirty)
unfolding expire_tile
contains-expire_tile config x y j dirty =
    let q = xy_to_quadtree x y config.m_max_zoom in
    elim (Bool-cases (contains q dirty)) [
      | inl old ↦ rw old (contains-again j q dirty old)
      | inr new ↦ rw new (contains-insert j q dirty)
    ]

pub expire_tile-Ascending :
    (config : ZoomConfig) (x y : ℕ) (dirty : List ℕ)
    → Ascending dirty
    → Ascending (expire_tile config x y dirty)
unfolding expire_tile
expire_tile-Ascending config x y dirty h =
    ground (arith, insert-Ascending (xy_to_quadtree x y config.m_max_zoom) dirty)

-- The tile `dz` levels above a dirty tile.
abbrev pub line_of : ZoomConfig → ℕ → ℕ → Line
line_of config tile dz =
    let xy = quadtree_to_xy (shift_right tile (dz * 2)) (config.m_max_zoom - dz) in
    record { zoom = config.m_max_zoom - dz; x = xy.x; y = xy.y }

quadtree_to_xy_ancestor :
    (x y dz zoom top : ℕ)
    → dz + zoom ≡ top
    → top ≤ 15
    → x < 2 ^ top
    → y < 2 ^ top
    → quadtree_to_xy (shift_right (xy_to_quadtree x y top) (dz * 2)) zoom
      ≡ record { x = x / 2 ^ dz; y = y / 2 ^ dz }
quadtree_to_xy_ancestor x y dz zoom top e small hx hy =
    ap (λ (t : ℕ). quadtree_to_xy t zoom) (plain ∙ shifted)
    ∙ quadtree_to_xy-xy_to_quadtree _ _ zoom (omega arith) (below x hx) (below y hy)
  where
    plain : shift_right (xy_to_quadtree x y top) (dz * 2) ≡ xy_to_quadtree x y top / 2 ^ (dz * 2)
    plain = rw (lt→ltb _ _ (xy_to_quadtree-lt x y top small)) refl

    shifted : xy_to_quadtree x y top / 2 ^ (dz * 2) ≡ xy_to_quadtree (x / 2 ^ dz) (y / 2 ^ dz) zoom
    shifted = rw (← e, mul_comm dz 2) (xy_to_quadtree_parent dz x y zoom (omega arith))

    below : (v : ℕ) → v < 2 ^ top → v / 2 ^ dz < 2 ^ zoom
    below v h =
        (div-lt_iff_lt-mul (one-le-pow dz 2 (omega arith))).1
          (omega (arith, two-pow-add dz zoom, ap (λ (t : ℕ). 2 ^ t) e))

-- Up to zoom 15 the line for a marked tile of the map is the tile that encloses it at the lower zoom level.
pub line_of-xy_to_quadtree :
    (config : ZoomConfig) (x y dz : ℕ)
    → config.m_max_zoom ≤ 15
    → x < 2 ^ config.m_max_zoom
    → y < 2 ^ config.m_max_zoom
    → dz ≤ config.m_max_zoom
    → line_of config (xy_to_quadtree x y config.m_max_zoom) dz
      ≡ record { zoom = config.m_max_zoom - dz; x = x / 2 ^ dz; y = y / 2 ^ dz }
line_of-xy_to_quadtree config x y dz small hx hy h =
    let top = config.m_max_zoom in
    let level : dz + (top - dz) ≡ top = omega arith in
    let xy = quadtree_to_xy_ancestor x y dz (top - dz) top level small hx hy in ground (arith, xy)

-- A line is justified by a dirty tile and one of the requested zoom levels.
abbrev pub Justified : ZoomConfig → List ℕ → Line → Type 0
Justified config dirty l =
    (tile : ℕ) × (dz : ℕ) × (contains tile dirty ≡ true)
    × (dz + config.m_min_zoom ≤ config.m_max_zoom)
    × (l ≡ line_of config tile dz)

-- The loops keep `All P` of the lines, if every line that they may write has `P`.
module _ (config : ZoomConfig) (P : Line → Type 0) where
  write_tile-All :
      (tile dz : ℕ) (out : Written)
      → P (line_of config tile dz)
      → All P out.lines
      → All P (write_tile config tile dz out).lines
  unfolding write_tile
  write_tile-All tile dz out h p =
      elim (Bool-cases (contains (shift_right tile (dz * 2)) out.expired_tiles)) [
        | inl old ↦ rw old p
        | inr new ↦ rw new (All-append P out.lines _ p (h, tt))
      ]

  zoom_loop-All :
      (tile rounds dz : ℕ) (out : Written)
      → ((k : ℕ) → k < dz + rounds → P (line_of config tile k))
      → All P out.lines
      → All P (zoom_loop config tile rounds dz out).lines
  unfolding zoom_loop
  zoom_loop-All tile zero dz out h p = p
  zoom_loop-All tile (suc rounds) dz out h p =
      zoom_loop-All tile rounds (dz + 1) _ (λ k lt. h k (omega arith))
        (write_tile-All tile dz out (h dz (omega arith)) p)

  tiles_loop-All :
      (dirty : List ℕ) (out : Written)
      → ((tile dz : ℕ)
          → contains tile dirty ≡ true
          → dz + config.m_min_zoom ≤ config.m_max_zoom
          → P (line_of config tile dz))
      → All P out.lines
      → All P (tiles_loop config dirty out).lines
  unfolding tiles_loop contains
  tiles_loop-All [] out h p = p
  tiles_loop-All (tile ∷ dirty) out h p =
      tiles_loop-All dirty _ (λ t dz c le. h t dz (ground arith) le)
        (zoom_loop-All tile (config.m_max_zoom + 1 - config.m_min_zoom) 0 out
          (λ k (lt : k < 0 + (config.m_max_zoom + 1 - config.m_min_zoom)).
            h tile k (ground arith) (omega arith))
          p)

-- Every line written is for the tile that encloses a dirty tile at a requested zoom level.
pub output_and_destroy-Justified :
    (config : ZoomConfig) (opened : Bool) (dirty : List ℕ)
    → All (Justified config dirty) (output_and_destroy config opened dirty)
unfolding output_and_destroy
output_and_destroy-Justified config false dirty = tt
output_and_destroy-Justified config true dirty =
    tiles_loop-All config (Justified config dirty) dirty _ (λ tile dz c le. (tile, dz, c, le, refl))
      tt
