-- ===== src/Expiry/Normalise.antt =====
-- `normalise_tile_x_coord`: tile columns taken round the world.
use native.Mathlib.Nat.{mod-lt}
use cerepso.Base.{ℕ, suc, ◌+◌, ◌%◌, ◌<◌, ◌≡◌, ◌≢◌, arith}
use cerepso.Base.Int.{pos, negsuc}
use cerepso.Expiry.{normalise_tile_x_coord}

-- From zero on a column is reduced into the map.
pub normalise_nonneg :
    (w n : ℕ) → 0 < w → (normalise_tile_x_coord w (pos n) ≡ pos (n % w)) × (n % w < w)
unfolding normalise_tile_x_coord
normalise_nonneg w n h = (ground arith, mod-lt n h)

-- Every negative column that is no multiple of the map's width becomes one beyond the map, since
-- the remainder is subtracted from the width instead of added to it.
pub normalise_negative :
    (w n : ℕ)
    → 0 < w
    → suc n % w ≢ 0
    → (normalise_tile_x_coord w (negsuc n) ≡ pos (w + suc n % w + 1)) × (w < w + suc n % w + 1)
unfolding normalise_tile_x_coord
normalise_negative w n h ne = ground arith
