-- ===== src/Expiry/Levels.antt =====
-- What `output_and_destroy` writes at one zoom level, and at more.
use cerepso.Base.{ℕ, ◌*◌, true, List, ◌++◌, ◌≡◌, All, ◌≢◌, false}
use cerepso.Quadtree.{shift_right}
use cerepso.TileSet.{contains}
use cerepso.Expiry.{ZoomConfig, Line, Written}
use cerepso.Expiry.Output.{line_of}

module _ (config : ZoomConfig) (one_level : config.m_min_zoom ≡ config.m_max_zoom) where
  abbrev Unwritten : Written → List ℕ → Type 0
  Unwritten out = All (λ t. contains t out.expired_tiles ≡ false)

-- A line for a tile whose number at its zoom level is not 0.
abbrev pub OtherNumber : ZoomConfig → Line → Type 0
OtherNumber config l =
    (tile : ℕ) × (dz : ℕ) × (shift_right tile (dz * 2) ≢ 0) × (l ≡ line_of config tile dz)

-- Lines that are appended once the number 0 is in the set.
record Adds (config : ZoomConfig) (out after : Written) : Type 0 where
  extra : List Line
  appended : after.lines ≡ out.lines ++ extra
  others : All (OtherNumber config) extra
  seen : contains 0 after.expired_tiles ≡ true
