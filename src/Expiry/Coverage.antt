-- ===== src/Expiry/Coverage.antt =====
-- Which tiles the lines and boxes of Lines.antt make dirty.
use cerepso.Base.{◌↔◌, ℕ, ◌<◌, true, some, ◌≡◌, ◌⊎◌, inl, inr, arith}
use cerepso.Base.Int.{ℤ, pos, ◌+ℤ◌, ltb_ℤ}
use cerepso.Quadtree.{xy_to_quadtree}
use cerepso.TileSet.{contains}
use cerepso.Doubles.{Doubles}
use cerepso.Expiry.{ZoomConfig}
use cerepso.Expiry.Output.{contains-expire_tile}
use cerepso.Expiry.Lines
use cerepso.Expiry.Lines.{Dirty, int_bits, rounds_between, for_int}
use cerepso.Expiry.Loops.{Keeps, for_int-Keeps, for_int-hits, for_int-from}

-- The number of the tile in column `x` and row `y`.
abbrev pub tile_number : ZoomConfig → ℤ → ℤ → ℕ
tile_number config x y = xy_to_quadtree (int_bits x) (int_bits y) config.m_max_zoom

module _ (d : Doubles) (config : ZoomConfig) where
  mark-hits :
      (x y : ℤ) (dirty : Dirty)
      → contains (tile_number config x y) (Lines.mark d config x y dirty) ≡ true
  unfolding Lines.mark
  mark-hits x y dirty =
      rw (contains-expire_tile config (int_bits x) (int_bits y) (tile_number config x y) dirty)
        (ground arith)

  mark-keeps :
      (q : ℕ) (x y : ℤ) (dirty : Dirty)
      → contains q dirty ≡ true
      → contains q (Lines.mark d config x y dirty) ≡ true
  unfolding Lines.mark
  mark-keeps q x y dirty h =
      ground (arith, contains-expire_tile config (int_bits x) (int_bits y) q dirty)

  mark-from :
      (q : ℕ) (x y : ℤ) (dirty : Dirty)
      → contains q (Lines.mark d config x y dirty) ≡ true
      → (contains q dirty ≡ true) ⊎ (q ≡ tile_number config x y)
  unfolding Lines.mark
  mark-from q x y dirty h =
      ground (arith, contains-expire_tile config (int_bits x) (int_bits y) q dirty)

  open d use {Double, add, le, lt, to_int, numeral}

  -- A box that is not collapsed makes every tile from its first to its last column and row dirty.
  pub expire_bbox_marks :
      (x1 y1 x2 y2 : Double) (dirty after : Dirty)
      → Lines.expire_bbox d config x1 y1 x2 y2 dirty ≡ some after
      → (i j : ℕ) → i < rounds_between (to_int x1) (to_int x2)
      → j < rounds_between (to_int y1) (to_int y2)
      → contains (tile_number config (to_int x1 +ℤ pos i) (to_int y1 +ℤ pos j)) after ≡ true
  unfolding Lines.expire_bbox
  expire_bbox_marks x1 y1 x2 y2 dirty after e i j hi hj = rw (← same) (
      for_int-hits q column column-Keeps _ i _ dirty hi (λ before.
        for_int-hits q (row (to_int x1 +ℤ pos i)) (λ y b h. mark-keeps q _ y b h) _ j _ before hj
          (λ b. mark-hits _ _ b)))
    where
      q : ℕ
      q = tile_number config (to_int x1 +ℤ pos i) (to_int y1 +ℤ pos j)

      row : ℤ → ℤ → Dirty → Dirty
      row x y = Lines.mark d config x y

      column : ℤ → Dirty → Dirty
      column x = for_int (rounds_between (to_int y1) (to_int y2)) (to_int y1) (row x)

      column-Keeps : Keeps q column
      column-Keeps x before h = for_int-Keeps q (row x) (λ y b p. mark-keeps q x y b p) _ _ before h

      same : for_int (rounds_between (to_int x1) (to_int x2)) (to_int x1) column dirty ≡ after
      same = ground arith

  -- Behind `expire_bbox` every dirty tile was so before or lies in the box.
  pub expire_bbox_only :
      (x1 y1 x2 y2 : Double) (dirty after : Dirty) (q : ℕ)
      → Lines.expire_bbox d config x1 y1 x2 y2 dirty ≡ some after
      → contains q after ≡ true
      → (contains q dirty ≡ true)
        ⊎ ((i : ℕ) × (i < rounds_between (to_int x1) (to_int x2))
            × ((j : ℕ) × (j < rounds_between (to_int y1) (to_int y2))
                × (q ≡ tile_number config (to_int x1 +ℤ pos i) (to_int y1 +ℤ pos j))))
  unfolding Lines.expire_bbox
  expire_bbox_only x1 y1 x2 y2 dirty after q e h =
      for_int-from q column Hit column-from _ _ dirty (rw same h)
    where
      row : ℤ → ℤ → Dirty → Dirty
      row x y = Lines.mark d config x y

      column : ℤ → Dirty → Dirty
      column x = for_int (rounds_between (to_int y1) (to_int y2)) (to_int y1) (row x)

      Hit : ℤ → Type 0
      Hit x =
          (j : ℕ) × (j < rounds_between (to_int y1) (to_int y2))
          × (q ≡ tile_number config x (to_int y1 +ℤ pos j))

      column-from :
          (x : ℤ) (before : Dirty)
          → contains q (column x before) ≡ true
          → (contains q before ≡ true) ⊎ Hit x
      column-from x before p =
          for_int-from q (row x) (λ y. q ≡ tile_number config x y) (λ y b. mark-from q x y b) _ _
            before p

      same : for_int (rounds_between (to_int x1) (to_int x2)) (to_int x1) column dirty ≡ after
      same = ground arith

  -- Behind a vertical line whose ends are in order, so that no assertion fails, exactly these tiles
  -- are dirty: those that were so before, the tile of its southern end, and those of all rows up to
  -- its northern end.
  pub expire_vertical_line_exact :
      (x y1 y2 : Double) (dirty after : Dirty) (q : ℕ)
      → Lines.expire_vertical_line d config x y1 y2 dirty ≡ some after
      → let first = to_int (add y1 (numeral 1 0)) in
        (contains q after ≡ true) ↔ (
          (contains q dirty ≡ true)
          ⊎ ((q ≡ tile_number config (to_int x) (to_int y1))
              ⊎ ((k : ℕ) × (k < rounds_between first (to_int y2))
                  × (q ≡ tile_number config (to_int x) (first +ℤ pos k)))))
  unfolding Lines.expire_vertical_line
  expire_vertical_line_exact x y1 y2 dirty after q e = (
    λ h. only (rw (← same) at h),
    λ h. rw (← same) (elim h [
      | inl old ↦ keep (mark-keeps q _ _ dirty old)
      | inr (inl south) ↦
          rw south (for_int-Keeps _ row (λ y b p. mark-keeps _ _ y b p) _ _ _ (mark-hits _ _ dirty))
      | inr (inr (k, lt, hit)) ↦
          rw hit (
            for_int-hits _ row (λ y b p. mark-keeps _ _ y b p) _ k first _ lt
              (λ b. mark-hits _ _ b))
    ]),
  )
    where
      first : ℤ
      first = to_int (add y1 (numeral 1 0))

      row : ℤ → Dirty → Dirty
      row y = Lines.mark d config (to_int x) y

      start : Dirty
      start = Lines.mark d config (to_int x) (to_int y1) dirty

      same : for_int (rounds_between first (to_int y2)) first row start ≡ after
      same = ground arith

      keep :
          contains q start ≡ true
          → contains q (for_int (rounds_between first (to_int y2)) first row start) ≡ true
      keep h = for_int-Keeps _ row (λ y b p. mark-keeps _ _ y b p) _ _ _ h

      only :
          contains q (for_int (rounds_between first (to_int y2)) first row start) ≡ true
          → (contains q dirty ≡ true)
            ⊎ ((q ≡ tile_number config (to_int x) (to_int y1))
                ⊎ ((k : ℕ) × (k < rounds_between first (to_int y2))
                    × (q ≡ tile_number config (to_int x) (first +ℤ pos k))))
      only h =
          elim (for_int-from q row (λ y. q ≡ tile_number config (to_int x) y)
            (λ y b. mark-from q (to_int x) y b) _ first start h) [
              | inr hit ↦ inr (inr hit)
              | inl before ↦ elim (mark-from q (to_int x) (to_int y1) dirty before) [
                | inl old ↦ inl old
                | inr e ↦ inr (inl e)
              ]
            ]

  open d use {sub, mul, div, of_int}

  -- The row of a line in column `x`.
  abbrev pub row_at : Double → Double → Double → Double → ℤ → ℤ
  row_at x1 y1 x2 y2 x =
      let incline = div (sub y2 y1) (sub x2 x1) in
      to_int (add (mul incline (of_int x)) (sub y2 (mul incline x2)))

  -- Behind a slanted line whose rows fall from its western to its eastern end exactly these tiles
  -- are dirty: those that were so before, the tile of its western end, and one tile for each
  -- further column that it enters. So it marks none for the rows that it crosses.
  pub expire_slanted_line_north :
      (x1 y1 x2 y2 : Double) (dirty : Dirty) (q : ℕ)
      → ltb_ℤ (to_int y2) (to_int (add y1 (numeral 1 0))) ≡ true
      → let first = to_int (add x1 (numeral 1 0)) in
        (contains q (Lines.expire_slanted_line d config x1 y1 x2 y2 dirty) ≡ true) ↔ (
          (contains q dirty ≡ true)
          ⊎ ((q ≡ tile_number config (to_int x1) (to_int y1))
              ⊎ ((k : ℕ) × (k < rounds_between first (to_int x2))
                  × (q
                      ≡ tile_number config
                          (first +ℤ pos k)
                          (row_at x1 y1 x2 y2 (first +ℤ pos k))))))
  unfolding Lines.expire_slanted_line for_int
  expire_slanted_line_north x1 y1 x2 y2 dirty q falls = (
    λ h. only (rw no_rows at h),
    λ h. rw no_rows (elim h [
      | inl old ↦ mark-keeps q _ _ _ (keep (mark-keeps q _ _ dirty old))
      | inr (inl west) ↦ rw west (mark-hits (to_int x1) (to_int y1) _)
      | inr (inr (k, less, hit)) ↦ mark-keeps q _ _ _ (
          rw hit (
            for_int-hits _ column (λ x b p. mark-keeps _ x (row_at x1 y1 x2 y2 x) b p) _ k first _
              less (λ b. mark-hits _ _ b)))
    ]),
  )
    where
      first : ℤ
      first = to_int (add x1 (numeral 1 0))

      no_rows : rounds_between (to_int (add y1 (numeral 1 0))) (to_int y2) ≡ 0
      no_rows = ground arith

      column : ℤ → Dirty → Dirty
      column x = Lines.mark d config x (row_at x1 y1 x2 y2 x)

      start : Dirty
      start = Lines.mark d config (to_int x1) (to_int y1) dirty

      keep :
          contains q start ≡ true
          → contains q (for_int (rounds_between first (to_int x2)) first column start) ≡ true
      keep h =
          for_int-Keeps q column (λ x b p. mark-keeps q x (row_at x1 y1 x2 y2 x) b p)
            (rounds_between first (to_int x2)) first start h

      only :
          contains q (
              Lines.mark d config
                (to_int x1)
                (to_int y1)
                (for_int (rounds_between first (to_int x2)) first column start))
            ≡ true
          → (contains q dirty ≡ true)
            ⊎ ((q ≡ tile_number config (to_int x1) (to_int y1))
                ⊎ ((k : ℕ) × (k < rounds_between first (to_int x2))
                    × (q
                        ≡ tile_number config
                            (first +ℤ pos k)
                            (row_at x1 y1 x2 y2 (first +ℤ pos k)))))
      only h = elim (mark-from q (to_int x1) (to_int y1) _ h) [
        | inr e ↦ inr (inl e)
        | inl inside ↦
            elim (for_int-from q column (λ x. q ≡ tile_number config x (row_at x1 y1 x2 y2 x))
              (λ x b. mark-from q x (row_at x1 y1 x2 y2 x) b) (rounds_between first (to_int x2))
              first start inside) [
                | inr hit ↦ inr (inr hit)
                | inl before ↦ elim (mark-from q (to_int x1) (to_int y1) dirty before) [
                  | inl old ↦ inl old
                  | inr e ↦ inr (inl e)
                ]
              ]
      ]
