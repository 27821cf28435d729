-- ===== src/Interpolation/Numbers.antt =====
-- The house numbers of the points between two nodes.
use cerepso.Base.{
  Option, [], ◌∷◌, ◌++◌, map, append_assoc, append-nil, ap, sym, ◌∙◌, ◌^◌, ℕ, zero, suc, ◌+◌, ◌-◌,
  ◌*◌, ◌/◌, ◌%◌, ◌≤◌, ◌<◌, Bytes, true, false, not, ◌&&◌, List, ◌==◌, ltb, ok, ◌≡◌, refl, arith,
  Bool-cases, inl, inr, lt→ltb,
}
use cerepso.Base.Int.{ℤ, pos, ◌-ℤ◌, ltb_ℤ}
use cerepso.CopyText.{StaysInside, rows, rows-line_text}
use cerepso.Osm.{Tag, Location}
use cerepso.Columns.{Column}
use cerepso.Doubles.{Doubles}
use cerepso.HouseNumber.{
  HouseNumber, InterpolationType, odd, even, unknown, every, alphabetic, is_alphabetic, valid,
  interpolation_difference, increment_numeric,
}
use cerepso.Interpolation.{
  Geometry, suffix_text, wkb_or_empty, add_point, points_loop, get_remote_point, new_number,
  increment, is_stepped, magnitude, add_points_between,
}
use cerepso.Interpolation.Values.{
  point_value, step, increment-step, hn, line-line_text, cell-StaysInside, cells-StaysInside,
  increment_numeric-small,
}

-- The loop from `i` to `diff` makes so many rounds.
data Rounds (inc diff : ℕ) : ℕ → ℕ → Type 0 where
  done : {i : ℕ} → diff ≤ i → Rounds inc diff i zero
  round : {i m : ℕ} → i < diff → Rounds inc diff (i + inc) m → Rounds inc diff i (suc m)

Rounds-one : (m i diff : ℕ) → diff ≡ i + m → Rounds 1 diff i m
Rounds-one zero i diff h = done (omega arith)
Rounds-one (suc m) i diff h = round (omega arith) (Rounds-one m (i + 1) diff (omega arith))

Rounds-two : (m i diff : ℕ) → diff ≡ i + 2 * m → Rounds 2 diff i m
Rounds-two zero i diff h = done (omega arith)
Rounds-two (suc m) i diff h = round (omega arith) (Rounds-two m (i + 2) diff (omega arith))

rounds_between :
    (type : InterpolationType) (diff : ℕ)
    → (is_stepped type && not (diff % 2 == 0)) ≡ false
    → 0 < diff
    → Rounds (increment type) diff (increment type) ((diff - 1) / increment type)
rounds_between type diff even_diff p = elim (Bool-cases (is_stepped type)) [
  | inl s ↦
      let parity : diff % 2 ≡ 0 = ground arith in
      rw s (Rounds-two ((diff - 1) / 2) 2 diff (omega arith))
  | inr s ↦ rw s (Rounds-one ((diff - 1) / 1) 1 diff (omega arith))
]

no_rounds : (type : InterpolationType) → (0 - 1) / increment type ≡ 0
no_rounds type = ground arith

rounds_any :
    (type : InterpolationType) (diff : ℕ)
    → (is_stepped type && not (diff % 2 == 0)) ≡ false
    → Rounds (increment type) diff (increment type) ((diff - 1) / increment type)
rounds_any type zero e = rw (no_rounds type) (done (omega arith))
rounds_any type (suc k) e = rounds_between type (suc k) e (omega arith)

increment_pos : (type : InterpolationType) → 0 < increment type
increment_pos type = ground arith

rounds_le : (type : InterpolationType) (diff : ℕ) → (diff - 1) / increment type ≤ diff
rounds_le type diff = ground arith

-- The distance of two numbers.
abbrev pub gap : ℕ → ℕ → ℕ
gap a b = (b - a) + (a - b)

magnitude-gap : (a b : ℕ) → magnitude (pos b -ℤ pos a) ≡ gap a b
unfolding ◌-ℤ◌
magnitude-gap a b = ground arith

module _ (d : Doubles) (g : Geometry d) (columns : List Column) (way_id : ℤ)
    (type : InterpolationType) (nodes : List ℤ) (n : ℕ) (tags1 : List Tag) where
  open d use {div, of_int}

  -- Lines for the numbers from `hn1.number + i` on, at the locations that are given for the steps.
  unfoldable lines : (ℕ → Location) → HouseNumber → ℕ → ℕ → Bytes → Bytes
  unfolding increment_numeric
  lines at hn1 zero i query = query
  lines at hn1 (suc m) i query =
      lines at hn1 m (i + increment type)
        (add_point d g columns way_id type tags1 (increment_numeric i hn1) (at i) query)

  points_loop-lines :
      (at : ℕ → Location) (hn1 : HouseNumber) (diff fuel i m : ℕ) (query : Bytes)
      → is_alphabetic type ≡ false
      → ((j : ℕ)
          → 0 < j
          → j < diff
          → get_remote_point d g nodes n (div (of_int (pos j)) (of_int (pos diff))) ≡ ok (at j))
      → m ≤ fuel
      → 0 < i
      → Rounds (increment type) diff i m
      → points_loop d g columns way_id type fuel nodes n tags1 hn1 diff i query
        ≡ ok (lines at hn1 m i query)
  unfolding points_loop lines new_number
  points_loop-lines at hn1 diff zero i zero query a r f p (done h) = refl
  points_loop-lines at hn1 diff (suc fuel) i zero query a r f p (done h) = rw (stop) refl
    where
      stop : ltb i diff ≡ false
      stop = ground arith
  points_loop-lines at hn1 diff zero i (suc m) query a r f p (round h rest) = absurd (omega arith)
  points_loop-lines at hn1 diff (suc fuel) i (suc m) query a r f p (round h rest) =
      rw (lt→ltb i diff h, r i p h, a)
        (points_loop-lines at hn1 diff fuel (i + increment type) m _ a r (omega arith) (omega arith)
          rest)

  all_rounds :
      (at : ℕ → Location) (hn1 : HouseNumber) (diff : ℕ) (query : Bytes)
      → is_alphabetic type ≡ false
      → (is_stepped type && not (diff % 2 == 0)) ≡ false
      → ((j : ℕ)
          → 0 < j
          → j < diff
          → get_remote_point d g nodes n (div (of_int (pos j)) (of_int (pos diff))) ≡ ok (at j))
      → points_loop d g columns way_id type diff nodes n tags1 hn1 diff (increment type) query
        ≡ ok (lines at hn1 ((diff - 1) / increment type) (increment type) query)
  unfolding points_loop lines
  all_rounds at hn1 zero query al ev r = rw (no_rounds type) refl
  all_rounds at hn1 (suc k) query al ev r =
      points_loop-lines at hn1 (suc k) (suc k) (increment type) _ query al r
        (rounds_le type (suc k)) (increment_pos type) (rounds_between type (suc k) ev (omega arith))

module _ (d : Doubles) (g : Geometry d) (c : Column) (cols : List Column) (way_id : ℤ)
    (type : InterpolationType) (nodes : List ℤ) (n : ℕ) (tags1 : List Tag) (at : ℕ → Location)
    (a s1 : ℕ) where
  open d use {div, of_int}
  open g use {create_point}

  -- The row of a point: a value for each column.
  abbrev pub point_row : ℕ → Location → List Bytes
  point_row number loc =
      map (λ (x : Column). point_value way_id tags1 number s1 (create_point loc) x.column_class)
        (c ∷ cols)

  -- The rows of so many points, the first of them `i` numbers above `a`.
  unfoldable pub point_rows : ℕ → ℕ → List (List Bytes)
  point_rows zero i = []
  point_rows (suc m) i = point_row (a + i) (at i) ∷ point_rows m (i + step type)

  module _ (plain_suffix : StaysInside (suffix_text s1))
      (plain_points : (loc : Location) → StaysInside (wkb_or_empty (create_point loc))) where
    add_point-row :
        (number : ℕ) (loc : Location) (query : Bytes) (front : List (List Bytes))
        → ((more : Bytes) → rows (query ++ more) ≡ front ++ rows more)
        → (more : Bytes)
        → rows (
            add_point d g
              (c ∷ cols)
              way_id
              type
              tags1
              (record { number = pos number; suffix = s1 })
              loc
              query
            ++ more)
          ≡ (front ++ point_row number loc ∷ []) ++ rows more
    unfolding add_point hn
    add_point-row number loc query front before more =
        ap (λ t. rows (t ++ more)) (line-line_text way_id tags1 number s1 wkb c cols query)
        ∙ ap rows (append_assoc query _ more)
        ∙ before _
        ∙ ap (◌++◌ front) (
            rows-line_text _ _ more
              (cell-StaysInside way_id tags1 number s1 wkb plain_suffix (plain_points loc)
                c.column_class)
              (cells-StaysInside way_id tags1 number s1 wkb plain_suffix (plain_points loc) cols))
        ∙ sym (append_assoc front (point_row number loc ∷ []) (rows more))
      where
        wkb : Option Bytes
        wkb = create_point loc

    lines-rows :
        (diff i m : ℕ) (query : Bytes) (front : List (List Bytes))
        → a + diff ≤ 2 ^ 31
        → Rounds (increment type) diff i m
        → ((more : Bytes) → rows (query ++ more) ≡ front ++ rows more)
        → (more : Bytes)
        → rows (
            lines d g
              (c ∷ cols)
              way_id
              type
              nodes
              n
              tags1
              at
              (record { number = pos a; suffix = s1 })
              m
              i
              query
            ++ more)
          ≡ (front ++ point_rows m i) ++ rows more
    unfolding lines point_rows
    lines-rows diff i zero query front h (done e) before more =
        before more ∙ rw (append-nil front) refl
    lines-rows diff i (suc m) query front h (round e rest) before more =
        ap
          (λ (h : HouseNumber). rows (
            lines d g (c ∷ cols) way_id type nodes n tags1 at
              (record { number = pos a; suffix = s1 }) m (i + increment type)
              (add_point d g (c ∷ cols) way_id type tags1 h (at i) query)
            ++ more))
          (increment_numeric-small a s1 i (omega arith))
        ∙ lines-rows diff (i + increment type) m _ (front ++ point_row (a + i) (at i) ∷ []) h rest
            (add_point-row (a + i) (at i) query front before) more
        ∙ ap (λ rs. rs ++ rows more)
            (append_assoc front (point_row (a + i) (at i) ∷ []) _ ∙ next_rows)
      where
        next_rows :
            front ++ (point_row (a + i) (at i) ∷ point_rows m (i + increment type))
            ≡ front ++ (point_row (a + i) (at i) ∷ point_rows m (i + step type))
        next_rows = rw (increment-step type) refl

    -- Two house numbers `a` and `b` that are positive `int`s, for all types but "alphabetic": the
    -- points between them are sent as one row each, for the numbers above `a` and below
    -- `a` + |`b` - `a`| in steps of 2 for "odd" and "even", where the difference is even, and else
    -- of 1. COPY reads in each row the number with the suffix of the first house number, its tags
    -- and the point. So numbers are counted upward also where `b` is less than `a`. A point is found
    -- for each step, no number leaves the range of `int`, and the suffix and the WKB of points hold
    -- no tab, newline or backslash of their own.
    pub add_points_between-rows :
        (b s2 : ℕ)
        → is_alphabetic type ≡ false
        → gap a b % step type ≡ 0
        → ((j : ℕ)
            → 0 < j
            → j < gap a b
            → get_remote_point d g nodes n (div (of_int (pos j)) (of_int (pos (gap a b))))
              ≡ ok (at j))
        → 0 < a
        → 0 < b
        → b < 2 ^ 31
        → a + gap a b ≤ 2 ^ 31
        → let hn1 : HouseNumber = record { number = pos a; suffix = s1 } in
          let hn2 : HouseNumber = record { number = pos b; suffix = s2 } in
          (text : Bytes) × (add_points_between d g (c ∷ cols) way_id type nodes n tags1 hn1 hn2 []
            ≡ ok text)
          × ((more : Bytes)
              → rows (text ++ more)
                ≡ point_rows ((gap a b - 1) / step type) (step type) ++ rows more)
    unfolding add_points_between valid interpolation_difference
    add_points_between-rows b s2 al ev r p q small_b small = (
      lines d g (c ∷ cols) way_id type nodes n tags1 at (record { number = pos a; suffix = s1 })
          ((gap a b - 1) / increment type) (increment type) [],
      rw (al, magnitude-gap a b, positive a p, positive b q, even_gap type ev)
          (all_rounds d g (c ∷ cols) way_id type nodes n tags1 at
            (record { number = pos a; suffix = s1 }) (gap a b) [] al (even_gap type ev) r),
      λ more.
          lines-rows (gap a b) (increment type) ((gap a b - 1) / increment type) [] [] small
            (rounds_any type (gap a b) (even_gap type ev)) (λ more. refl) more
          ∙ ap (λ (k : ℕ). point_rows ((gap a b - 1) / k) k ++ rows more) (increment-step type),
    )
      where
        positive : (k : ℕ) → 0 < k → ltb_ℤ (pos 0) (pos k) ≡ true
        positive k h = ground arith

        even_gap :
            (t : InterpolationType)
            → gap a b % step t ≡ 0
            → (is_stepped t && not (gap a b % 2 == 0)) ≡ false
        even_gap odd e = ground (arith, e)
        even_gap even e = ground (arith, e)
        even_gap unknown e = refl
        even_gap every e = refl
        even_gap alphabetic e = refl
