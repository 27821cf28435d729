-- ===== src/Expiry/Lines.antt =====
-- src/expire_tiles.cpp and src/expire_tiles_quadtree.cpp: points, lines and boxes to tiles.
-- An operation returns `none` where an assertion fails. The dirty tiles are the state.
use cerepso.Base.{
  ℕ, zero, suc, ◌+◌, ◌-◌, ◌^◌, ◌/◌, Bool, not, ◌&&◌, ◌||◌, List, [], ◌∷◌, Option, none, some,
  if◌then◌else◌, ◌==◌,
}
use cerepso.Base.Int.{ℤ, pos, negsuc, pos_part, neg_part, ◌+ℤ◌}
use cerepso.Doubles.{Doubles}
use cerepso.Expiry.{ZoomConfig, expire_tile, map_width, normalise_tile_x_coord}

abbrev pub Dirty : Type 0
Dirty = List ℕ

-- The bit pattern of an `int` as the tile number sees it.
abbrev pub int_bits : ℤ → ℕ
int_bits (pos n) = n
int_bits (negsuc n) = 2 ^ 32 - suc n

-- The rounds of `for (int i = first; i <= last; i++)`.
abbrev pub rounds_between : ℤ → ℤ → ℕ
rounds_between first last = pos_part last + neg_part first + 1 - (pos_part first + neg_part last)

-- Such a loop, over a body that marks tiles.
unfoldable pub for_int : ℕ → ℤ → (ℤ → Dirty → Dirty) → Dirty → Dirty
unfolding ◌+ℤ◌
for_int zero i body dirty = dirty
for_int (suc rounds) i body dirty = for_int rounds (i +ℤ pos 1) body (body i dirty)

infixl 5 ◌>>=◌
abbrev ◌>>=◌ : Option Dirty → (Dirty → Option Dirty) → Option Dirty
none >>= f = none
some d >>= f = f d

module _ (d : Doubles) (config : ZoomConfig) where
  open d use {
    Double, add, sub, mul, div, lt, le, eq, of_int, to_int, numeral, sin, cos, acos, tan, log, abs,
    pi, deg_to_rad,
  }

  pub record TileCoordinate : Type 0 where
    pub x : Double
    pub y : Double

  abbrev pub width : Double
  width = of_int (pos (map_width config))

  abbrev earth_circumference : Double
  earth_circumference = numeral 4007501668 2

  abbrev limit_lat : Double
  limit_lat = numeral 8507 2

  abbrev negative : Double → Double
  negative a = sub (of_int (pos 0)) a

  unfoldable pub coords_to_tile : Double → Double → TileCoordinate
  coords_to_tile lon lat =
      let lat' =
        if lt limit_lat lat
        then limit_lat
        else if lt lat (negative limit_lat)
        then negative limit_lat
        else lat in
      let merc_x = div (mul lon earth_circumference) (numeral 360 0) in
      let merc_y =
        div
          (mul (log (tan (add (div pi (numeral 4 0)) (div (deg_to_rad lat') (numeral 2 0)))))
            earth_circumference)
          (mul pi (numeral 2 0)) in
      record {
        x = mul width (add (numeral 5 1) (div merc_x earth_circumference));
        y = mul width (sub (numeral 5 1) (div merc_y earth_circumference));
      }

  -- `expire_tile` at two `int`s.
  unfoldable pub mark : ℤ → ℤ → Dirty → Dirty
  mark x y = expire_tile config (int_bits x) (int_bits y)

  unfoldable pub expire_from_point : Double → Double → Dirty → Dirty
  expire_from_point lon lat =
      let tc = coords_to_tile lon lat in
      mark (normalise_tile_x_coord (map_width config) (to_int tc.x)) (to_int tc.y)

  unfoldable pub segment_length : Double → Double → Double → Double → Double
  segment_length lon1 lat1 lon2 lat2 =
      let degrad = div (numeral 314159265358979323846 20) (numeral 180 0) in
      mul
        (acos (
          add (mul (sin (mul lat1 degrad)) (sin (mul lat2 degrad))) (
            mul (mul (cos (mul lat1 degrad)) (cos (mul lat2 degrad)))
              (cos (mul (sub lon2 lon1) degrad)))))
        (numeral 6371000 0)

  unfoldable pub expire_vertical_line : Double → Double → Double → Dirty → Option Dirty
  expire_vertical_line x y1 y2 dirty =
      let first = to_int (add y1 (numeral 1 0)) in
      if le y1 y2
      then some (
          for_int (rounds_between first (to_int y2)) first (λ y. mark (to_int x) y)
            (mark (to_int x) (to_int y1) dirty))
      else none

  unfoldable pub expire_bbox : Double → Double → Double → Double → Dirty → Option Dirty
  expire_bbox x1 y1 x2 y2 dirty =
      if lt x1 x2 && lt y1 y2
      then some (
          for_int (rounds_between (to_int x1) (to_int x2)) (to_int x1)
            (λ x. for_int (rounds_between (to_int y1) (to_int y2)) (to_int y1) (λ y. mark x y))
            dirty)
      else none

  -- The columns and then the rows that a slanted line enters.
  unfoldable pub expire_slanted_line : Double → Double → Double → Double → Dirty → Dirty
  expire_slanted_line x1 y1 x2 y2 dirty =
      let incline = div (sub y2 y1) (sub x2 x1) in
      let y_intercept = sub y2 (mul incline x2) in
      let first_x = to_int (add x1 (numeral 1 0)) in
      let first_y = to_int (add y1 (numeral 1 0)) in
      for_int (rounds_between first_y (to_int y2)) first_y
        (λ y. mark (to_int (div (sub (of_int y) y_intercept) incline)) y)
        (mark (to_int x1) (to_int y1) (
          for_int (rounds_between first_x (to_int x2)) first_x
            (λ x. mark x (to_int (add (mul incline (of_int x)) y_intercept)))
            (mark (to_int x1) (to_int y1) dirty)))

  abbrev same_int : ℤ → ℤ → Bool
  same_int a b = int_bits a == int_bits b

  unfoldable pub expire_line_segment : Double → Double → Double → Double → Dirty → Option Dirty
  unfolding expire_slanted_line
  expire_line_segment x1 y1 x2 y2 dirty =
      if not (le x1 x2)
      then none
      else if not (le (sub x2 x1) (of_int (pos (map_width config / 2))))
      then none
      else if eq x1 x2 && eq y1 y2
      then some dirty
      else if lt (sub x2 x1) (numeral 1 0)
          && (same_int (to_int x2) (to_int x1) || lt (sub x2 x1) (numeral 1 8))
      then (if lt y2 y1
          then expire_vertical_line x1 y2 y1 dirty
          else expire_vertical_line x1 y1 y2 dirty)
      else some (expire_slanted_line x1 y1 x2 y2 dirty)

  -- The ends are in order here, west first.
  unfoldable pub expire_ordered : TileCoordinate → TileCoordinate → Dirty → Option Dirty
  expire_ordered tc1 tc2 dirty =
      if lt (of_int (pos (map_width config / 2))) (sub tc2.x tc1.x)
      then (if eq tc2.x width && eq tc1.x (of_int (pos 0))
          then expire_line_segment (of_int (pos 0)) tc1.y (of_int (pos 0)) tc2.y dirty
          else (let x_distance = sub (add width tc1.x) tc2.x in
              let y_split = add tc1.y (mul (sub tc2.y tc1.y) (div tc1.x x_distance)) in
              (expire_line_segment (of_int (pos 0)) y_split tc1.x tc1.y dirty
                >>= expire_line_segment tc2.x tc2.y width y_split)))
      else expire_line_segment tc1.x tc1.y tc2.x tc2.y dirty

  unfoldable pub expire_line_segment_180secure :
      Double → Double → Double → Double → Dirty → Option Dirty
  unfolding expire_ordered
  expire_line_segment_180secure lon1 lat1 lon2 lat2 =
      let tc1 = coords_to_tile lon1 lat1 in
      let tc2 = coords_to_tile lon2 lat2 in
      if lt tc2.x tc1.x then expire_ordered tc2 tc1 else expire_ordered tc1 tc2

  -- A coordinate sequence: longitudes and latitudes.
  abbrev pub Coords : Type 0
  Coords = List (Double × Double)

  unfoldable pub expire_points : Coords → Dirty → Dirty
  expire_points [] dirty = dirty
  expire_points ((lon, lat) ∷ coords) dirty = expire_points coords (expire_from_point lon lat dirty)

  abbrev pub last_of : Double × Double → Coords → Double × Double
  last_of p [] = p
  last_of p (q ∷ coords) = last_of q coords

  -- The long-line test that both overloads make, and the tiles of the nodes.
  unfoldable pub expire_if_long : Double × Double → Coords → Dirty → Dirty
  unfolding expire_points
  expire_if_long front rest dirty =
      let back = last_of front rest in
      if lt (numeral 20000 0) (segment_length front.0 front.1 back.0 back.1)
        && lt (numeral 1 0) (abs (sub front.0 back.0))
      then expire_points (front ∷ rest) dirty
      else dirty

  -- The overload for `osmium::NodeRefList`.
  unfoldable pub expire_from_node_refs : Double × Double → Coords → Dirty → Dirty
  unfolding expire_if_long
  expire_from_node_refs front rest dirty = expire_if_long front rest dirty

  unfoldable pub expire_segments : Double × Double → Coords → Dirty → Option Dirty
  expire_segments p [] dirty = some dirty
  expire_segments p (q ∷ coords) dirty =
      expire_line_segment_180secure p.0 p.1 q.0 q.1 dirty >>= expire_segments q coords

  -- The overload for `geos::geom::CoordinateSequence`, of two or more points.
  unfoldable pub expire_from_coord_sequence : Double × Double → Coords → Dirty → Option Dirty
  unfolding expire_if_long expire_segments
  expire_from_coord_sequence front rest dirty =
      expire_segments front rest (expire_if_long front rest dirty)
