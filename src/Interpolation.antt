-- ===== src/Interpolation.antt =====
-- src/addr_interpolation_handler.cpp: `AddrInterpolationHandler`, the points of an interpolation.
pub mod Ways
pub mod Values
pub mod Numbers
pub mod Pointers
use cerepso.Base.{
  ℕ, zero, suc, ◌+◌, ◌-◌, ◌%◌, Bytes, Bool, true, false, not, ◌&&◌, ◌||◌, List, [], ◌∷◌, ◌++◌,
  Option, none, some, if◌then◌else◌, ◌==◌, ltb, equal, codes, Result, ok, err, ◌>>=◌,
}
use cerepso.Base.Int.{ℤ, pos, pos_part, neg_part}
use cerepso.Decimal.{decimal_ℤ}
use cerepso.Escape.{escape, add_separator_to_stringstream}
use cerepso.Osm.{Tag, Location, get_value_by_key}
use cerepso.Columns
use cerepso.Columns.{Column, ColumnClass}
use cerepso.Doubles.{Doubles}
use cerepso.HouseNumber.{
  HouseNumber, InterpolationType, odd, even, Fault, runtime_error, null_pointer, out_of_range,
  assertion, odd_difference, invalid_location, parse_number, valid, interpolation_difference,
  is_alphabetic, increment_alphabetic, increment_numeric,
}

-- What libosmium and the WKB factory contribute: the locations that the node references of a way
-- carry, distances, projections, and points, with `none` for a geometry error.
pub record Geometry (d : Doubles) : Type 0 where
  pub location_of : ℤ → Location
  pub distance : Location → Location → d.Double
  pub lonlat_to_mercator : Location → d.Double × d.Double
  pub mercator_to_lonlat : d.Double × d.Double → d.Double × d.Double
  pub location : d.Double → d.Double → Location
  pub create_point : Location → Option Bytes

abbrev pub tag_of : List Tag → ColumnClass → Option Bytes
tag_of tags Columns.interpolation_street = get_value_by_key tags (codes "addr:street")
tag_of tags Columns.interpolation_place = get_value_by_key tags (codes "addr:place")
tag_of tags Columns.interpolation_suburb = get_value_by_key tags (codes "addr:suburb")
tag_of tags Columns.interpolation_postcode = get_value_by_key tags (codes "addr:postcode")
tag_of tags Columns.interpolation_city = get_value_by_key tags (codes "addr:city")
tag_of tags Columns.interpolation_province = get_value_by_key tags (codes "addr:province")
tag_of tags Columns.interpolation_state = get_value_by_key tags (codes "addr:state")
tag_of tags _ = get_value_by_key tags (codes "addr:country")

abbrev pub suffix_text : ℕ → Bytes
suffix_text zero = []
suffix_text (suc c) = suc c ∷ []

abbrev pub wkb_or_empty : Option Bytes → Bytes
wkb_or_empty none = codes "010400000000000000"
wkb_or_empty (some wkb) = wkb

-- The column of one point; the location is given by its WKB.
unfoldable pub add_column : ℤ → List Tag → HouseNumber → Option Bytes → ColumnClass → Bytes → Bytes
unfolding escape decimal_ℤ get_value_by_key
add_column way_id tags1 hn wkb Columns.osm_id query = query ++ decimal_ℤ way_id
add_column way_id tags1 hn wkb Columns.interpolation_housenumber query =
    query ++ (decimal_ℤ hn.number ++ suffix_text hn.suffix)
add_column way_id tags1 hn wkb Columns.interpolation_street query =
    escape (tag_of tags1 Columns.interpolation_street) query
add_column way_id tags1 hn wkb Columns.interpolation_place query =
    escape (tag_of tags1 Columns.interpolation_place) query
add_column way_id tags1 hn wkb Columns.interpolation_suburb query =
    escape (tag_of tags1 Columns.interpolation_suburb) query
add_column way_id tags1 hn wkb Columns.interpolation_postcode query =
    escape (tag_of tags1 Columns.interpolation_postcode) query
add_column way_id tags1 hn wkb Columns.interpolation_city query =
    escape (tag_of tags1 Columns.interpolation_city) query
add_column way_id tags1 hn wkb Columns.interpolation_province query =
    escape (tag_of tags1 Columns.interpolation_province) query
add_column way_id tags1 hn wkb Columns.interpolation_state query =
    escape (tag_of tags1 Columns.interpolation_state) query
add_column way_id tags1 hn wkb Columns.interpolation_country query =
    escape (tag_of tags1 Columns.interpolation_country) query
add_column way_id tags1 hn wkb Columns.geometry_class query =
    query ++ (codes "SRID=4326;" ++ wkb_or_empty wkb)
add_column way_id tags1 hn wkb _ query = query ++ codes "\\N"

-- The loop over the columns; the flag is false at the first.
unfoldable pub columns_loop :
    ℤ → List Tag → HouseNumber → Option Bytes → Bool → List Column → Bytes → Bytes
unfolding add_column add_separator_to_stringstream
columns_loop way_id tags1 hn wkb later [] query = query
columns_loop way_id tags1 hn wkb later (it ∷ columns) query =
    columns_loop way_id tags1 hn wkb true columns (
      add_column way_id tags1 hn wkb it.column_class
        (if later then add_separator_to_stringstream query else query))

abbrev pub is_stepped : InterpolationType → Bool
is_stepped odd = true
is_stepped even = true
is_stepped _ = false

abbrev pub increment : InterpolationType → ℕ
increment type = if is_stepped type then 2 else 1

unfoldable pub new_number : InterpolationType → ℕ → HouseNumber → Result Fault HouseNumber
unfolding increment_alphabetic increment_numeric
new_number type i hn1 =
    if is_alphabetic type then increment_alphabetic i hn1 else ok (increment_numeric i hn1)

-- `::abs`
abbrev pub magnitude : ℤ → ℕ
magnitude z = pos_part z + neg_part z

-- The tags that a pointer points to.
abbrev pub pointed : Option (List Tag) → Result Fault (List Tag)
pointed none = err null_pointer
pointed (some tags) = ok tags

abbrev pub house_number_of : List Tag → Option Bytes
house_number_of tags = get_value_by_key tags (codes "addr:housenumber")

module _ (d : Doubles) (g : Geometry d) where
  open d use {Double, add, sub, mul, div, lt, of_int}
  open g use {location_of, distance, lonlat_to_mercator, mercator_to_lonlat, location, create_point}

  -- The distance throws where libosmium is given a location that is not valid.
  unfoldable pub segment_distance : ℤ → ℤ → Result Fault Double
  segment_distance a b =
      if (location_of a).valid && (location_of b).valid
      then ok (distance (location_of a) (location_of b))
      else err (runtime_error invalid_location)

  -- The length of so many segments.
  unfoldable pub total_length : ℕ → List ℤ → Double → Result Fault Double
  unfolding segment_distance
  total_length zero nodes sum = ok sum
  total_length (suc n) (a ∷ b ∷ nodes) sum =
      segment_distance a b >>= λ length. total_length n (b ∷ nodes) (add sum length)
  total_length (suc n) _ sum = err out_of_range

  pub record Segment : Type 0 where
    pub last_vertex : ℤ
    pub current : ℤ
    pub last_length : Double
    pub whole_segment : Double

  -- The loop along the line, from a vertex on where `traversed_length` is known.
  unfoldable pub traverse : Double → List ℤ → Double → Result Fault Segment
  unfolding segment_distance
  traverse interpol_length (a ∷ b ∷ nodes) traversed_length = segment_distance a b >>= λ whole.
      let later = traverse interpol_length (b ∷ nodes) (add traversed_length whole) in
      if lt (add traversed_length whole) interpol_length
      then later
      else ok (record {
        last_vertex = a;
        current = b;
        last_length = traversed_length;
        whole_segment = whole;
      })
  traverse interpol_length _ traversed_length = err out_of_range

  -- The point in a segment, in the plane of the Mercator projection.
  unfoldable pub point_in : Double → Segment → Location
  point_in interpol_length s =
      let part : Double = div (sub interpol_length s.last_length) s.whole_segment in
      let c1 : Double × Double = lonlat_to_mercator (location_of s.last_vertex) in
      let c2 : Double × Double = lonlat_to_mercator (location_of s.current) in
      let result : Double × Double =
        mercator_to_lonlat
          (add c1.0 (mul part (sub c2.0 c1.0)), add c1.1 (mul part (sub c2.1 c1.1))) in
      location result.0 result.1

  -- `it1` is the head of the list, and `it2` stands so many nodes behind it.
  unfoldable pub get_remote_point : List ℤ → ℕ → Double → Result Fault Location
  unfolding total_length traverse point_in
  get_remote_point nodes n fraction =
      if lt (of_int (pos 0)) fraction && lt fraction (of_int (pos 1))
      then (total_length n nodes (of_int (pos 0)) >>= λ total.
          traverse (mul total fraction) nodes (of_int (pos 0)) >>= λ s.
          ok (point_in (mul total fraction) s))
      else err assertion

  module _ (columns : List Column) (way_id : ℤ) (type : InterpolationType) where
    -- One line.
    unfoldable pub add_point : List Tag → HouseNumber → Location → Bytes → Bytes
    unfolding columns_loop
    add_point tags1 hn remote_loc query =
        columns_loop way_id tags1 hn (create_point remote_loc) false columns query ++ b'\n' ∷ []

    -- The loop over `i`, on fuel for `diff` rounds, of which it needs fewer.
    unfoldable pub points_loop :
        ℕ → List ℤ → ℕ → List Tag → HouseNumber → ℕ → ℕ → Bytes → Result Fault Bytes
    unfolding get_remote_point new_number add_point
    points_loop zero nodes n tags1 hn1 diff i query = ok query
    points_loop (suc fuel) nodes n tags1 hn1 diff i query =
        let round =
          get_remote_point nodes n (div (of_int (pos i)) (of_int (pos diff))) >>= λ remote_loc.
          new_number type i hn1 >>= λ hn.
          points_loop fuel nodes n tags1 hn1 diff (i + increment type)
            (add_point tags1 hn remote_loc query) in
        if ltb i diff then round else ok query

    -- What follows once both house numbers are known.
    unfoldable pub add_points_between :
        List ℤ → ℕ → List Tag → HouseNumber → HouseNumber → Bytes → Result Fault Bytes
    unfolding valid interpolation_difference points_loop
    add_points_between nodes n tags1 hn1 hn2 query =
        let diff : ℕ = magnitude (interpolation_difference type hn2 hn1) in
        if not (valid hn1) || not (valid hn2)
        then ok query
        else if is_stepped type && not (diff % 2 == 0)
        then err (runtime_error odd_difference)
        else points_loop diff nodes n tags1 hn1 diff (increment type) query

    unfoldable pub add_points_to_str :
        List ℤ → ℕ → Option (List Tag) → Option (List Tag) → Bytes → Result Fault Bytes
    unfolding parse_number add_points_between
    add_points_to_str nodes n tags1 tags2 query = pointed tags1 >>= λ t1.
        parse_number (house_number_of t1) >>= λ hn1. pointed tags2 >>= λ t2.
        parse_number (house_number_of t2) >>= λ hn2. add_points_between nodes n t1 hn1 hn2 query
