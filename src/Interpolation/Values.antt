-- ===== src/Interpolation/Values.antt =====
-- The values in the row of a point, and its number.
use cerepso.Base.{
  Option, [], ◌∷◌, ◌++◌, codes, All, map, append_assoc, ap, ◌∙◌, ◌^◌, ℕ, ◌+◌, ◌%◌, ◌<◌, Bytes, true,
  false, List, ◌≡◌, refl, arith, lt→ltb,
}
use cerepso.Base.Int.{ℤ, pos, ◌+ℤ◌}
use cerepso.CopyText.{StaysInside, StaysInside-append, StaysInside-escaped, line_text}
use cerepso.Decimal.{decimal, decimal_ℤ, decimal-StaysInside, decimal_ℤ-StaysInside}
use cerepso.Escape.{escape, add_separator_to_stringstream}
use cerepso.Escape.RoundTrip.{escape-append, escape-StaysInside}
use cerepso.Handler.Lines.{all_plain-StaysInside}
use cerepso.Osm.{Tag, get_value_by_key}
use cerepso.Columns
use cerepso.Columns.{Column, ColumnClass}
use cerepso.HouseNumber.{
  HouseNumber, InterpolationType, odd, even, unknown, every, alphabetic, from_bits, to_int,
  increment_numeric,
}
use cerepso.Interpolation.{add_column, columns_loop, suffix_text, wkb_or_empty, increment}

-- The value of one column of a point, as COPY is to read it.
unfoldable pub point_value : ℤ → List Tag → ℕ → ℕ → Option Bytes → ColumnClass → Bytes
point_value way_id tags number suffix wkb Columns.osm_id = decimal_ℤ way_id
point_value way_id tags number suffix wkb Columns.interpolation_housenumber =
    decimal number ++ suffix_text suffix
point_value way_id tags number suffix wkb Columns.interpolation_street =
    escape (get_value_by_key tags (codes "addr:street")) []
point_value way_id tags number suffix wkb Columns.interpolation_place =
    escape (get_value_by_key tags (codes "addr:place")) []
point_value way_id tags number suffix wkb Columns.interpolation_suburb =
    escape (get_value_by_key tags (codes "addr:suburb")) []
point_value way_id tags number suffix wkb Columns.interpolation_postcode =
    escape (get_value_by_key tags (codes "addr:postcode")) []
point_value way_id tags number suffix wkb Columns.interpolation_city =
    escape (get_value_by_key tags (codes "addr:city")) []
point_value way_id tags number suffix wkb Columns.interpolation_province =
    escape (get_value_by_key tags (codes "addr:province")) []
point_value way_id tags number suffix wkb Columns.interpolation_state =
    escape (get_value_by_key tags (codes "addr:state")) []
point_value way_id tags number suffix wkb Columns.interpolation_country =
    escape (get_value_by_key tags (codes "addr:country")) []
point_value way_id tags number suffix wkb Columns.geometry_class =
    codes "SRID=4326;" ++ wkb_or_empty wkb
point_value way_id tags number suffix wkb _ = codes "\\N"

-- The step between two numbers.
abbrev pub step : InterpolationType → ℕ
step odd = 2
step even = 2
step unknown = 1
step every = 1
step alphabetic = 1

pub increment-step : (type : InterpolationType) → increment type ≡ step type
increment-step odd = refl
increment-step even = refl
increment-step unknown = refl
increment-step every = refl
increment-step alphabetic = refl

module _ (way_id : ℤ) (tags1 : List Tag) (number suffix : ℕ) (wkb : Option Bytes) where
  unfoldable pub hn : HouseNumber
  hn = record { number = pos number; suffix = suffix }

  abbrev pub cell : Column → Bytes
  cell c = point_value way_id tags1 number suffix wkb c.column_class

  pub add_column-cell :
      (class : ColumnClass) (query : Bytes)
      → add_column way_id tags1 hn wkb class query
        ≡ query ++ point_value way_id tags1 number suffix wkb class
  unfolding add_column point_value hn decimal_ℤ
  add_column-cell Columns.osm_id query = refl
  add_column-cell Columns.interpolation_housenumber query = refl
  add_column-cell Columns.interpolation_street query =
      escape-append (get_value_by_key tags1 (codes "addr:street")) query
  add_column-cell Columns.interpolation_place query =
      escape-append (get_value_by_key tags1 (codes "addr:place")) query
  add_column-cell Columns.interpolation_suburb query =
      escape-append (get_value_by_key tags1 (codes "addr:suburb")) query
  add_column-cell Columns.interpolation_postcode query =
      escape-append (get_value_by_key tags1 (codes "addr:postcode")) query
  add_column-cell Columns.interpolation_city query =
      escape-append (get_value_by_key tags1 (codes "addr:city")) query
  add_column-cell Columns.interpolation_province query =
      escape-append (get_value_by_key tags1 (codes "addr:province")) query
  add_column-cell Columns.interpolation_state query =
      escape-append (get_value_by_key tags1 (codes "addr:state")) query
  add_column-cell Columns.interpolation_country query =
      escape-append (get_value_by_key tags1 (codes "addr:country")) query
  add_column-cell Columns.geometry_class query = refl
  add_column-cell _ query = refl

  pub cell-StaysInside :
      StaysInside (suffix_text suffix)
      → StaysInside (wkb_or_empty wkb)
      → (class : ColumnClass) → StaysInside (point_value way_id tags1 number suffix wkb class)
  unfolding point_value
  cell-StaysInside p q Columns.osm_id = decimal_ℤ-StaysInside way_id
  cell-StaysInside p q Columns.interpolation_housenumber =
      StaysInside-append (decimal number) (suffix_text suffix) (decimal-StaysInside number) p
  cell-StaysInside p q Columns.interpolation_street =
      escape-StaysInside (get_value_by_key tags1 (codes "addr:street"))
  cell-StaysInside p q Columns.interpolation_place =
      escape-StaysInside (get_value_by_key tags1 (codes "addr:place"))
  cell-StaysInside p q Columns.interpolation_suburb =
      escape-StaysInside (get_value_by_key tags1 (codes "addr:suburb"))
  cell-StaysInside p q Columns.interpolation_postcode =
      escape-StaysInside (get_value_by_key tags1 (codes "addr:postcode"))
  cell-StaysInside p q Columns.interpolation_city =
      escape-StaysInside (get_value_by_key tags1 (codes "addr:city"))
  cell-StaysInside p q Columns.interpolation_province =
      escape-StaysInside (get_value_by_key tags1 (codes "addr:province"))
  cell-StaysInside p q Columns.interpolation_state =
      escape-StaysInside (get_value_by_key tags1 (codes "addr:state"))
  cell-StaysInside p q Columns.interpolation_country =
      escape-StaysInside (get_value_by_key tags1 (codes "addr:country"))
  cell-StaysInside p q Columns.geometry_class =
      StaysInside-append (codes "SRID=4326;") (wkb_or_empty wkb)
        (all_plain-StaysInside (codes "SRID=4326;") refl) q
  cell-StaysInside p q _ = StaysInside-escaped b'N'

  columns_loop-line_text :
      (cols : List Column) (p v : Bytes)
      → columns_loop way_id tags1 hn wkb true cols (p ++ v) ++ b'\n' ∷ []
        ≡ p ++ line_text v (map cell cols)
  unfolding columns_loop line_text add_separator_to_stringstream
  columns_loop-line_text [] p v = append_assoc p v _
  columns_loop-line_text (c ∷ cols) p v =
      ap (λ q. columns_loop way_id tags1 hn wkb true cols q ++ b'\n' ∷ [])
        (add_column-cell c.column_class ((p ++ v) ++ b'\t' ∷ []))
      ∙ columns_loop-line_text cols ((p ++ v) ++ b'\t' ∷ []) (cell c)
      ∙ append_assoc (p ++ v) (b'\t' ∷ []) _
      ∙ append_assoc p v _

  pub line-line_text :
      (c : Column) (cols : List Column) (query : Bytes)
      → columns_loop way_id tags1 hn wkb false (c ∷ cols) query ++ b'\n' ∷ []
        ≡ query ++ line_text (cell c) (map cell cols)
  unfolding columns_loop
  line-line_text c cols query =
      ap (λ q. columns_loop way_id tags1 hn wkb true cols q ++ b'\n' ∷ [])
        (add_column-cell c.column_class query)
      ∙ columns_loop-line_text cols query (cell c)

  pub cells-StaysInside :
      StaysInside (suffix_text suffix)
      → StaysInside (wkb_or_empty wkb)
      → (cols : List Column) → All StaysInside (map cell cols)
  cells-StaysInside p q [] = tt
  cells-StaysInside p q (c ∷ cols) =
      (cell-StaysInside p q c.column_class, cells-StaysInside p q cols)

-- A sum below 2^31 does not overflow.
pub increment_numeric-small :
    (a s i : ℕ)
    → a + i < 2 ^ 31
    → increment_numeric i (record { number = pos a; suffix = s })
      ≡ record { number = pos (a + i); suffix = s }
unfolding increment_numeric ◌+ℤ◌
increment_numeric-small a s i h =
    let whole : (a + i) % 2 ^ 32 ≡ a + i = omega arith in
    let sum : pos a +ℤ pos i ≡ pos (a + i) = ground arith in
    ap (λ (z : ℤ). record { number = to_int z; suffix = s }) sum
    ∙ ap (λ (m : ℕ). record { number = from_bits m; suffix = s }) whole
    ∙ rw (lt→ltb (a + i) (2 ^ 31) h) refl
