-- ===== src/Tests/Addresses.antt =====
-- Address interpolation.
use cerepso.Base.{
  Bytes, ℕ, ◌<◌, true, List, [], ◌∷◌, ◌++◌, none, some, ok, err, ◌≡◌, refl, subst, arith, codes,
  inl,
}
use cerepso.Base.Int.{ℤ, pos, ◌+ℤ◌, ◌-ℤ◌}
use cerepso.CopyText.{StaysInside-nil, rows}
use cerepso.Handler.Lines.{all_plain-StaysInside}
use cerepso.Decimal.{decimal}
use cerepso.Osm
use cerepso.Osm.{Tag, Location, OsmObject}
use cerepso.Doubles.{Doubles}
use cerepso.HouseNumber.{HouseNumber, every, null_pointer, out_of_range, parse_number}
use cerepso.HouseNumber.Parsing.{tail_text, suffix_of, parse_number-decimal}
use cerepso.RequiredNodes.{node_needed, required_nodes_tracking}
use cerepso.RequiredNodes.Lookup.{standing, node_needed-found, node_needed_out_of_range}
use cerepso.TagsStorage.{Element, tags_storage, get}
use cerepso.TagsStorage.Lookup.{adds, find, get-adds}
use cerepso.Interpolation.{Geometry, add_points_between, get_remote_point}
use cerepso.Interpolation.Numbers.{point_rows, add_points_between-rows}
use cerepso.Interpolation.Ways.{AddrInterpolationHandler, valid_interpolation, handle_way}
use cerepso.Interpolation.Pointers.{handle_way_null_pointer}
use cerepso.Tests.Connection.{server, fresh_table}
use cerepso.Tests.Instances.{whole, times, quotient}
use cerepso.Tests.Lines.{stop, id_column}

parse_number-decimal_example :
    parse_number (some (decimal 26 ++ tail_text true (some b'b')))
    ≡ ok (record { number = pos 26; suffix = suffix_of (some b'b') })
parse_number-decimal_example =
    parse_number-decimal 26 true (some b'b') (omega arith) (omega arith) refl

node_needed-found_example :
    node_needed (pos 7) (standing (pos 2 ∷ []) (pos 4 ∷ pos 7 ∷ pos 9 ∷ []))
    ≡ ok (true, record { m_vector = pos 2 ∷ pos 4 ∷ pos 7 ∷ pos 9 ∷ []; m_last_node_iter = 3 })
node_needed-found_example =
    node_needed-found (pos 2 ∷ []) (pos 4 ∷ []) (pos 9 ∷ []) (pos 7)
      ((omega arith, (omega arith, tt)), ((omega arith, tt), (tt, tt)))

node_needed_out_of_range_example :
    node_needed (pos 12) (standing [] (pos 4 ∷ pos 7 ∷ [])) ≡ err out_of_range
node_needed_out_of_range_example =
    node_needed_out_of_range [] (pos 7 ∷ []) (pos 4) (pos 12) (inl (omega arith, (omega arith, tt)))

abbrev tags : List Tag
tags = record { key = codes "addr:housenumber"; value = codes "1b" } ∷ []

abbrev stored : List Element
stored = record { m_id = pos 4; m_tags = tags } ∷ record { m_id = pos 7; m_tags = [] } ∷ []

get-adds_example : get (pos 7) (adds stored tags_storage) ≡ find (pos 7) stored
get-adds_example = get-adds stored (pos 7) ((omega arith, tt), (tt, tt))

-- Fractions in thousandths.
abbrev thousandths : Doubles
thousandths = record whole {
  mul = λ a b. quotient (times a b) (pos 1000);
  div = λ a b. quotient (times a (pos 1000)) b;
  of_int = λ n. times n (pos 1000);
}

abbrev place : ℤ → ℤ → Location
place x y = record { x = x; y = y; valid = true }

abbrev geometry : Geometry thousandths
geometry = record {
  location_of = λ id. place id (pos 0);
  distance = λ a b. pos 10000;
  lonlat_to_mercator = λ l. (l.x, l.y);
  mercator_to_lonlat = λ c. c;
  location = place;
  create_point = λ l. none;
}

abbrev line : List ℤ
line = pos 1000 ∷ pos 3000 ∷ []

-- Of the numbers 3 and 1, with 2 between them, the point is that of the number 4.
add_points_between-rows_example :
    let hn1 : HouseNumber = record { number = pos 3; suffix = 0 } in
    let hn2 : HouseNumber = record { number = pos 1; suffix = 0 } in
    (text : Bytes) × (add_points_between thousandths geometry
        (id_column ∷ [])
        (pos 5)
        every
        line
        1
        tags
        hn1
        hn2
        []
      ≡ ok text)
    × ((more : Bytes)
        → rows (text ++ more)
          ≡ point_rows thousandths geometry id_column []
              (pos 5)
              every
              line
              1
              tags
              (λ j. place (pos 2000) (pos 0))
              3
              0
              1
              1
            ++ rows more)
unfolding get_remote_point ◌+ℤ◌ ◌-ℤ◌
add_points_between-rows_example =
    add_points_between-rows thousandths geometry id_column [] (pos 5) every line 1 tags
      (λ j. place (pos 2000) (pos 0)) 3 0 StaysInside-nil
      (λ loc. all_plain-StaysInside (codes "010400000000000000") refl) 1 0 refl refl found
      (omega arith) (omega arith) (omega arith) (omega arith)
  where
    only_one : (j : ℕ) → 0 < j → j < 2 → 1 ≡ j
    only_one j p q = omega arith

    found :
        (j : ℕ)
        → 0 < j
        → j < 2
        → get_remote_point thousandths geometry line 1
            (quotient (times (times (pos j) (pos 1000)) (pos 1000)) (pos 2000))
          ≡ ok (place (pos 2000) (pos 0))
    found j p q =
        subst
          (λ k.
            get_remote_point thousandths geometry line 1
              (quotient (times (times (pos k) (pos 1000)) (pos 1000)) (pos 2000))
            ≡ ok (place (pos 2000) (pos 0)))
          (only_one j p q) refl

abbrev handler : AddrInterpolationHandler
handler = record {
  m_required_nodes = required_nodes_tracking;
  m_table = fresh_table;
  m_tags_storage = record { m_index = record { m_id = pos 1000; m_tags = tags } ∷ [] };
}

abbrev interpolation : OsmObject
interpolation = record stop {
  type = Osm.way;
  tags = record { key = codes "addr:interpolation"; value = codes "all" } ∷ [];
  nodes = line;
}

handle_way_null_pointer_example :
    handle_way server thousandths geometry interpolation handler ≡ err null_pointer
unfolding valid_interpolation Osm.get_value_by_key get parse_number
handle_way_null_pointer_example =
    handle_way_null_pointer thousandths geometry server handler interpolation (pos 1000) (pos 3000)
      [] tags (record { number = pos 1; suffix = b'b' }) refl refl refl refl (refl, tt)
