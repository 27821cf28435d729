-- ===== src/Tests/Lines.antt =====
-- Lines for COPY.
use cerepso.Base.{
  Bytes, ok, arith, Bytes, true, false, List, [], ◌∷◌, ◌++◌, none, map, ◌≡◌, refl, arith, codes,
  All,
}
use cerepso.Base.Int.{pos, negsuc}
use cerepso.CopyText.{CopyFormat, StaysInside, rows}
use cerepso.Osm.{node, way, relation, Tag, OsmObject, get_value_by_key}
use cerepso.Columns
use cerepso.Columns.{Column, point, tag, column, geometry_column, is_osm_object_table_type}
use cerepso.Columns.Tables.{columns_with_style, DriverConfig, empty_filter}
use cerepso.Hstore.{h_store_parser}
use cerepso.Hstore.Reads.{Reads, tags_text, later_text}
use cerepso.Hstore.RoundTrip.{pair_text, quoted, quoted_char}
use cerepso.Handler.Row
use cerepso.Handler.Row.{Table}
use cerepso.Handler.Members
use cerepso.Handler.HstoreColumn.{pair_of, hstore_tags, add_tags_other-Reads}
use cerepso.Handler.Values.{value, values}
use cerepso.Handler.Lines.{PlainSources, all_plain-StaysInside, prepare_query-rows}
use cerepso.Handler.RelationLine
use cerepso.Handler.RelationLine.{prepare_relation_query-rows}
use cerepso.Handler.Contents.{columns_with_style-fill_field, tagged_nodes, tag_column-decode}
use cerepso.Handler.MemberRows.{
  node_rows, prepare_node_way_query-rows, member_rows, prepare_relation_member_list_query-rows,
}
use cerepso.Tests.Instances.{copy}

abbrev tags : List Tag
tags =
    record { key = codes "highway"; value = codes "bus_stop" }
    ∷ record { key = codes "note"; value = codes "a\"b\n" }
    ∷ []

abbrev config : DriverConfig
config = record {
  tags_hstore = true;
  metadata = record { user = true; uid = true; version = true; timestamp = true; changeset = true };
  updateable = true;
  untagged_nodes = true;
}

abbrev pub stop : OsmObject
stop = record {
  type = node;
  id = pos 26;
  version = 3;
  uid = 7;
  changeset = 99;
  user = codes "me\t";
  timestamp = codes "2018-01-01T00:00:00Z";
  deleted = false;
  tags = tags;
  location = record { x = pos 84000000; y = negsuc 490; valid = true };
  nodes = pos 4 ∷ negsuc 5 ∷ [];
  members =
      record { type = node; ref = pos 26; role = codes "stop" }
      ∷ record { type = way; ref = pos 5; role = [] }
      ∷ [];
  from_way = false;
  orig_id = pos 0;
}

abbrev pub table : Table
table = record { drops = λ t. false; updateable = true; create_wkb = λ o. none }

abbrev pub highway : Column
highway = record { name = codes "highway"; type = Columns.text; epsg = 0; column_class = tag }

abbrev pub id_column : Column
id_column = record {
  name = codes "osm_id";
  type = Columns.bigint;
  epsg = 0;
  column_class = Columns.osm_id;
}

abbrev pub more : Bytes
more = codes "next\n"

columns_with_style-fill_field_example :
    All
      (λ c. (row : Row.Row) → (Row.fill_field table stop c none row).column_added ≡ true)
      (columns_with_style config (highway ∷ []) empty_filter [] point).m_columns
columns_with_style-fill_field_example =
    columns_with_style-fill_field config point node (highway ∷ []) empty_filter [] table stop none
      tagged_nodes (refl, tt) refl refl

wkb_plain : StaysInside (Row.built_or (Row.empty_wkb node) none)
wkb_plain = all_plain-StaysInside _ refl

pub sources : PlainSources table stop
sources = record { iso = all_plain-StaysInside stop.timestamp refl; wkb = wkb_plain }

prepare_query-rows_example :
    rows (Row.prepare_query table (id_column ∷ highway ∷ []) stop none ++ more)
    ≡ values table stop none (id_column ∷ highway ∷ []) [] ∷ rows more
prepare_query-rows_example =
    prepare_query-rows table stop none sources id_column (highway ∷ []) more (refl, (refl, tt))

tag_column-decode_example :
    CopyFormat.decode copy (value table stop none highway []) ≡ codes "bus_stop"
unfolding get_value_by_key
tag_column-decode_example =
    tag_column-decode copy table stop none highway [] (codes "bus_stop") refl refl

add_tags_other-Reads_example :
    Reads
      (h_store_parser (CopyFormat.decode copy (Row.add_tags_other table stop [] none [])))
      (map pair_of (hstore_tags table stop [] none))
unfolding tags_text pair_text quoted quoted_char later_text hstore_tags Row.has_tag
add_tags_other-Reads_example = add_tags_other-Reads copy table stop [] none (omega arith)

member_list_example :
    rows (Members.prepare_relation_member_list_query stop way ++ more)
    ≡ member_rows way (pos 26) 0 stop.members ++ rows more
member_list_example = prepare_relation_member_list_query-rows stop way more

node_list_example :
    (line : Bytes) × (Members.prepare_node_way_query stop ≡ ok line)
    × ((more : Bytes) → rows (line ++ more) ≡ node_rows (pos 26) 0 stop.nodes ++ rows more)
node_list_example = prepare_node_way_query-rows stop (omega arith)

abbrev pub route : OsmObject
route = record stop { type = relation }

route_sources : PlainSources table route
route_sources = record {
  iso = all_plain-StaysInside route.timestamp refl;
  wkb = all_plain-StaysInside _ refl;
}

abbrev pub points_column : Column
points_column = record id_column { column_class = Columns.geometry_multipoint }

abbrev pub lines_column : Column
lines_column = record id_column { column_class = Columns.geometry_multilinestring }

-- Without an hstore column the row of a relation has four values for three columns.
prepare_relation_query-rows_example :
    rows (
      Row.prepare_relation_query table
        (id_column ∷ points_column ∷ lines_column ∷ [])
        route
        (codes "00")
        (codes "01")
        []
      ++ more)
    ≡ (value table route none id_column [] ∷ codes "SRID=4326;00" ∷ codes "SRID=4326;01" ∷ [] ∷ [])
      ∷ rows more
unfolding values RelationLine.first_behind RelationLine.later_behind
prepare_relation_query-rows_example =
    prepare_relation_query-rows table route (codes "00") (codes "01") route_sources
      (all_plain-StaysInside (codes "00") refl) (all_plain-StaysInside (codes "01") refl) id_column
      points_column lines_column [] [] more (refl, tt) refl refl tt
