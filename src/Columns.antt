-- ===== src/Columns.antt =====
-- contrib/cerepso-postgres-backend/include/postgres_drivers/columns.hpp: the columns of a table.
pub mod Tables
use cerepso.Base.{
  ℕ, Bytes, Bool, true, false, not, ◌&&◌, List, [], ◌∷◌, ◌++◌, if◌then◌else◌, ◌==◌, codes,
}
use cerepso.Decimal.{decimal}
use Prim.Native.Nat.{bit_and}
use Prim.Native.String.{String}

pub data TableType : Type 0 where
  other point untagged_point ways_linear ways_polygon relation_polygon relation_other area :
      TableType
  node_ways relation_member_nodes relation_member_ways relation_member_relations : TableType

abbrev pub table_type_osm_object_mask : ℕ
table_type_osm_object_mask = 0x10

abbrev pub table_type_osm_member_mask : ℕ
table_type_osm_member_mask = 0x20

-- The number behind the enumerator.
abbrev pub table_type_code : TableType → ℕ
table_type_code other = 0x10
table_type_code point = 0x11
table_type_code untagged_point = 0x12
table_type_code ways_linear = 0x13
table_type_code ways_polygon = 0x14
table_type_code relation_polygon = 0x15
table_type_code relation_other = 0x16
table_type_code area = 0x17
table_type_code node_ways = 0x20
table_type_code relation_member_nodes = 0x21
table_type_code relation_member_ways = 0x22
table_type_code relation_member_relations = 0x23

unfoldable pub is_osm_object_table_type : TableType → Bool
is_osm_object_table_type type =
    bit_and (table_type_code type) table_type_osm_object_mask == table_type_osm_object_mask

pub data ColumnType : Type 0 where
  none_type smallint int bigint bigint_array real char char_array text text_array hstore :
      ColumnType
  geometry point_type multipoint linestring multilinestring polygon multipolygon : ColumnType
  geometrycollection : ColumnType

pub data ColumnClass : Type 0 where
  none_class tags_other tag osm_id version uid username changeset timestamp : ColumnClass
  geometry_class way_nodes geometry_multipoint geometry_multilinestring other_class : ColumnClass
  interpolation_housenumber interpolation_street interpolation_place : ColumnClass
  interpolation_suburb interpolation_postcode interpolation_city : ColumnClass
  interpolation_province interpolation_state interpolation_country : ColumnClass
  node_id way_id relation_id longitude latitude role relation_type_id_role : ColumnClass

abbrev with_epsg : String → String → ℕ → Bytes
with_epsg plain named epsg =
    if not (epsg == 0) then codes plain else codes named ++ decimal epsg ++ b')' ∷ []

-- The reference system is written where it is 0 and left out where it is not.
unfoldable pub column_type_to_str : ColumnType → ℕ → Bytes
column_type_to_str smallint epsg = codes "smallint"
column_type_to_str int epsg = codes "int"
column_type_to_str bigint epsg = codes "bigint"
column_type_to_str bigint_array epsg = codes "bigint[]"
column_type_to_str real epsg = codes "real"
column_type_to_str char epsg = codes "char(1)"
column_type_to_str char_array epsg = codes "char(1)[]"
column_type_to_str text epsg = codes "text"
column_type_to_str text_array epsg = codes "text[]"
column_type_to_str point_type epsg = with_epsg "geometry(Point)" "geometry(Point, " epsg
column_type_to_str multipoint epsg = with_epsg "geometry(MultiPoint)" "geometry(PMultioint, " epsg
column_type_to_str linestring epsg = with_epsg "geometry(LineString)" "geometry(LineString, " epsg
column_type_to_str multilinestring epsg =
    with_epsg "geometry(MultiLineString)" "geometry(MultiLineString, " epsg
column_type_to_str polygon epsg = with_epsg "geometry(Polygon)" "geometry(Polygon, " epsg
column_type_to_str multipolygon epsg =
    with_epsg "geometry(MultiPolygon)" "geometry(MultiPolygon, " epsg
column_type_to_str geometry epsg = with_epsg "geometry(Geometry)" "geometry(Geometry, " epsg
column_type_to_str geometrycollection epsg =
    with_epsg "geometry(GeometryCollection)" "geometry(GeometryCollection, " epsg
column_type_to_str hstore epsg = codes "hstore"
column_type_to_str none_type epsg = []

pub record Column : Type 0 where
  pub name : Bytes
  pub type : ColumnType
  pub epsg : ℕ
  pub column_class : ColumnClass

-- The constructor with no reference system, and the one of a geometry column.
unfoldable pub column : String → ColumnType → ColumnClass → Column
column name type column_class = record {
  name = codes name;
  type = type;
  epsg = 0;
  column_class = column_class;
}

unfoldable pub geometry_column : String → ColumnType → ℕ → Column
geometry_column name type epsg = record {
  name = codes name;
  type = type;
  epsg = epsg;
  column_class = geometry_class;
}

unfoldable pub pg_type : Column → Bytes
unfolding column_type_to_str
pg_type c = column_type_to_str c.type c.epsg

abbrev pub tag_column : ColumnClass → Bool
tag_column tag = true
tag_column _ = false

-- `join_columns_to_str`; the flag is `add_splitter_to_first || it != vec.begin()`.
unfoldable pub join_columns_to_str : List Column → Bool → Bytes
join_columns_to_str [] splitter = []
join_columns_to_str (c ∷ vec) splitter =
    (if splitter then b',' ∷ b' ' ∷ [] else [])
    ++ (b'"' ∷ (c.name ++ (b'"' ∷ join_columns_to_str vec true)))
