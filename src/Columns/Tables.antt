-- ===== src/Columns/Tables.antt =====
-- contrib/cerepso-postgres-backend/include/postgres_drivers/columns.hpp: `Columns`, the columns
-- of each table and its filters.
use cerepso.Base.{Bytes, Bool, true, false, not, ◌&&◌, List, [], ◌∷◌, ◌++◌, if◌then◌else◌}
use cerepso.Columns.{
  other, point, untagged_point, ways_linear, ways_polygon, relation_polygon, relation_other, area,
  node_ways, relation_member_nodes, relation_member_ways, relation_member_relations, geometry,
  point_type, multipoint, linestring, multilinestring, multipolygon, tags_other, osm_id, version,
  uid, username, changeset, timestamp, geometry_class, geometry_multipoint,
  geometry_multilinestring, other_class, interpolation_housenumber, interpolation_street,
  interpolation_place, interpolation_suburb, interpolation_postcode, interpolation_city,
  interpolation_province, interpolation_state, interpolation_country, node_id, way_id, relation_id,
  longitude, latitude, role, Column, TableType, column, geometry_column, tag_column,
  is_osm_object_table_type, smallint, int, bigint, text, hstore,
}

-- `osmium::metadata_options`
pub record MetadataOptions : Type 0 where
  pub user : Bool
  pub uid : Bool
  pub version : Bool
  pub timestamp : Bool
  pub changeset : Bool

-- `postgres_drivers::Config`, as far as the columns and the handlers read it.
pub record DriverConfig : Type 0 where
  pub tags_hstore : Bool
  pub metadata : MetadataOptions
  pub updateable : Bool
  pub untagged_nodes : Bool

abbrev pub when : Bool → Column → List Column
when true c = c ∷ []
when false c = []

-- The columns that `init` adds for an object, whatever its type.
unfoldable pub metadata_columns : MetadataOptions → List Column
unfolding column
metadata_columns m =
    (column "osm_id" bigint osm_id ∷ when m.user (column "osm_user" text username))
    ++ (when m.uid (column "osm_uid" bigint uid)
        ++ (when m.version (column "osm_version" int version)
            ++ (when m.timestamp (column "osm_lastmodified" text timestamp)
                ++ when m.changeset (column "osm_changeset" bigint changeset))))

-- The switch of `init`.
unfoldable pub type_columns : TableType → List Column
unfolding column geometry_column
type_columns point = geometry_column "geom" point_type 4326 ∷ []
type_columns untagged_point = column "x" int longitude ∷ column "y" int latitude ∷ []
type_columns ways_linear = geometry_column "geom" linestring 4326 ∷ []
type_columns ways_polygon = geometry_column "geom" multipolygon 4326 ∷ []
type_columns relation_polygon = geometry_column "geom" multipolygon 4326 ∷ []
type_columns relation_other =
    record (geometry_column "geom_points" multipoint 4326) { column_class = geometry_multipoint }
    ∷ record (geometry_column "geom_lines" multilinestring 4326) {
      column_class = geometry_multilinestring;
    }
    ∷ []
type_columns area = geometry_column "geom" geometry 4326 ∷ []
type_columns node_ways =
    column "way_id" bigint osm_id
    ∷ column "node_id" bigint node_id
    ∷ column "position" smallint other_class
    ∷ []
type_columns relation_member_nodes =
    column "member_id" bigint node_id
    ∷ column "relation_id" bigint osm_id
    ∷ column "position" smallint other_class
    ∷ column "role" text role
    ∷ []
type_columns relation_member_ways =
    column "member_id" bigint way_id
    ∷ column "relation_id" bigint osm_id
    ∷ column "position" smallint other_class
    ∷ column "role" text role
    ∷ []
type_columns relation_member_relations =
    column "member_id" bigint relation_id
    ∷ column "relation_id" bigint osm_id
    ∷ column "position" smallint other_class
    ∷ column "role" text role
    ∷ []
type_columns other = []

unfoldable pub init : DriverConfig → TableType → List Column
unfolding metadata_columns type_columns is_osm_object_table_type
init config type =
    (if is_osm_object_table_type type then metadata_columns config.metadata else [])
    ++ type_columns type

abbrev pub is_untagged_point : TableType → Bool
is_untagged_point untagged_point = true
is_untagged_point _ = false

-- `add_hstore_column`, with the test that both constructors put in front of it.
unfoldable pub hstore_column : DriverConfig → TableType → List Column
unfolding column is_osm_object_table_type
hstore_column config type =
    if is_osm_object_table_type type && not (is_untagged_point type)
    then when config.tags_hstore (column "tags" hstore tags_other)
    else []

-- `osmium::TagsFilter`: the default, and the rules in the order in which they were added.
pub record TagsFilter : Type 0 where
  pub default_result : Bool
  pub rules : List (Bool × Bytes)

pub record Columns : Type 0 where
  pub m_columns : List Column
  pub m_tags_filter : TagsFilter
  pub m_drop_filter : TagsFilter
  pub m_type : TableType

abbrev pub empty_filter : TagsFilter
empty_filter = record { default_result = false; rules = [] }

-- `Columns(Config&, TableType)`
unfoldable pub columns_of_type : DriverConfig → TableType → Columns
unfolding init hstore_column
columns_of_type config type = record {
  m_columns = init config type ++ hstore_column config type;
  m_tags_filter = empty_filter;
  m_drop_filter = empty_filter;
  m_type = type;
}

-- One rule for each tag column, and one for each key that gets no column.
unfoldable pub column_rules : List Column → List (Bool × Bytes)
column_rules [] = []
column_rules (c ∷ cols) =
    if tag_column c.column_class then (true, c.name) ∷ column_rules cols else column_rules cols

unfoldable pub key_rules : List Bytes → List (Bool × Bytes)
key_rules [] = []
key_rules (k ∷ keys) = (true, k) ∷ key_rules keys

-- `Columns(Config&, ColumnsVector&, osmium::TagsFilter, std::vector<std::string>&, TableType)`
unfoldable pub columns_with_style :
    DriverConfig → List Column → TagsFilter → List Bytes → TableType → Columns
unfolding init hstore_column column_rules key_rules
columns_with_style config additional_columns drop_filter nocolumn_keys type = record {
  m_columns = init config type ++ (additional_columns ++ hstore_column config type);
  m_tags_filter = record {
    default_result = false;
    rules = column_rules additional_columns ++ key_rules nocolumn_keys;
  };
  m_drop_filter = drop_filter;
  m_type = type;
}

unfoldable pub addr_interpolation_columns : List Column
unfolding column
addr_interpolation_columns =
    column "osm_id" int osm_id
    ∷ column "housenumber" text interpolation_housenumber
    ∷ column "street" text interpolation_street
    ∷ column "place" text interpolation_place
    ∷ column "suburb" text interpolation_suburb
    ∷ column "postcode" text interpolation_postcode
    ∷ column "city" text interpolation_city
    ∷ column "province" text interpolation_province
    ∷ column "state" text interpolation_state
    ∷ column "country" text interpolation_country
    ∷ column "geom" point_type geometry_class
    ∷ []

-- `Columns(ColumnsVector&&)`
unfoldable pub columns_other : List Column → Columns
unfolding column_rules
columns_other additional_columns = record {
  m_columns = additional_columns;
  m_tags_filter = record { default_result = false; rules = column_rules additional_columns };
  m_drop_filter = empty_filter;
  m_type = other;
}

-- `Columns(ColumnsVector, TableType)`
unfoldable pub columns_of_vector : List Column → TableType → Columns
columns_of_vector columns type = record {
  m_columns = columns;
  m_tags_filter = empty_filter;
  m_drop_filter = empty_filter;
  m_type = type;
}
