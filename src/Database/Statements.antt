-- ===== src/Database/Statements.antt =====
-- `create_prepared_statements`: which statements each type of table prepares.
use cerepso.Base.{
  Bytes, Bool, true, false, not, ◌&&◌, ◌||◌, equal, List, [], ◌∷◌, ◌++◌, if◌then◌else◌, codes,
  Result, ok, ◌>>=◌, ◌≡◌, refl,
}
use Prim.Native.String.{String}
use cerepso.Columns.{
  TableType, other, point, untagged_point, ways_linear, ways_polygon, relation_polygon,
  relation_other, area, node_ways, relation_member_nodes, relation_member_ways,
  relation_member_relations, is_osm_object_table_type,
}
use cerepso.Database.{Server, Fault, Table, create_prepared_statement}

-- A statement with the name of the table between two texts.
abbrev pub on : Bytes → String → String → Bytes
on table before behind = codes before ++ (table ++ codes behind)

abbrev pub delete_statement : Bytes → Bytes × Bytes
delete_statement name = (codes "delete_statement", on name "DELETE FROM " " WHERE osm_id = $1")

abbrev pub update_geometry : Bytes → Bytes × Bytes
update_geometry name =
    (codes "update_geometry", on name "UPDATE " " SET geom = $1 WHERE osm_id = $2")

abbrev pub member_statements : Bytes → List (Bytes × Bytes)
member_statements name =
    (codes "get_relation_ids_by_member", on name "SELECT relation_id FROM " " WHERE member_id = $1")
    ∷ (codes "delete_relation_members", on name "DELETE FROM " " WHERE relation_id = $1")
    ∷ (codes "delete_statement", on name "DELETE FROM " " WHERE member_id = $1")
    ∷ (
      codes "get_members_by_relation_id",
      on name "SELECT member_id, position FROM " " WHERE relation_id = $1",
    )
    ∷ []

-- The chain of tests on the type.
unfoldable pub type_statements : TableType → Bytes → List (Bytes × Bytes)
type_statements point name =
    (
      codes "get_location_from_point_table",
      on name "SELECT ST_X(geom), ST_Y(geom) FROM " " WHERE osm_id = $1",
    )
    ∷ []
type_statements untagged_point name =
    (
      codes "get_location_from_untagged_nodes_table",
      on name "SELECT x, y FROM " " WHERE osm_id = $1",
    )
    ∷ []
type_statements ways_linear name =
    (codes "get_linestring", on name "SELECT geom FROM " " WHERE osm_id = $1")
    ∷ update_geometry name
    ∷ []
type_statements node_ways name =
    (codes "get_way_ids", on name "SELECT way_id FROM " " WHERE node_id = $1")
    ∷ (codes "get_nodes", on name "SELECT node_id, position FROM " " WHERE way_id = $1")
    ∷ (codes "delete_way_node_list", on name "DELETE FROM " " WHERE way_id = $1")
    ∷ []
type_statements relation_member_nodes name = member_statements name
type_statements relation_member_ways name = member_statements name
type_statements relation_member_relations name = member_statements name
type_statements relation_other name =
    (
      codes "update_relation_member_geometry",
      on name "UPDATE " " SET geom_points = $1, geom_lines = $2 WHERE osm_id = $3",
    )
    ∷ []
type_statements area name =
    (codes "count_osm_id", on name "SELECT 1 FROM " " WHERE osm_id = $1")
    ∷ update_geometry name
    ∷ []
type_statements _ name = []

unfoldable pub statements : TableType → Bytes → List (Bytes × Bytes)
unfolding type_statements is_osm_object_table_type
statements type name =
    (if is_osm_object_table_type type then delete_statement name ∷ [] else [])
    ++ type_statements type name

module _ (server : Server) where
  unfoldable pub prepare_all : List (Bytes × Bytes) → Table → Result Fault Table
  unfolding create_prepared_statement
  prepare_all [] t = ok t
  prepare_all ((name, query) ∷ rest) t =
      create_prepared_statement server name query t >>= prepare_all rest

  unfoldable pub create_prepared_statements : TableType → Table → Result Fault Table
  unfolding prepare_all statements
  create_prepared_statements type t = prepare_all (statements type t.m_name) t

abbrev pub is_among : Bytes → List (Bytes × Bytes) → Bool
is_among name [] = false
is_among name ((n, query) ∷ rest) = equal n name || is_among name rest

abbrev pub distinct : List (Bytes × Bytes) → Bool
distinct [] = true
distinct ((n, query) ∷ rest) = not (is_among n rest) && distinct rest

-- For each type of table, no two of the prepared statements have the same name.
pub statements-distinct : (type : TableType) (name : Bytes) → distinct (statements type name) ≡ true
unfolding statements type_statements is_osm_object_table_type
statements-distinct other name = refl
statements-distinct point name = refl
statements-distinct untagged_point name = refl
statements-distinct ways_linear name = refl
statements-distinct ways_polygon name = refl
statements-distinct relation_polygon name = refl
statements-distinct relation_other name = refl
statements-distinct area name = refl
statements-distinct node_ways name = refl
statements-distinct relation_member_nodes name = refl
statements-distinct relation_member_ways name = refl
statements-distinct relation_member_relations name = refl
