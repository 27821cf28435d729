-- ===== src/Database/Setup.antt =====
-- src/postgres_table.cpp: `PostgresTable::init`, the indexes, and the destructor. Messages on the
-- error stream are left out.
use cerepso.Base.{
  ℕ, suc, Bytes, Bool, true, false, not, ◌&&◌, List, [], ◌∷◌, ◌++◌, codes, Result, ok, ◌>>=◌,
}
use cerepso.Decimal.{decimal}
use cerepso.Columns
use cerepso.Columns.{
  Column, ColumnType, ColumnClass, TableType, point, untagged_point, ways_linear, area, osm_id,
  node_id, way_id, relation_id, pg_type,
}
use cerepso.Database.{Server, Fault, Table, send_query, start_copy, end_copy, commit}
use cerepso.Database.Statements.{create_prepared_statements}

-- The options of `CerepsoConfig` that a table reads.
pub record TableConfig : Type 0 where
  pub m_append : Bool
  pub m_geom_indexes : Bool
  pub m_all_geom_indexes : Bool
  pub m_order_by_geohash : Bool
  pub m_id_index : Bool

pub record PostgresTable : Type 0 where
  pub table : Table
  pub type : TableType
  pub m_initialized : Bool

-- `type >= ColumnType::GEOMETRY` on the codes of the enumeration.
abbrev pub is_geometry : ColumnType → Bool
is_geometry Columns.geometry = true
is_geometry Columns.point_type = true
is_geometry Columns.multipoint = true
is_geometry Columns.linestring = true
is_geometry Columns.multilinestring = true
is_geometry Columns.polygon = true
is_geometry Columns.multipolygon = true
is_geometry Columns.geometrycollection = true
is_geometry _ = false

-- The columns of CREATE TABLE, a comma between two of them.
unfoldable pub definitions : List Column → Bytes
unfolding pg_type
definitions [] = []
definitions (it ∷ []) = b'"' ∷ (it.name ++ (codes "\" " ++ pg_type it))
definitions (it ∷ jt ∷ columns) =
    b'"' ∷ (it.name ++ (codes "\" " ++ (pg_type it ++ (codes ", " ++ definitions (jt ∷ columns)))))

abbrev pub is_id : ColumnClass → Bool
is_id osm_id = true
is_id node_id = true
is_id way_id = true
is_id relation_id = true
is_id _ = false

-- The types of tables whose geometry gets an index.
abbrev pub has_geom_index : TableType → Bool → Bool
has_geom_index untagged_point all = all
has_geom_index _ all = true

module _ (server : Server) where
  abbrev pub when : Bool → (Table → Result Fault Table) → Table → Result Fault Table
  when true f t = f t
  when false f t = ok t

  unfoldable pub create_table : Table → Result Fault Table
  unfolding send_query definitions
  create_table t = send_query server (codes "DROP TABLE IF EXISTS " ++ t.m_name) t >>= λ t'.
      send_query server
        (codes "CREATE UNLOGGED TABLE "
          ++ (t'.m_name ++ b'(' ∷ (definitions t'.m_columns ++ b')' ∷ [])))
        t'

  unfoldable pub init : TableConfig → PostgresTable → Result Fault PostgresTable
  unfolding create_table create_prepared_statements start_copy
  init config p =
      when (not config.m_append) create_table p.table
      >>= create_prepared_statements server p.type
      >>= λ t. when (not config.m_append) (start_copy server) t >>= λ t'.
          ok (record p { table = t'; m_initialized = true })

  -- The queries for the first geometry column.
  unfoldable pub order_by : List Column → Table → Result Fault Table
  unfolding send_query
  order_by [] t = ok t
  order_by (it ∷ columns) t = elim (is_geometry it.type) [
    | false ↦ order_by columns t
    | true ↦
        send_query server
          (codes "CREATE TABLE "
            ++ (t.m_name
                ++ (codes "_tmp AS SELECT * from "
                    ++ (t.m_name
                        ++ (codes " ORDER BY ST_GeoHash(ST_Envelope("
                            ++ (it.name ++ codes "),10) COLLATE \"C\""))))))
          t
        >>= λ t1. send_query server (codes "DROP TABLE " ++ t1.m_name) t1 >>= λ t2.
            send_query server
              (codes "ALTER TABLE " ++ (t2.m_name ++ (codes "_tmp RENAME TO " ++ t2.m_name))) t2
  ]

  unfoldable pub order_by_geohash : Table → Result Fault Table
  unfolding order_by
  order_by_geohash t = when t.m_connected (order_by t.m_columns) t

  unfoldable pub geom_index : List Column → Table → Result Fault Table
  unfolding send_query
  geom_index [] t = ok t
  geom_index (it ∷ columns) t = elim (is_geometry it.type) [
    | false ↦ geom_index columns t
    | true ↦
        send_query server
          (codes "CREATE INDEX "
            ++ (t.m_name
                ++ (codes "_index_"
                    ++ (it.name
                        ++ (codes " ON "
                            ++ (t.m_name ++ (codes " USING GIST (" ++ (it.name ++ codes ")"))))))))
          t
        >>= geom_index columns
  ]

  unfoldable pub create_geom_index : Table → Result Fault Table
  unfolding geom_index
  create_geom_index t = when t.m_connected (geom_index t.m_columns) t

  -- `index_count` numbers the indexes from 1.
  unfoldable pub id_index : ℕ → List Column → Table → Result Fault Table
  unfolding send_query
  id_index index_count [] t = ok t
  id_index index_count (it ∷ columns) t = elim (is_id it.column_class) [
    | false ↦ id_index index_count columns t
    | true ↦
        send_query server
          (codes "CREATE INDEX "
            ++ (t.m_name
                ++ (codes "_pkey_"
                    ++ (decimal index_count
                        ++ (codes " ON "
                            ++ (t.m_name
                                ++ (codes " USING BTREE (\"" ++ (it.name ++ codes "\");"))))))))
          t
        >>= id_index (suc index_count) columns
  ]

  unfoldable pub create_id_index : Table → Result Fault Table
  unfolding id_index
  create_id_index t = when t.m_connected (id_index 1 t.m_columns) t

  unfoldable pub finish_named : TableConfig → TableType → Table → Result Fault Table
  unfolding end_copy commit order_by_geohash create_geom_index create_id_index
  finish_named config type t = when t.m_copy_mode (end_copy server) t >>= λ t1.
      when t1.m_begin (commit server) t1
      >>= when
          (config.m_geom_indexes
            && not config.m_append
            && has_geom_index type config.m_all_geom_indexes)
          (λ t2. when config.m_order_by_geohash order_by_geohash t2 >>= create_geom_index)
      >>= when (config.m_id_index && not config.m_append) create_id_index

  abbrev pub finish_if : Bool → Bytes → TableConfig → TableType → Table → Result Fault Table
  finish_if false name config type t = ok t
  finish_if true [] config type t = ok t
  finish_if true (c ∷ name) config type t = finish_named config type t

  -- The destructor. The test on the type of the table is true of every type but the untagged nodes.
  unfoldable pub finish : TableConfig → PostgresTable → Result Fault Table
  unfolding finish_named
  finish config p = finish_if p.m_initialized p.table.m_name config p.type p.table
