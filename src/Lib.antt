-- ===== src/Lib.antt =====
-- Verification of Cerepso, an importer of OpenStreetMap data into PostgreSQL.
--
-- The importer reads OSM files and turns each object into lines for PostgreSQL's COPY. The handlers
-- (src/postgres_handler.cpp) build a line from the columns of a table
-- (contrib/cerepso-postgres-backend/include/postgres_drivers/columns.hpp) with the escaping routines
-- of src/postgres_table.cpp. When a diff is applied, src/diff_handler2.cpp collects the ways and
-- relations that depend on changed objects and updates them after the objects of the diff, and
-- src/expire_tiles_quadtree.cpp keeps the set of map tiles that must be drawn again.
-- contrib/pg-array-hstore-parser/include/hstore_parser.hpp reads hstore values of the database,
-- array_parser.hpp beside it reads arrays.
-- src/column_config_parser.cpp reads the style file, from which the tables of nodes, ways and areas
-- get their columns. contrib/cerepso-postgres-backend/include/postgres_drivers/table.hpp is the
-- connection that each table has, on which lines and statements are sent.
--
-- Files:
--   Base             helpers: Boolean tests, lists over native numbers, integers, bits, results.
--   CopyText         the reader of COPY's text format, which is not part of the repository. `rows`
--                    cuts data into rows and values; a value is decoded by a parameter.
--   Escape, Decimal  `escape`, `escape4hstore`, `escape4array`, and numbers as sprintf writes them.
--   Hstore           `HStoreParser`: one call of `get_next` is a loop over the characters left.
--   ArrayText        `ArrayParser` with its conversions, in the same way.
--   Osm              the fields of OSM objects that the program reads through libosmium.
--   Columns          the types of columns and tables; Columns/Tables the columns of each table.
--   Connections      the tables that the handlers write to, the options that they read, and how they
--                    choose objects by their tags.
--   Handler          Append: `add_osm_id` and its like. Row: `fill_field`, `prepare_query`,
--                    `prepare_relation_query`. Members: `prepare_node_way_query` and the member
--                    lists. The other children prove what COPY reads from the lines.
--   Diff             Pending: `m_pending_ways`, `m_pending_relations` with their indexes, the loops
--                    of `way` and `relation`, and `clean_up_container_and_work_on`. FirstPass:
--                    `DiffHandler1`. SecondPass: `DiffHandler2` with `node`, `way` and `area`; its
--                    children Ways and MemberGeometry the updates of ways and relations, Relations
--                    the rest, and Runs the pass as src/pgimporter.cpp composes it. Calls to Closing
--                    show handler by handler in which mode each table is left.
--   Import           `handle_node`, `handle_area` and src/import_handler.cpp.
--   Collector        src/relation_collector.cpp: the line of a relation with all of its members.
--   Streets          src/associated_street_relation_manager.cpp. The members databases of libosmium are
--                    a parameter; Streets/Tracking shows what the first pass leaves in them.
--   Locations        src/database_location_handler.cpp: the cache of the diff's nodes and the two tables
--                    behind it.
--   IndexDump        `dump_index_manually` of src/pgimporter.cpp, with a file as a list of cells.
--   HouseNumber      `HouseNumber` of src/addr_interpolation_handler.cpp; RequiredNodes, TagsStorage
--                    and Interpolation the rest of it, with src/tags_storage.cpp.
--   Quadtree         `xy_to_quadtree`, `quadtree_to_xy`, `quadtree_upscale`.
--   TileSet          the ascending keys of a std::map or std::set.
--   Doubles          `double` and <cmath> as a parameter.
--   Expiry           `expire_tile`, `normalise_tile_x_coord`, `output_and_destroy`; Expiry/Lines the
--                    lines, boxes and coordinate sequences that mark tiles.
--   Database         `Table`: COPY mode, transactions, prepared statements; Database/Queries and
--                    Database/Setup the operations of `PostgresTable` with its indexes and its
--                    destructor, Database/Statements `create_prepared_statements`. The server and
--                    libpq are a parameter. The other children show in which mode they leave it.
--   Style            `ColumnConfigParser`: words, flags, `parse`, the tables' columns. The file system
--                    is a parameter. Style/Words to Style/RoundTrip show what `parse` reads.
--   Tests            runs at concrete data.
--
-- Strings are lists of bytes, output parameters are arguments and results, exceptions and failed
-- assertions are values. Loops recur on the list that they walk or on the rounds that are left, which
-- are computed from the bounds of the loop; the digits of a number recur on the number itself, which
-- is at least the count of its digits. The `int`s of a tile in the quadtree are their 32-bit
-- patterns: their sums and shifts wrap around, and none does up to zoom level 15, the default
-- maximum. The sums of house numbers wrap around at 32 bits, too.
--
-- The second pass over a diff is a state (`DiffHandler2`) that each handler maps to the next state or
-- to an exception. Its calls of the expiry are events. The lookup of locations and the manager of multipolygons are fields of the state,
-- since other handlers fill them between the calls.
--
-- Not modelled: the location handler on a file, which passes its calls on to libosmium, option
-- parsing and wiring, and the copies of wkbhpp, osmium-geos-factory and libosmium under contrib. The
-- managers of libosmium, which find the members of relations, and geometries in WKB are parameters. A
-- member that the input lacks has the reference 0, as libosmium leaves it.
pub mod Base
pub mod CopyText
pub mod Escape
pub mod Hstore
pub mod Decimal
pub mod Osm
pub mod Columns
pub mod Database
pub mod Handler
pub mod Diff
pub mod Quadtree
pub mod HouseNumber
pub mod RequiredNodes
pub mod TagsStorage
pub mod Interpolation
pub mod Collector
pub mod Connections
pub mod Import
pub mod IndexDump
pub mod Locations
pub mod Streets
pub mod Style
pub mod ArrayText
pub mod TileSet
pub mod Doubles
pub mod Expiry
pub mod Tests
