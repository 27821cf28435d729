-- ===== src/Handler/Row.antt =====
-- src/postgres_handler.cpp: `fill_field`, and the lines for the tables of objects.
use cerepso.Base.{
  Bytes, Bool, true, false, ◌&&◌, ◌||◌, List, [], ◌∷◌, ◌++◌, Option, none, some, if◌then◌else◌,
  equal, codes,
}
use cerepso.Base.Int.{ℤ, sub_ℕ, pos_part, neg_part}
use cerepso.Escape.{escape, escape4hstore, add_separator_to_stringstream}
use cerepso.Osm.{ItemType, node, way, relation, area, Tag, OsmObject, get_value_by_key}
use cerepso.Columns.{
  Column, ColumnClass, tags_other, tag, osm_id, version, uid, username, changeset, timestamp,
  geometry_class, way_nodes, geometry_multipoint, geometry_multilinestring, longitude, latitude,
}
use cerepso.Handler.Append.{
  add_osm_id, add_int32, add_username, add_uid, add_version, add_timestamp, add_changeset,
  add_way_nodes,
}

-- The loop over `written_keys`.
unfoldable pub has_tag : List Bytes → Bytes → Bool
has_tag [] key = false
has_tag (k ∷ written_keys) key = equal k key || has_tag written_keys key

-- What the table's configuration and libraries contribute: the drop filter, the configuration's
-- `updateable`, and the WKB factory, which gives `none` where it throws a geometry error.
pub record Table : Type 0 where
  pub drops : Tag → Bool
  pub updateable : Bool
  pub create_wkb : OsmObject → Option Bytes

-- `query`, `column_added` and `written_keys`.
pub record Row : Type 0 where
  pub query : Bytes
  pub column_added : Bool
  pub written_keys : List Bytes

-- The text of the geometry if none can be built. A relation has no such field.
abbrev pub empty_wkb : ItemType → Bytes
empty_wkb node = codes "010400000000000000"
empty_wkb way = codes "010200000000000000"
empty_wkb area = codes "0106000020E610000000000000"
empty_wkb relation = []

abbrev pub built_or : Bytes → Option Bytes → Bytes
built_or wkb none = wkb
built_or wkb (some built) = built

abbrev pub rel_value : Option (List Tag) → Bytes → Option Bytes
rel_value none key = none
rel_value (some rel_tags) key = get_value_by_key rel_tags key

-- The tag column: the object's value, else the relation's, else NULL.
abbrev pub tag_value : Option Bytes → Option Bytes → Bytes → Row → Row
tag_value (some t) from_rel name row = record row {
  query = escape (some t) row.query;
  written_keys = row.written_keys ++ name ∷ [];
}
tag_value none (some t) name row = record row {
  query = escape (some t) row.query;
  written_keys = row.written_keys ++ name ∷ [];
}
tag_value none none name row = record row { query = row.query ++ codes "\\N" }

unfoldable pub add_tag : OsmObject → Bytes → Option (List Tag) → Row → Row
add_tag object name rel_tags row =
    tag_value (get_value_by_key object.tags name) (rel_value rel_tags name) name row

abbrev pub negated : ℤ → ℤ
negated z = sub_ℕ (neg_part z) (pos_part z)

unfoldable pub add_id : ItemType → OsmObject → Bytes → Bytes
add_id area object query =
    if object.from_way
    then add_osm_id query object.orig_id
    else add_osm_id query (negated object.orig_id)
add_id _ object query = add_osm_id query object.id

abbrev pub with_query : Row → Bytes → Row
with_query row query = record row { query = query }

abbrev pub not_added : Row → Row
not_added row = record row { column_added = false }

abbrev pub is_way : ItemType → Bool
is_way way = true
is_way _ = false

abbrev pub is_node : ItemType → Bool
is_node node = true
is_node _ = false

module _ (table : Table) where
  -- For nodes, ways and areas: for a relation an assertion fails.
  unfoldable pub add_geometry : OsmObject → Bytes → Bytes
  add_geometry object query =
      query ++ (codes "SRID=4326;" ++ built_or (empty_wkb object.type) (table.create_wkb object))

  -- The two loops over tags; the flag is `first_tag`. They return it with the query.
  unfoldable pub tags_loop : List Bytes → List Tag → Bool → Bytes → Bool × Bytes
  unfolding has_tag
  tags_loop written_keys [] first_tag query = (first_tag, query)
  tags_loop written_keys (t ∷ tags) first_tag query =
      let skip = has_tag written_keys t.key || table.drops t in
      let separated = if first_tag then query else query ++ b',' ∷ [] in
      tags_loop written_keys tags (if skip then first_tag else false) (
        if skip then query else escape4hstore t.value (escape4hstore t.key separated ++ codes "=>"))

  -- `none` is a null pointer.
  unfoldable pub add_tags_other : OsmObject → List Bytes → Option (List Tag) → Bytes → Bytes
  unfolding tags_loop
  add_tags_other object written_keys none query = (tags_loop written_keys object.tags true query).1
  add_tags_other object written_keys (some rel_tags) query =
      let (first_tag, query') = tags_loop written_keys object.tags true query in
      (tags_loop written_keys rel_tags first_tag query').1

  -- The chain of tests on the class of the column. The row has `column_added` set.
  unfoldable pub fill_class : ColumnClass → OsmObject → Bytes → Option (List Tag) → Row → Row
  unfolding add_tags_other add_tag add_id add_osm_id add_version add_uid add_username add_changeset
      add_timestamp add_way_nodes add_geometry add_int32
  fill_class tags_other o name rel row =
      with_query row (add_tags_other o row.written_keys rel row.query)
  fill_class tag o name rel row = add_tag o name rel row
  fill_class osm_id o name rel row = with_query row (add_id o.type o row.query)
  fill_class version o name rel row = with_query row (add_version row.query o.version)
  fill_class uid o name rel row = with_query row (add_uid row.query o.version)
  fill_class username o name rel row = with_query row (add_username row.query o.user)
  fill_class changeset o name rel row = with_query row (add_changeset row.query o.version)
  fill_class timestamp o name rel row = with_query row (add_timestamp row.query o.timestamp)
  fill_class way_nodes o name rel row =
      if is_way o.type && table.updateable
      then with_query row (add_way_nodes o.nodes row.query)
      else not_added row
  fill_class geometry_class o name rel row = with_query row (add_geometry o row.query)
  fill_class latitude o name rel row =
      if is_node o.type then with_query row (add_int32 row.query o.location.y) else not_added row
  fill_class longitude o name rel row =
      if is_node o.type then with_query row (add_int32 row.query o.location.x) else not_added row
  fill_class _ o name rel row = not_added row

  unfoldable pub fill_field : OsmObject → Column → Option (List Tag) → Row → Row
  unfolding fill_class add_separator_to_stringstream
  fill_field object it rel row = fill_class it.column_class object it.name rel (record row {
    query = if row.column_added then add_separator_to_stringstream row.query else row.query;
    column_added = true;
  })

  unfoldable pub fields_loop : OsmObject → Option (List Tag) → List Column → Row → Row
  unfolding fill_field
  fields_loop object rel [] row = row
  fields_loop object rel (it ∷ cols) row =
      fields_loop object rel cols (fill_field object it rel row)

  abbrev pub empty_row : Row
  empty_row = record { query = []; column_added = false; written_keys = [] }

  unfoldable pub prepare_query : List Column → OsmObject → Option (List Tag) → Bytes
  unfolding fields_loop
  prepare_query cols object rel = (fields_loop object rel cols empty_row).query ++ b'\n' ∷ []

  -- The special geometry columns of relations.
  abbrev pub member_geometry : ColumnClass → Bytes → Bytes → Bytes → Bytes
  member_geometry geometry_multipoint points lines query =
      add_separator_to_stringstream (query ++ (codes "SRID=4326;" ++ points))
  member_geometry geometry_multilinestring points lines query =
      add_separator_to_stringstream (query ++ (codes "SRID=4326;" ++ lines))
  member_geometry _ points lines query = query

  unfoldable pub add_member_geometry : ColumnClass → Bool → Bytes → Bytes → Bytes → Bytes
  add_member_geometry class column_added points lines query =
      if column_added then query else member_geometry class points lines query

  unfoldable pub relation_fields_loop : OsmObject → Bytes → Bytes → List Column → Row → Row
  unfolding fill_field add_member_geometry
  relation_fields_loop object points lines [] row = row
  relation_fields_loop object points lines (it ∷ cols) row =
      let row' = fill_field object it none row in
      relation_fields_loop object points lines cols (record row' {
        query = add_member_geometry it.column_class row'.column_added points lines row'.query;
      })

  -- Appends to `query`.
  unfoldable pub prepare_relation_query : List Column → OsmObject → Bytes → Bytes → Bytes → Bytes
  unfolding relation_fields_loop
  prepare_relation_query cols object points lines query =
      (relation_fields_loop object points lines cols (record empty_row { query = query })).query
      ++ b'\n' ∷ []
