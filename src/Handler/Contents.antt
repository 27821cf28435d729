-- ===== src/Handler/Contents.antt =====
-- What stands in the columns of the tables of objects.
use cerepso.Base.{
  if◌then◌else◌, ℕ, Bytes, Bool, true, false, List, [], ◌∷◌, ◌++◌, Option, none, some, ◌≡◌, refl,
  ap, ◌∙◌, arith, codes, All, All-append, not, ◌&&◌, Bool-cases, inl, inr,
}
use cerepso.CopyText.{CopyFormat}
use cerepso.Escape.RoundTrip.{decode-escape}
use cerepso.Osm.{ItemType, node, way, relation, area, Tag, OsmObject, get_value_by_key}
use cerepso.Columns.{
  Column, ColumnClass, tag, tags_other, osm_id, geometry_class, TableType, point, untagged_point,
  ways_linear, column, geometry_column, is_osm_object_table_type,
}
use cerepso.Columns.Tables.{
  DriverConfig, MetadataOptions, TagsFilter, Columns, columns_with_style, init, metadata_columns,
  type_columns, hstore_column,
}
use cerepso.Columns
use cerepso.Columns.Tables
use cerepso.Handler.Row
use cerepso.Handler.Row.{Table, Row}
use cerepso.Escape.{add_separator_to_stringstream}
use cerepso.Handler.Lines.{fill_field-filled}
use cerepso.Handler.Values.{value, filled, fresh}

-- The type of the objects that a table stores.
pub data Stores : TableType → ItemType → Type 0 where
  tagged_nodes : Stores point node
  untagged_nodes : Stores untagged_point node
  lines : Stores ways_linear way
  areas : Stores Columns.area area

module _ (updateable : Bool) (type : ItemType) where
  abbrev IsFilled : Column → Type 0
  IsFilled c = filled updateable type c.column_class ≡ true

  when-IsFilled : (b : Bool) (c : Column) → IsFilled c → All IsFilled (Tables.when b c)
  when-IsFilled true c h = (h, tt)
  when-IsFilled false c h = tt

  metadata-IsFilled : (m : MetadataOptions) → All IsFilled (metadata_columns m)
  unfolding metadata_columns column
  metadata-IsFilled m = (
    refl,
    All-append IsFilled (Tables.when m.user _) _ (when-IsFilled m.user _ refl) (
        All-append IsFilled (Tables.when m.uid _) _ (when-IsFilled m.uid _ refl) (
          All-append IsFilled (Tables.when m.version _) _ (when-IsFilled m.version _ refl) (
            All-append IsFilled (Tables.when m.timestamp _) _ (when-IsFilled m.timestamp _ refl)
              (when-IsFilled m.changeset _ refl)))),
  )

  hstore-IsFilled : (config : DriverConfig) (t : TableType) → All IsFilled (hstore_column config t)
  unfolding hstore_column column
  hstore-IsFilled config t =
      elim (Bool-cases (is_osm_object_table_type t && not (Tables.is_untagged_point t))) [
        | inl on ↦ rw on (when-IsFilled config.tags_hstore _ refl)
        | inr off ↦ rw off tt
      ]

  tags-IsFilled : (cols : List Column) → All (λ c. c.column_class ≡ tag) cols → All IsFilled cols
  tags-IsFilled [] h = tt
  tags-IsFilled (c ∷ cols) h = (rw h.0 refl, tags-IsFilled cols h.1)

init-IsFilled :
    {t : TableType} {kind : ItemType} (config : DriverConfig)
    → Stores t kind
    → All (IsFilled config.updateable kind) (init config t)
unfolding init type_columns column geometry_column is_osm_object_table_type
init-IsFilled config tagged_nodes =
    All-append (IsFilled config.updateable node) (metadata_columns config.metadata) _
      (metadata-IsFilled config.updateable node config.metadata) (refl, tt)
init-IsFilled config untagged_nodes =
    All-append (IsFilled config.updateable node) (metadata_columns config.metadata) _
      (metadata-IsFilled config.updateable node config.metadata) (refl, (refl, tt))
init-IsFilled config lines =
    All-append (IsFilled config.updateable way) (metadata_columns config.metadata) _
      (metadata-IsFilled config.updateable way config.metadata) (refl, tt)
init-IsFilled config areas =
    All-append (IsFilled config.updateable area) (metadata_columns config.metadata) _
      (metadata-IsFilled config.updateable area config.metadata) (refl, tt)

columns_with_style-filled :
    (config : DriverConfig) (t : TableType) (kind : ItemType) (additional : List Column)
    (drop : TagsFilter) (nocolumn : List Bytes)
    → Stores t kind
    → All (λ c. c.column_class ≡ tag) additional
    → All
        (λ c. filled config.updateable kind c.column_class ≡ true)
        (columns_with_style config additional drop nocolumn t).m_columns
unfolding columns_with_style
columns_with_style-filled config t kind additional drop nocolumn stores tags =
    All-append _ (init config t) _ (init-IsFilled config stores) (
      All-append _ additional _ (tags-IsFilled config.updateable kind additional tags)
        (hstore-IsFilled config.updateable kind config t))

-- `fill_field` returns `true` for every column of the tables for nodes, untagged nodes, ways and
-- areas, for each object of the type that the table stores and wherever on the line it stands, if the
-- columns of the style are tag columns.
pub columns_with_style-fill_field :
    (config : DriverConfig) (t : TableType) (kind : ItemType) (additional : List Column)
    (drop : TagsFilter) (nocolumn : List Bytes) (table : Table) (o : OsmObject)
    (rel : Option (List Tag))
    → Stores t kind
    → All (λ c. c.column_class ≡ tag) additional
    → table.updateable ≡ config.updateable
    → o.type ≡ kind
    → All
        (λ c. (row : Row) → (Row.fill_field table o c rel row).column_added ≡ true)
        (columns_with_style config additional drop nocolumn t).m_columns
unfolding Row.fill_field
columns_with_style-fill_field config t kind additional drop nocolumn table o rel stores tags u k =
    each _ (columns_with_style-filled config t kind additional drop nocolumn stores tags)
  where
    each :
        (cols : List Column)
        → All (λ c. filled config.updateable kind c.column_class ≡ true) cols
        → All (λ c. (row : Row) → (Row.fill_field table o c rel row).column_added ≡ true) cols
    each [] h = tt
    each (c ∷ cols) h = (
      λ row.
          ap (λ (r : Row). r.column_added)
            (fill_field-filled table o rel c
              (if row.column_added then add_separator_to_stringstream row.query else row.query)
              row.written_keys (rw (u, k) h.0)),
      each cols h.1,
    )

-- The value that a tag column takes: the object's, else the relation's.
abbrev pub tag_source : Option Bytes → Option Bytes → Option Bytes
tag_source (some t) from_rel = some t
tag_source none from_rel = from_rel

module _ (copy : CopyFormat) where
  -- Behind COPY a tag column holds the value of its key byte for byte: the object's value, or the
  -- relation's if the object has none.
  pub tag_column-decode :
      (table : Table) (o : OsmObject) (rel : Option (List Tag)) (c : Column) (written : List Bytes)
      (t : Bytes)
      → c.column_class ≡ tag
      → tag_source (get_value_by_key o.tags c.name) (Row.rel_value rel c.name) ≡ some t
      → copy.decode (value table o rel c written) ≡ t
  unfolding Row.fill_class Row.add_tag
  tag_column-decode table o rel c written t p h =
      rw p (tag_value-decode (get_value_by_key o.tags c.name) (Row.rel_value rel c.name) h)
    where
      tag_value-decode :
          (own from_rel : Option Bytes)
          → tag_source own from_rel ≡ some t
          → copy.decode (Row.tag_value own from_rel c.name (fresh written)).query ≡ t
      tag_value-decode (some u) from_rel e = decode-escape copy u ∙ ground (arith, e)
      tag_value-decode none (some u) e = decode-escape copy u ∙ ground (arith, e)
      tag_value-decode none none e = ground (arith, e)

-- Another user id and changeset.
abbrev pub renumbered : ℕ → ℕ → OsmObject → OsmObject
renumbered u n o = record o { uid = u; changeset = n }

add_id-renumbered :
    (type : ItemType) (o : OsmObject) (u n : ℕ) (q : Bytes)
    → Row.add_id type (renumbered u n o) q ≡ Row.add_id type o q
unfolding Row.add_id
add_id-renumbered area o u n q = refl
add_id-renumbered node o u n q = refl
add_id-renumbered way o u n q = refl
add_id-renumbered relation o u n q = refl

module _ (table : Table) (o : OsmObject) (rel : Option (List Tag)) (u n : ℕ)
    (same : table.create_wkb (renumbered u n o) ≡ table.create_wkb o) where
  add_tags_other-renumbered :
      (rel : Option (List Tag)) (written : List Bytes) (q : Bytes)
      → Row.add_tags_other table (renumbered u n o) written rel q
        ≡ Row.add_tags_other table o written rel q
  unfolding Row.add_tags_other
  add_tags_other-renumbered none written q = refl
  add_tags_other-renumbered (some tags) written q = refl

  fill_class-renumbered :
      (class : ColumnClass) (name : Bytes) (row : Row)
      → Row.fill_class table class (renumbered u n o) name rel row
        ≡ Row.fill_class table class o name rel row
  unfolding Row.fill_class Row.add_geometry Row.add_tag
  fill_class-renumbered geometry_class name row =
      ap
        (λ wkb.
          Row.with_query row
            (row.query ++ (codes "SRID=4326;" ++ Row.built_or (Row.empty_wkb o.type) wkb)))
        same
  fill_class-renumbered tags_other name row =
      ap (Row.with_query row) (add_tags_other-renumbered rel row.written_keys row.query)
  fill_class-renumbered osm_id name row =
      ap (Row.with_query row) (add_id-renumbered o.type o u n row.query)
  fill_class-renumbered _ name row = refl

  fields_loop-renumbered :
      (cols : List Column) (row : Row)
      → Row.fields_loop table (renumbered u n o) rel cols row ≡ Row.fields_loop table o rel cols row
  unfolding Row.fields_loop Row.fill_field
  fields_loop-renumbered [] row = refl
  fields_loop-renumbered (c ∷ cols) row =
      ap (Row.fields_loop table (renumbered u n o) rel cols)
        (fill_class-renumbered c.column_class c.name _)
      ∙ fields_loop-renumbered cols _

  -- The columns for the user id and the changeset hold neither: lines of two objects that differ
  -- only in these are the same. The WKB factory gives the same geometry for both.
  pub prepare_query-renumbered :
      (cols : List Column)
      → Row.prepare_query table cols (renumbered u n o) rel ≡ Row.prepare_query table cols o rel
  unfolding Row.prepare_query
  prepare_query-renumbered cols =
      ap (λ row. row.query ++ b'\n' ∷ []) (fields_loop-renumbered cols (Row.empty_row table))
