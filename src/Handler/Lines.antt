-- ===== src/Handler/Lines.antt =====
-- The lines of `prepare_query` and `prepare_relation_query` as COPY reads them.
use cerepso.Base.{
  Bytes, Bool, true, false, ◌&&◌, List, [], ◌∷◌, ◌++◌, Option, none, some, Bool-cases, inl, inr,
  ◌≡◌, refl, ap, ◌∙◌, arith, append_assoc, codes, All,
}
use cerepso.Base.Int.{ℤ}
use cerepso.CopyText.{
  is_plain, StaysInside, StaysInside-nil, StaysInside-append, StaysInside-plain,
  StaysInside-escaped, rows, rows-line_text, line_text,
}
use cerepso.Decimal.{decimal-StaysInside, decimal_ℤ-StaysInside}
use cerepso.Escape.{add_separator_to_stringstream}
use cerepso.Escape.RoundTrip.{escape-StaysInside}
use cerepso.Osm.{ItemType, node, way, relation, area, Tag, OsmObject, get_value_by_key}
use cerepso.Columns.{
  Column, ColumnClass, tags_other, tag, osm_id, version, uid, username, changeset, timestamp,
  geometry_class, way_nodes, longitude, latitude,
}
use cerepso.Handler.Append
use cerepso.Handler.Row
use cerepso.Handler.Row.{Table, Row}
use cerepso.Handler.HstoreColumn.{add_tags_other-StaysInside}
use cerepso.Handler.Values.{
  value, values, alone, fresh, filled, fill_class-alone, fill_class-filled,
}

abbrev all_plain : Bytes → Bool
all_plain [] = true
all_plain (c ∷ s) = is_plain c && all_plain s

-- A text is read as part of one value if every character is plain.
pub all_plain-StaysInside : (s : Bytes) → all_plain s ≡ true → StaysInside s
all_plain-StaysInside [] h = StaysInside-nil
all_plain-StaysInside (c ∷ s) h =
    StaysInside-append (c ∷ []) s (StaysInside-plain c (ground arith))
      (all_plain-StaysInside s (ground arith))

ids_loop-StaysInside :
    (later : Bool) (ids : List ℤ) (q : Bytes)
    → StaysInside q
    → StaysInside (Append.ids_loop later ids q)
unfolding Append.ids_loop
ids_loop-StaysInside later [] q h = h
ids_loop-StaysInside true (id ∷ ids) q h = ids_loop-StaysInside true ids _ (
    StaysInside-append _ _
      (StaysInside-append q (codes ", ") h (all_plain-StaysInside (codes ", ") refl))
      (decimal_ℤ-StaysInside id))
ids_loop-StaysInside false (id ∷ ids) q h =
    ids_loop-StaysInside true ids _ (StaysInside-append q _ h (decimal_ℤ-StaysInside id))

add_way_nodes-StaysInside : (ids : List ℤ) → StaysInside (Append.add_way_nodes ids [])
unfolding Append.add_way_nodes
add_way_nodes-StaysInside ids =
    StaysInside-append _ (b'}' ∷ [])
      (ids_loop-StaysInside false ids (b'{' ∷ []) (StaysInside-plain b'{' refl))
      (StaysInside-plain b'}' refl)

tag_value-StaysInside :
    (own from_rel : Option Bytes) (name : Bytes) (written : List Bytes)
    → StaysInside (Row.tag_value own from_rel name (fresh written)).query
tag_value-StaysInside (some t) from_rel name written = escape-StaysInside (some t)
tag_value-StaysInside none (some t) name written = escape-StaysInside (some t)
tag_value-StaysInside none none name written = StaysInside-escaped b'N'

add_id-StaysInside : (type : ItemType) (o : OsmObject) → StaysInside (Row.add_id type o [])
unfolding Row.add_id Append.add_osm_id
add_id-StaysInside node o = decimal_ℤ-StaysInside o.id
add_id-StaysInside way o = decimal_ℤ-StaysInside o.id
add_id-StaysInside relation o = decimal_ℤ-StaysInside o.id
add_id-StaysInside area o =
    ground (arith, decimal_ℤ-StaysInside o.orig_id, decimal_ℤ-StaysInside (Row.negated o.orig_id))

-- What libosmium and the WKB factory contribute to a line is plain text.
pub record PlainSources (table : Table) (o : OsmObject) : Type 0 where
  pub iso : StaysInside o.timestamp
  pub wkb : StaysInside (Row.built_or (Row.empty_wkb o.type) (table.create_wkb o))

module _ (table : Table) (o : OsmObject) (rel : Option (List Tag)) where
  -- A filled column leaves its value on the line and the flag set.
  pub fill_field-filled :
      (c : Column) (q : Bytes) (written : List Bytes)
      → filled table.updateable o.type c.column_class ≡ true
      → Row.fill_class table c.column_class o c.name rel (record (fresh written) { query = q })
        ≡ record {
          query = q ++ value table o rel c written;
          column_added = true;
          written_keys = (alone table o rel c written).written_keys;
        }
  fill_field-filled c q written h =
      fill_class-alone table o rel c.column_class c.name q written ∙ λ i. record {
        query = q ++ value table o rel c written;
        column_added = (fill_class-filled table o rel c.column_class c.name written ∙ h) i;
        written_keys = (alone table o rel c written).written_keys;
      }

  fields_loop-values :
      (cols : List Column) (p v : Bytes) (written : List Bytes)
      → All (λ c. filled table.updateable o.type c.column_class ≡ true) cols
      → (Row.fields_loop table o rel cols (record (fresh written) { query = p ++ v })).query
          ++ b'\n' ∷ []
        ≡ p ++ line_text v (values table o rel cols written)
  unfolding Row.fields_loop Row.fill_field line_text add_separator_to_stringstream values
  fields_loop-values [] p v written h = append_assoc p v _
  fields_loop-values (c ∷ cols) p v written h =
      ap (λ row. (Row.fields_loop table o rel cols row).query ++ b'\n' ∷ [])
        (fill_field-filled c ((p ++ v) ++ b'\t' ∷ []) written h.0)
      ∙ fields_loop-values cols ((p ++ v) ++ b'\t' ∷ []) (value table o rel c written)
          (alone table o rel c written).written_keys h.1
      ∙ append_assoc (p ++ v) (b'\t' ∷ []) _
      ∙ append_assoc p v _

module _ (table : Table) (o : OsmObject) (rel : Option (List Tag))
    (sources : PlainSources table o) where
  pub value-StaysInside :
      (class : ColumnClass) (name : Bytes) (written : List Bytes)
      → StaysInside (Row.fill_class table class o name rel (fresh written)).query
  unfolding Row.fill_class Row.add_tag Row.add_geometry Append.add_int32 Append.add_version
      Append.add_uid Append.add_changeset Append.add_timestamp Append.add_username
  value-StaysInside tags_other name written = add_tags_other-StaysInside table o written rel
  value-StaysInside tag name written =
      tag_value-StaysInside (get_value_by_key o.tags name) (Row.rel_value rel name) name written
  value-StaysInside osm_id name written = add_id-StaysInside o.type o
  value-StaysInside username name written = escape-StaysInside (some o.user)
  value-StaysInside version name written = decimal-StaysInside o.version
  value-StaysInside uid name written = decimal-StaysInside o.version
  value-StaysInside changeset name written = decimal-StaysInside o.version
  value-StaysInside timestamp name written = sources.iso
  value-StaysInside geometry_class name written =
      StaysInside-append (codes "SRID=4326;") _ (all_plain-StaysInside (codes "SRID=4326;") refl)
        sources.wkb
  value-StaysInside way_nodes name written =
      elim (Bool-cases (Row.is_way o.type && table.updateable)) [
        | inl on ↦ rw on (add_way_nodes-StaysInside o.nodes)
        | inr off ↦ rw off StaysInside-nil
      ]
  value-StaysInside latitude name written = elim (Bool-cases (Row.is_node o.type)) [
    | inl on ↦ rw on (decimal_ℤ-StaysInside o.location.y)
    | inr off ↦ rw off StaysInside-nil
  ]
  value-StaysInside longitude name written = elim (Bool-cases (Row.is_node o.type)) [
    | inl on ↦ rw on (decimal_ℤ-StaysInside o.location.x)
    | inr off ↦ rw off StaysInside-nil
  ]
  value-StaysInside _ name written = StaysInside-nil

  pub values-StaysInside :
      (cols : List Column) (written : List Bytes)
      → All StaysInside (values table o rel cols written)
  unfolding values
  values-StaysInside [] written = tt
  values-StaysInside (c ∷ cols) written =
      (value-StaysInside c.column_class c.name written, values-StaysInside cols _)

  -- COPY reads the line of an object as one row with one value for each column, in the order of
  -- the columns, and goes on with what follows the line. The table has a column, `fill_field`
  -- writes each column of it for objects of this type, and the texts of the timestamp and of the
  -- geometry hold no tab, newline or backslash of their own.
  pub prepare_query-rows :
      (c : Column) (cols : List Column) (more : Bytes)
      → All (λ c. filled table.updateable o.type c.column_class ≡ true) (c ∷ cols)
      → rows (Row.prepare_query table (c ∷ cols) o rel ++ more)
        ≡ values table o rel (c ∷ cols) [] ∷ rows more
  unfolding Row.prepare_query Row.fields_loop Row.fill_field values rows
  prepare_query-rows c cols more h =
      ap (λ row. rows ((Row.fields_loop table o rel cols row).query ++ b'\n' ∷ [] ++ more))
        (fill_field-filled table o rel c [] [] h.0)
      ∙ ap (λ line. rows (line ++ more))
          (fields_loop-values table o rel cols [] (value table o rel c [])
            (alone table o rel c []).written_keys h.1)
      ∙ rows-line_text (value table o rel c []) _ more (value-StaysInside c.column_class c.name [])
          (values-StaysInside cols _)
