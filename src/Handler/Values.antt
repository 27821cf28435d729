-- ===== src/Handler/Values.antt =====
-- The values that `fill_field` appends, one for each column, and how the lines frame them.
use cerepso.Base.{
  Bytes, Bool, true, false, ◌&&◌, List, [], ◌∷◌, ◌++◌, Option, none, some, Bool-cases, inl, inr,
  ◌≡◌, refl, sym, ap, ◌∙◌, arith, append-nil, append_assoc, codes,
}
use cerepso.Base.Int.{ℤ}
use cerepso.Decimal.{decimal_ℤ}
use cerepso.Escape.RoundTrip.{escape-append}
use cerepso.Osm.{ItemType, node, way, relation, area, Tag, OsmObject, get_value_by_key}
use cerepso.Columns.{
  Column, ColumnClass, tags_other, tag, osm_id, version, uid, username, changeset, timestamp,
  geometry_class, way_nodes, longitude, latitude,
}
use cerepso.Handler.Append
use cerepso.Handler.Row
use cerepso.Handler.Row.{Table, Row}
use cerepso.Handler.HstoreColumn.{add_tags_other-raw_tags}

abbrev pub fresh : List Bytes → Row
fresh written = record { query = []; column_added = true; written_keys = written }

abbrev pub on_top : Bytes → Row → Row
on_top q row = record row { query = q ++ row.query }

-- The columns that `fill_field` writes for a type of object.
abbrev pub filled : Bool → ItemType → ColumnClass → Bool
filled updateable type tags_other = true
filled updateable type tag = true
filled updateable type osm_id = true
filled updateable type version = true
filled updateable type uid = true
filled updateable type username = true
filled updateable type changeset = true
filled updateable type timestamp = true
filled updateable type way_nodes = Row.is_way type && updateable
filled updateable type geometry_class = true
filled updateable type latitude = Row.is_node type
filled updateable type longitude = Row.is_node type
filled updateable type _ = false

-- Rows that differ only in the query.
by_query :
    {added : Bool} {written : List Bytes} {p q : Bytes}
    → p ≡ q
    → Path Row
        (record { query = p; column_added = added; written_keys = written })
        (record { query = q; column_added = added; written_keys = written })
by_query {added} {written} e =
    λ i. record { query = e i; column_added = added; written_keys = written }

-- Every routine appends: what it writes does not depend on the line in front.
add_tag-alone :
    (o : OsmObject) (rel : Option (List Tag)) (name q : Bytes) (written : List Bytes)
    → Row.add_tag o name rel (record (fresh written) { query = q })
      ≡ on_top q (Row.add_tag o name rel (fresh written))
unfolding Row.add_tag
add_tag-alone o rel name q written = cases (get_value_by_key o.tags name) (Row.rel_value rel name)
  where
    cases :
        (own from_rel : Option Bytes)
        → Row.tag_value own from_rel name (record (fresh written) { query = q })
          ≡ on_top q (Row.tag_value own from_rel name (fresh written))
    cases (some t) from_rel = by_query (escape-append (some t) q)
    cases none (some t) = by_query (escape-append (some t) q)
    cases none none = refl

ids_loop-append :
    (later : Bool) (ids : List ℤ) (p q : Bytes)
    → Append.ids_loop later ids (p ++ q) ≡ p ++ Append.ids_loop later ids q
unfolding Append.ids_loop
ids_loop-append later [] p q = refl
ids_loop-append true (id ∷ ids) p q =
    rw (append_assoc p q (codes ", "), append_assoc p (q ++ codes ", ") (decimal_ℤ id))
      (ids_loop-append true ids p _)
ids_loop-append false (id ∷ ids) p q =
    rw (append_assoc p q (decimal_ℤ id)) (ids_loop-append true ids p _)

pub add_way_nodes-alone :
    (ids : List ℤ) (q : Bytes) → Append.add_way_nodes ids q ≡ q ++ Append.add_way_nodes ids []
unfolding Append.add_way_nodes
add_way_nodes-alone ids q =
    rw (ids_loop-append false ids q (b'{' ∷ [])) (append_assoc q _ (b'}' ∷ []))

add_id-alone :
    (type : ItemType) (o : OsmObject) (q : Bytes) → Row.add_id type o q ≡ q ++ Row.add_id type o []
unfolding Row.add_id Append.add_osm_id
add_id-alone area o q = ground arith
add_id-alone node o q = refl
add_id-alone way o q = refl
add_id-alone relation o q = refl

module _ (table : Table) (o : OsmObject) (rel : Option (List Tag)) where
  -- The row behind a column whose value starts on an empty line.
  abbrev pub alone : Column → List Bytes → Row
  alone c written = Row.fill_class table c.column_class o c.name rel (fresh written)

  abbrev pub value : Column → List Bytes → Bytes
  value c written = (alone c written).query

  unfoldable pub values : List Column → List Bytes → List Bytes
  values [] written = []
  values (c ∷ cols) written = value c written ∷ values cols (alone c written).written_keys

  pub fill_class-alone :
      (class : ColumnClass) (name q : Bytes) (written : List Bytes)
      → Row.fill_class table class o name rel (record (fresh written) { query = q })
        ≡ on_top q (Row.fill_class table class o name rel (fresh written))
  unfolding Row.fill_class Row.add_geometry Append.add_int32 Append.add_version Append.add_uid
      Append.add_changeset Append.add_timestamp Append.add_username
  fill_class-alone tags_other name q written = by_query (
      add_tags_other-raw_tags table o written rel q
      ∙ ap (◌++◌ q) (sym (add_tags_other-raw_tags table o written rel [])))
  fill_class-alone tag name q written = add_tag-alone o rel name q written
  fill_class-alone osm_id name q written = by_query (add_id-alone o.type o q)
  fill_class-alone username name q written = by_query (escape-append (some o.user) q)
  fill_class-alone way_nodes name q written =
      elim (Bool-cases (Row.is_way o.type && table.updateable)) [
        | inl on ↦ rw on (by_query (add_way_nodes-alone o.nodes q))
        | inr off ↦ rw off (by_query (sym (append-nil q)))
      ]
  fill_class-alone latitude name q written = elim (Bool-cases (Row.is_node o.type)) [
    | inl on ↦ rw on refl
    | inr off ↦ rw off (by_query (sym (append-nil q)))
  ]
  fill_class-alone longitude name q written = elim (Bool-cases (Row.is_node o.type)) [
    | inl on ↦ rw on refl
    | inr off ↦ rw off (by_query (sym (append-nil q)))
  ]
  fill_class-alone version name q written = refl
  fill_class-alone uid name q written = refl
  fill_class-alone changeset name q written = refl
  fill_class-alone timestamp name q written = refl
  fill_class-alone geometry_class name q written = refl
  fill_class-alone _ name q written = by_query (sym (append-nil q))

  pub fill_class-filled :
      (class : ColumnClass) (name : Bytes) (written : List Bytes)
      → (Row.fill_class table class o name rel (fresh written)).column_added
        ≡ filled table.updateable o.type class
  unfolding Row.fill_class Row.add_tag
  fill_class-filled tags_other name written = refl
  fill_class-filled tag name written = added (get_value_by_key o.tags name) (Row.rel_value rel name)
    where
      added :
          (own from_rel : Option Bytes)
          → (Row.tag_value own from_rel name (fresh written)).column_added ≡ true
      added (some t) from_rel = refl
      added none (some t) = refl
      added none none = refl
  fill_class-filled way_nodes name written = ground arith
  fill_class-filled latitude name written = ground arith
  fill_class-filled longitude name written = ground arith
  fill_class-filled osm_id name written = refl
  fill_class-filled username name written = refl
  fill_class-filled version name written = refl
  fill_class-filled uid name written = refl
  fill_class-filled changeset name written = refl
  fill_class-filled timestamp name written = refl
  fill_class-filled geometry_class name written = refl
  fill_class-filled _ name written = refl
