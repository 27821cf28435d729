-- ===== src/Handler/RelationLine.antt =====
-- The line of a relation as COPY reads it.
use cerepso.Base.{
  Bytes, true, false, List, [], ◌∷◌, ◌++◌, none, ◌≡◌, refl, sym, ap, ◌∙◌, append-nil, append_assoc,
  codes, All, All-append,
}
use cerepso.CopyText.{
  StaysInside, StaysInside-nil, StaysInside-append, rows, rows-line_text, line_text-append,
  line_text, joined, line_text-joined,
}
use cerepso.Escape.{add_separator_to_stringstream}
use cerepso.Osm.{OsmObject}
use cerepso.Columns.{Column, geometry_multipoint, geometry_multilinestring}
use cerepso.Handler.Row
use cerepso.Handler.Row.{Table, Row}
use cerepso.Handler.Values.{value, values, alone, filled}
use cerepso.Handler.Lines.{
  PlainSources, fill_field-filled, value-StaysInside, values-StaysInside, all_plain-StaysInside,
}

abbrev added : Bytes → List Bytes → Row
added q written = record { query = q; column_added = true; written_keys = written }

module _ (table : Table) (o : OsmObject) (points lines : Bytes) where
  abbrev pub after : List Column → List Bytes → List Bytes
  after [] written = written
  after (c ∷ cols) written = after cols (alone table o none c written).written_keys

  abbrev loop : List Column → Row → Row
  loop cols row = Row.relation_fields_loop table o points lines cols row

  -- One filled column.
  loop_fill :
      (c : Column) (rest : List Column) (q : Bytes) (written : List Bytes)
      → filled table.updateable o.type c.column_class ≡ true
      → (let row = Row.fill_class table c.column_class o c.name none (added q written) in
          loop rest (record row {
            query =
                Row.add_member_geometry table c.column_class row.column_added points lines
                  row.query;
          }))
        ≡ loop rest
            (added (q ++ value table o none c written) (alone table o none c written).written_keys)
  unfolding Row.add_member_geometry
  loop_fill c rest q written h =
      ap
        (λ row. loop rest (record row {
          query =
              Row.add_member_geometry table c.column_class row.column_added points lines row.query;
        }))
        (fill_field-filled table o none c q written h)

  loop_step :
      (c : Column) (rest : List Column) (q : Bytes) (written : List Bytes)
      → filled table.updateable o.type c.column_class ≡ true
      → loop (c ∷ rest) (added q written)
        ≡ loop rest (
            added
              (q ++ b'\t' ∷ [] ++ value table o none c written)
              (alone table o none c written).written_keys)
  unfolding Row.relation_fields_loop Row.fill_field add_separator_to_stringstream
  loop_step c rest q written h = loop_fill c rest (q ++ b'\t' ∷ []) written h

  -- The filled columns in front.
  loop-values :
      (cols rest : List Column) (p v : Bytes) (written : List Bytes)
      → All (λ c. filled table.updateable o.type c.column_class ≡ true) cols
      → loop (cols ++ rest) (added (p ++ v) written)
        ≡ loop rest (added (p ++ joined v (values table o none cols written)) (after cols written))
  unfolding joined values
  loop-values [] rest p v written h = refl
  loop-values (c ∷ cols) rest p v written h =
      loop_step c (cols ++ rest) (p ++ v) written h.0
      ∙ loop-values cols rest ((p ++ v) ++ b'\t' ∷ []) (value table o none c written) _ h.1
      ∙ ap (λ q. loop rest (added q (after (c ∷ cols) written)))
          (append_assoc (p ++ v) (b'\t' ∷ []) _ ∙ append_assoc p v _)

  abbrev pub geometry_text : Bytes → Bytes
  geometry_text wkb = codes "SRID=4326;" ++ wkb

  -- The columns behind the two geometry columns. If there are none, an empty value stands there.
  unfoldable pub first_behind : List Column → List Bytes → Bytes
  first_behind [] written = []
  first_behind (c ∷ post) written = value table o none c written

  unfoldable pub later_behind : List Column → List Bytes → List Bytes
  later_behind [] written = []
  later_behind (c ∷ post) written =
      values table o none post (alone table o none c written).written_keys

  abbrev geometries : Bytes
  geometries = b'\t' ∷ (geometry_text points ++ b'\t' ∷ (geometry_text lines ++ b'\t' ∷ []))

  -- The two geometry columns write a tab behind each text, and the next column none in front.
  loop_geometry :
      (g h : Column) (post : List Column) (q : Bytes) (written : List Bytes)
      → g.column_class ≡ geometry_multipoint
      → h.column_class ≡ geometry_multilinestring
      → loop (g ∷ h ∷ post) (added q written)
        ≡ loop post (record (added (q ++ geometries) written) { column_added = false })
  unfolding Row.relation_fields_loop Row.fill_field Row.fill_class Row.add_member_geometry
      add_separator_to_stringstream
  loop_geometry g h post q written p r =
      rw (p, r)
        (ap (λ t. loop post (record (added t written) { column_added = false }))
          (simp (add_separator_to_stringstream, append_assoc)))

  loop_end :
      (post : List Column) (q v : Bytes) (written : List Bytes)
      → All (λ c. filled table.updateable o.type c.column_class ≡ true) post
      → (loop post (added (q ++ v) written)).query ++ b'\n' ∷ []
        ≡ q ++ line_text v (values table o none post written)
  unfolding Row.relation_fields_loop
  loop_end post q v written h =
      ap (λ cols. (loop cols (added (q ++ v) written)).query ++ b'\n' ∷ []) (sym (append-nil post))
      ∙ ap (λ row. row.query ++ b'\n' ∷ []) (loop-values post [] q v written h)
      ∙ append_assoc q (joined v (values table o none post written)) (b'\n' ∷ [])
      ∙ ap (◌++◌ q) (sym (line_text-joined v (values table o none post written)))

  loop_behind :
      (post : List Column) (q : Bytes) (written : List Bytes)
      → All (λ c. filled table.updateable o.type c.column_class ≡ true) post
      → (loop post (record (added q written) { column_added = false })).query ++ b'\n' ∷ []
        ≡ q ++ line_text (first_behind post written) (later_behind post written)
  unfolding Row.relation_fields_loop Row.fill_field first_behind later_behind line_text
  loop_behind [] q written h = refl
  loop_behind (c ∷ post) q written h =
      ap (λ row. row.query ++ b'\n' ∷ []) (loop_fill c post q written h.0)
      ∙ loop_end post q (value table o none c written) _ h.1

  line_of :
      (c g h : Column) (pre post : List Column)
      → All (λ c. filled table.updateable o.type c.column_class ≡ true) (c ∷ pre)
      → g.column_class ≡ geometry_multipoint
      → h.column_class ≡ geometry_multilinestring
      → All (λ c. filled table.updateable o.type c.column_class ≡ true) post
      → Row.prepare_relation_query table (c ∷ (pre ++ g ∷ h ∷ post)) o points lines []
        ≡ line_text (value table o none c []) (
            values table o none pre (alone table o none c []).written_keys
            ++ geometry_text points
              ∷ geometry_text lines
              ∷ first_behind post (after (c ∷ pre) [])
              ∷ later_behind post (after (c ∷ pre) []))
  unfolding Row.prepare_relation_query Row.relation_fields_loop Row.fill_field line_text
  line_of c g h pre post filled_pre p r filled_post =
      ap closed (loop_fill c (pre ++ g ∷ h ∷ post) [] [] filled_pre.0)
      ∙ ap closed
          (loop-values pre (g ∷ h ∷ post) [] v (alone table o none c []).written_keys filled_pre.1)
      ∙ ap closed (loop_geometry g h post (joined v vs) (after (c ∷ pre) []) p r)
      ∙ loop_behind post (joined v vs ++ geometries) (after (c ∷ pre) []) filled_post
      ∙ (simp append_assoc)
      ∙ sym (line_text-append v (geometry_text points) vs _)
    where
      closed : Row → Bytes
      closed row = row.query ++ b'\n' ∷ []

      v : Bytes
      v = value table o none c []

      vs : List Bytes
      vs = values table o none pre (alone table o none c []).written_keys

  module _ (sources : PlainSources table o) (plain_points : StaysInside points)
      (plain_lines : StaysInside lines) where
    behind-StaysInside :
        (post : List Column) (written : List Bytes)
        → StaysInside (first_behind post written) × All StaysInside (later_behind post written)
    unfolding first_behind later_behind
    behind-StaysInside [] written = (StaysInside-nil, tt)
    behind-StaysInside (c ∷ post) written = (
      value-StaysInside table o none sources c.column_class c.name written,
      values-StaysInside table o none sources post _,
    )

    geometry_text-StaysInside : (wkb : Bytes) → StaysInside wkb → StaysInside (geometry_text wkb)
    geometry_text-StaysInside wkb h =
        StaysInside-append (codes "SRID=4326;") wkb
          (all_plain-StaysInside (codes "SRID=4326;") refl) h

    -- COPY reads the line of a relation as one row: a value for each column in front, the two
    -- geometries, and a value for each column behind. If no column stands behind them, the row
    -- has one more value than the table has columns, and it is empty. All other columns are ones
    -- that `fill_field` writes for a relation, one of them in front, and the texts of the
    -- timestamp and of the geometries hold no tab, newline or backslash of their own.
    pub prepare_relation_query-rows :
        (c g h : Column) (pre post : List Column) (more : Bytes)
        → All (λ c. filled table.updateable o.type c.column_class ≡ true) (c ∷ pre)
        → g.column_class ≡ geometry_multipoint
        → h.column_class ≡ geometry_multilinestring
        → All (λ c. filled table.updateable o.type c.column_class ≡ true) post
        → rows
            (Row.prepare_relation_query table (c ∷ (pre ++ g ∷ h ∷ post)) o points lines [] ++ more)
          ≡ (values table o none (c ∷ pre) []
              ++ geometry_text points
                ∷ geometry_text lines
                ∷ first_behind post (after (c ∷ pre) [])
                ∷ later_behind post (after (c ∷ pre) []))
            ∷ rows more
    unfolding values
    prepare_relation_query-rows c g h pre post more filled_pre p r filled_post =
        ap (λ line. rows (line ++ more)) (line_of c g h pre post filled_pre p r filled_post)
        ∙ rows-line_text (value table o none c []) _ more
            (value-StaysInside table o none sources c.column_class c.name [])
            (All-append StaysInside _ _ (values-StaysInside table o none sources pre _) (
              geometry_text-StaysInside points plain_points,
              (geometry_text-StaysInside lines plain_lines, behind-StaysInside post _),
            ))
