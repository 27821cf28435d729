-- ===== src/Collector/Sending.antt =====
-- What the import sends for a relation.
use cerepso.Base.{
  Bytes, true, false, List, [], ◌∷◌, ◌++◌, none, some, ok, err, ◌≡◌, refl, ap, ◌∙◌, append-nil,
  append_assoc, codes, All, Bool-cases, inl, inr,
}
use cerepso.Base.Int.{pos, eq_ℤ}
use cerepso.CopyText.{StaysInside, rows}
use cerepso.Osm
use cerepso.Osm.{ItemType, Location, Member, OsmObject}
use cerepso.Columns.{Column, geometry_multipoint, geometry_multilinestring}
use cerepso.Database.{Server, copy_data, last}
use cerepso.Database.Sending.{Copying, last-newline, send_line-last}
use cerepso.Handler.Row
use cerepso.Handler.Values.{values, filled}
use cerepso.Handler.Lines.{PlainSources}
use cerepso.Handler.RelationLine.{after, first_behind, later_behind, prepare_relation_query-rows}
use cerepso.Collector
use cerepso.Collector.{
  RelationCollector, Fault, geometry_error, Library, Vectors, no_vectors, pointed, build_member,
  build_members,
}

module _ (library : Library) where
  open library use {
    get_member_way, get_member_node, create_linestring, create_point, multipoint_wkb,
    multilinestring_wkb,
  }

  -- What a member adds to the two geometries of its relation.
  pub data Adds : Member → List Location → List (List Location) → Type 0 where
    absent : {m : Member} → eq_ℤ m.ref (pos 0) ≡ true → Adds m [] []
    member_point :
        {m : Member} {loc at : Location}
        → eq_ℤ m.ref (pos 0) ≡ false
        → m.type ≡ Osm.node
        → get_member_node m.ref ≡ some loc
        → create_point loc ≡ ok at
        → Adds m (at ∷ []) []
    member_line :
        {m : Member} {locs along : List Location}
        → eq_ℤ m.ref (pos 0) ≡ false
        → m.type ≡ Osm.way
        → get_member_way m.ref ≡ some locs
        → create_linestring locs ≡ ok along
        → Adds m [] (along ∷ [])
    nested : {m : Member} → m.type ≡ Osm.relation → Adds m [] []

  pub data Gathers : List Member → List Location → List (List Location) → Type 0 where
    none_left : Gathers [] [] []
    next :
        {m : Member} {members : List Member} {ps qs : List Location} {ls ks : List (List Location)}
        → Adds m ps ls
        → Gathers members qs ks
        → Gathers (m ∷ members) (ps ++ qs) (ls ++ ks)

  abbrev extended : Vectors → List Location → List (List Location) → Vectors
  extended v ps ls = record { points = v.points ++ ps; linestrings = v.linestrings ++ ls }

  extended-nil : (v : Vectors) → v ≡ extended v [] []
  extended-nil v = rw (append-nil v.points, append-nil v.linestrings) refl

  step :
      {m : Member} {ps : List Location} {ls : List (List Location)} (members : List Member)
      (v : Vectors)
      → Adds m ps ls
      → build_members library (m ∷ members) v ≡ build_members library members (extended v ps ls)
  unfolding build_members build_member
  step members v (absent e) = rw e (ap (build_members library members) (extended-nil v))
  step members v (member_point {loc} {at} e t f c) = rw (e, t, f, c, append-nil v.linestrings) refl
  step members v (member_line e t f c) = rw (e, t, f, c, append-nil v.points) refl
  step {m} members v (nested t) = elim (Bool-cases (eq_ℤ m.ref (pos 0))) [
    | inl e ↦ rw e (ap (build_members library members) (extended-nil v))
    | inr e ↦ rw (e, t) (ap (build_members library members) (extended-nil v))
  ]

  build_members-Gathers :
      {members : List Member} {ps : List Location} {ls : List (List Location)} (v : Vectors)
      → Gathers members ps ls
      → build_members library members v ≡ ok (extended v ps ls)
  unfolding build_members
  build_members-Gathers v none_left = ap ok (extended-nil v)
  build_members-Gathers v (next {m} {members} {ps} {qs} {ls} {ks} a rest) =
      step members v a
      ∙ build_members-Gathers (extended v ps ls) rest
      ∙ rw (append_assoc v.points ps qs, append_assoc v.linestrings ls ks) refl

  module _ (server : Server) (source : Row.Table) where
    completed :
        (line : Bytes) (collector : RelationCollector) (relation : OsmObject) {v : Vectors}
        → Copying server collector.m_database_table
        → build_members library relation.members no_vectors ≡ ok v
        → Row.prepare_relation_query source collector.m_database_table.m_columns relation
            (multipoint_wkb v.points)
            (multilinestring_wkb v.linestrings)
            []
          ≡ line
        → last line ≡ some b'\n'
        → Collector.complete_relation library server source relation collector
          ≡ ok (record collector {
            m_database_table = record collector.m_database_table {
              sent = copy_data line ∷ collector.m_database_table.sent;
            };
          })
    unfolding Collector.complete_relation Collector.process_relation Collector.build_relation_query
    completed line collector relation copying built same ended =
        rw (built, same, send_line-last server collector.m_database_table copying line ended) refl

    -- A relation all of whose members that the input contains have a geometry, in COPY mode: exactly
    -- one line is sent, and COPY reads it as one row. It holds a value for each column in front of
    -- the geometries, the points of the member nodes and the lines of the member ways in the order of
    -- the members, and a value for each column behind, with one empty value more if there is
    -- none. The conditions on columns and texts are those of the line of a relation.
    pub complete_relation-rows :
        (c g h : Column) (pre post : List Column) (collector : RelationCollector)
        (relation : OsmObject) (ps : List Location) (ls : List (List Location))
        → Copying server collector.m_database_table
        → collector.m_database_table.m_columns ≡ c ∷ (pre ++ g ∷ h ∷ post)
        → Gathers relation.members ps ls
        → PlainSources source relation
        → StaysInside (multipoint_wkb ps)
        → StaysInside (multilinestring_wkb ls)
        → All (λ c. filled source.updateable relation.type c.column_class ≡ true) (c ∷ pre)
        → g.column_class ≡ geometry_multipoint
        → h.column_class ≡ geometry_multilinestring
        → All (λ c. filled source.updateable relation.type c.column_class ≡ true) post
        → (line : Bytes) × (Collector.complete_relation library server source relation collector
            ≡ ok (record collector {
              m_database_table = record collector.m_database_table {
                sent = copy_data line ∷ collector.m_database_table.sent;
              };
            }))
          × ((more : Bytes)
              → rows (line ++ more)
                ≡ (values source relation none (c ∷ pre) []
                    ++ (codes "SRID=4326;" ++ multipoint_wkb ps)
                      ∷ (codes "SRID=4326;" ++ multilinestring_wkb ls)
                      ∷ first_behind source relation
                          (multipoint_wkb ps)
                          (multilinestring_wkb ls)
                          post
                          (after source relation
                            (multipoint_wkb ps)
                            (multilinestring_wkb ls)
                            (c ∷ pre)
                            [])
                      ∷ later_behind source relation
                          (multipoint_wkb ps)
                          (multilinestring_wkb ls)
                          post
                          (after source relation
                            (multipoint_wkb ps)
                            (multilinestring_wkb ls)
                            (c ∷ pre)
                            []))
                  ∷ rows more)
    unfolding Row.prepare_relation_query
    complete_relation-rows c g h pre post collector relation ps ls copying cols gathers sources p q
          filled_pre r s filled_post =
        (
          line,
          completed line collector relation copying (build_members-Gathers no_vectors gathers)
              (ap (λ cs. Row.prepare_relation_query source cs relation points lines []) cols)
              (last-newline
                (Row.relation_fields_loop source relation points lines (c ∷ (pre ++ g ∷ h ∷ post))
                  (Row.empty_row source)).query),
          λ more.
              prepare_relation_query-rows source relation points lines sources p q c g h pre post
                more filled_pre r s filled_post,
        )
      where
        points : Bytes
        points = multipoint_wkb ps

        lines : Bytes
        lines = multilinestring_wkb ls

        line : Bytes
        line =
            Row.prepare_relation_query source (c ∷ (pre ++ g ∷ h ∷ post)) relation points lines []

    -- A geometry error while the line of a relation is built ends neither the import nor COPY mode:
    -- nothing is sent.
    complete_relation-geometry_error :
        (collector : RelationCollector) (relation : OsmObject)
        → build_members library relation.members no_vectors ≡ err geometry_error
        → Collector.complete_relation library server source relation collector ≡ ok collector
    unfolding Collector.complete_relation Collector.process_relation Collector.build_relation_query
    complete_relation-geometry_error collector relation e = rw e refl
