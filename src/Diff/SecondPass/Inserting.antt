-- ===== src/Diff/SecondPass/Inserting.antt =====
-- Relations in the second pass: when the handler returns, and the modes behind it.
use cerepso.Base.{
  ℕ, ◌+◌, ◌-◌, ◌^◌, leb, Bytes, Bool, true, false, List, [], ◌∷◌, some, ◌≡◌, refl, ◌⊎◌, inl, inr,
  if◌then◌else◌, Holds, returned, bind-Holds, bad-Holds, if-Holds, decide-Holds, thrown, err, ◌≢◌,
  ◌&&◌, length, arith,
}
use cerepso.Base.Int.{ℤ}
use cerepso.Osm
use cerepso.Osm.{ItemType, Location, Member, OsmObject}
use cerepso.Database.{last}
use cerepso.Database.Sending.{last-newline}
use cerepso.Escape.{escape, add_separator_to_stringstream}
use cerepso.Handler.Append.{add_osm_id, add_int16, to_int16}
use cerepso.Handler.Row
use cerepso.Handler.Members
use cerepso.Connections.{
  TableName, node_ways, node_relations, way_relations, relation_relations, relations, Environment,
  Tables,
}
use cerepso.Import
use cerepso.Import.{is_filled}
use cerepso.Diff.Shared.{out_of_range, Geometries}
use cerepso.Diff.SecondPass.{DiffHandler2, TypeProgress, relations_progress}
use cerepso.Diff.SecondPass.Relations
use cerepso.Diff.SecondPass.MemberGeometry.{Collected, nothing}
use cerepso.Diff.SecondPass.Calls.{Takes}
use cerepso.Diff.SecondPass.Modes.{
  copies, Modes, Sound, with_tables-Holds, send-Holds, send_filled-Holds, with_lists,
}
use cerepso.Diff.SecondPass.Arrivals.{Mode, way_nodes-Holds}
use cerepso.Diff.SecondPass.Ordered.{InPhase, after_nodes-Holds, expired-Sound}
use cerepso.Diff.SecondPass.Updating.{Obliging, found-Holds}
use cerepso.Diff.SecondPass.Turning.{after_ways-Holds}

-- A text that is empty or ends in a newline.
abbrev Ends : Bytes → Type 0
Ends q = is_filled q ≡ true → last q ≡ some b'\n'

if-Ends : (b : Bool) (x y : Bytes) → Ends x → Ends y → Ends (if b then x else y)
if-Ends true x y p q = p
if-Ends false x y p q = q

member_line-last :
    (id : ℤ) (i : ℕ) (m : Member) (q : Bytes) → last (Members.member_line id i m q) ≡ some b'\n'
unfolding Members.member_line
member_line-last id i m q = last-newline (
    escape (some m.role) (
      add_separator_to_stringstream (
        add_int16
          (add_separator_to_stringstream
            (add_osm_id (add_separator_to_stringstream (add_osm_id q m.ref)) id))
          (to_int16 i))))

member_list_loop-Ends :
    (type : ItemType) (id : ℤ) (i : ℕ) (members : List Member) (q : Bytes)
    → Ends q
    → Ends (Members.member_list_loop type id i members q)
unfolding Members.member_list_loop Members.member_line
member_list_loop-Ends type id i [] q e = e
member_list_loop-Ends type id i (m ∷ members) q e = if-Ends (leb (2 ^ 16 - 1) i) q _ e (
    member_list_loop-Ends type id (i + 1) members _
      (if-Ends (Members.same_type m.type type) _ q (λ _. member_line-last id i m q) e))

member_list-Ends :
    (object : OsmObject) (type : ItemType)
    → Ends (Members.prepare_relation_member_list_query object type)
unfolding Members.prepare_relation_member_list_query
member_list-Ends object type =
    member_list_loop-Ends type object.id 0 object.members [] (λ e. absurd (ground (arith, e)))

module _ {Bad : Type 0} (env : Environment) (geo : Geometries)
    (takes : (name : TableName) → Takes (env.server name) ⊎ Bad)
    (obliging : Obliging env geo ⊎ Bad) where
  pub created-Holds :
      (locs : List Location)
      → (length locs ≢ 1) ⊎ Bad
      → Holds Bad (λ line. Unit {0}) (geo.create_linestring locs)
  created-Holds locs (inl some_points) = elim obliging [
    | inl o ↦ let (line, e) = o.create_linestring locs some_points in rw e (returned tt)
    | inr bad ↦ bad-Holds (geo.create_linestring locs) bad λ line. tt
  ]
  created-Holds locs (inr bad) = bad-Holds (geo.create_linestring locs) bad λ line. tt

  no_trigger : (b : Bool) → (env.config.m_expiry_enabled && b ≡ false) ⊎ Bad
  no_trigger b = elim obliging [ inl o ↦ inl (rw o.no_expiry refl) | inr bad ↦ inr bad ]

  insert_member-Holds :
      (b : Bool) (type : ItemType) (ref : ℤ) (c : Collected) {f : TableName → Bool}
      {p : TypeProgress} {h : DiffHandler2}
      → (b ≡ false) ⊎ Bad
      → Mode Bad f node_ways false
      → Sound Bad f p h
      → Holds Bad (λ r. Sound Bad f p r.1) (Relations.insert_member env geo b type ref c h)
  unfolding Relations.insert_member
  insert_member-Holds b Osm.node ref c {f} {p} {h} quiet m s =
      bind-Holds (found-Holds h.m_location_index ref s.locates)
        λ loc v. if-Holds loc.valid (returned (expired-Sound env geo takes b _ s)) (returned s)
  insert_member-Holds b Osm.way ref c quiet m s =
      bind-Holds (way_nodes-Holds env geo takes node_ways ref m s) λ r s1.
        decide-Holds b (λ triggered. reads_empty triggered quiet)
          (λ _.
            bind-Holds (created-Holds [] (inl λ e. absurd (omega (arith, e))))
              λ line _. returned s1)
    where
      reads_empty :
          {A : Type 0} {P : A → Type 0}
          → b ≡ true
          → (b ≡ false) ⊎ Bad
          → Holds Bad P (err out_of_range)
      reads_empty triggered (inl e) = absurd (ground (arith, triggered, e))
      reads_empty triggered (inr bad) = thrown bad
  insert_member-Holds b Osm.relation ref c quiet m s = returned s
  insert_member-Holds b Osm.area ref c quiet m s = returned s

  insert_members-Holds :
      (b : Bool) (members : List Member) (c : Collected) {f : TableName → Bool} {p : TypeProgress}
      {h : DiffHandler2}
      → (b ≡ false) ⊎ Bad
      → Mode Bad f node_ways false
      → Sound Bad f p h
      → Holds Bad (λ r. Sound Bad f p r.1) (Relations.insert_members env geo b members c h)
  unfolding Relations.insert_members
  insert_members-Holds b [] c quiet m s = returned s
  insert_members-Holds b (x ∷ members) c quiet m s =
      bind-Holds (insert_member-Holds b x.type x.ref c quiet m s)
        λ r s1. insert_members-Holds b members r.0 quiet m s1

  line_sent :
      (object : OsmObject) (c : Collected) (f : TableName → Bool) (ts : Tables)
      → Mode Bad f relations true
      → Modes Bad f ts
      → Holds Bad
          (Modes Bad f)
          (Import.send env relations (Relations.relation_line env geo object c ts) ts)
  unfolding Row.prepare_relation_query
  line_sent object c f ts m =
      let source = env.source relations in
      let row =
        Row.relation_fields_loop source object (geo.multipoint_wkb c.points)
          (geo.multilinestring_wkb c.linestrings) (ts relations).m_columns (Row.empty_row source) in
      send-Holds env geo takes relations _ f ts m (inl (last-newline row.query))

  insert_relation-Holds :
      (object : OsmObject) {f : TableName → Bool} {p : TypeProgress} {h : DiffHandler2}
      → Mode Bad f node_ways false
      → Mode Bad f relations true
      → Sound Bad f p h
      → Holds Bad (Sound Bad f p) (Relations.insert_relation env geo object h)
  unfolding Relations.insert_relation
  insert_relation-Holds object {f} n m s =
      bind-Holds (insert_members-Holds _ object.members nothing (no_trigger _) n s) λ r s1.
        with_tables-Holds env geo takes
          (λ ts. Import.send env relations (Relations.relation_line env geo object r.0 ts) ts)
          (λ ts. line_sent object r.0 f ts m) s1

  send_members-Holds :
      (object : OsmObject) (f : TableName → Bool) (ts : Tables)
      → Mode Bad f node_relations true
      → Mode Bad f way_relations true
      → Mode Bad f relation_relations true
      → Modes Bad f ts
      → Holds Bad (Modes Bad f) (Import.send_members env object ts)
  unfolding Import.send_members Members.prepare_node_relation_query
      Members.prepare_way_relation_query Members.prepare_relation_relation_query
  send_members-Holds object f ts n w r m =
      bind-Holds
        (bind-Holds
          (send_filled-Holds env geo takes node_relations _ f ts n
            (member_list-Ends object Osm.node) m)
          λ ts1 m1.
            send_filled-Holds env geo takes way_relations _ f ts1 w
              (member_list-Ends object Osm.way) m1)
        λ ts2 m2.
          send_filled-Holds env geo takes relation_relations _ f ts2 r
            (member_list-Ends object Osm.relation) m2

  insert_or_skip-Holds :
      (object : OsmObject) {h : DiffHandler2}
      → InPhase Bad relations_progress h
      → Holds Bad (InPhase Bad relations_progress) (Relations.insert_or_skip env geo object h)
  unfolding Relations.insert_or_skip copies
  insert_or_skip-Holds object s = if-Holds object.deleted (returned s) (
      bind-Holds
        (bind-Holds (insert_relation-Holds object (inl refl) (inl refl) s) λ h1 s1.
          with_tables-Holds env geo takes (Import.send_members env object)
            (λ ts. send_members-Holds object _ ts (inl refl) (inl refl) (inl refl)) s1)
        λ h2 s2. returned (with_lists _ _ _ _ s2))

  -- A relation leads to the phase of relations from any phase.
  pub relation-Holds :
      (object : OsmObject) {p : TypeProgress} {h : DiffHandler2}
      → InPhase Bad p h
      → Holds Bad (InPhase Bad relations_progress) (Relations.relation env geo object h)
  unfolding Relations.relation
  relation-Holds object {p} s =
      bind-Holds
        (bind-Holds (after_nodes-Holds env geo takes s)
          λ h1 s1. after_ways-Holds env geo takes obliging p s1)
        λ h2 s2. insert_or_skip-Holds object s2
