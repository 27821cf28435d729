-- ===== src/Diff/SecondPass/Closing.antt =====
-- The work behind the relations of a diff: when it returns, and that no table stays in COPY mode.
use cerepso.Base.{
  Bytes, Bool, true, false, List, [], ◌∷◌, Option, none, some, map, ◌≡◌, refl, ◌⊎◌, inl, inr, codes,
  Holds, returned, thrown, bind-Holds, bad-Holds, if-Holds, equation-Holds, ok_injective, Result,
  ok, err, ◌>>=◌, length, suc, ap, sym, ◌∙◌, subst, ◌≢◌, arith,
}
use cerepso.Base.Int.{ℤ}
use cerepso.Osm
use cerepso.Osm.{ItemType, Location, OsmObject}
use cerepso.Database
use cerepso.Database.{Server, Table}
use cerepso.Database.Queries
use cerepso.Database.Members
use cerepso.Database.Members.{MemberIdTypePos}
use cerepso.Handler.Row.{negated}
use cerepso.Connections.{
  TableName, nodes, untagged_nodes, ways_linear, areas, node_ways, node_relations, way_relations,
  relation_relations, relations, Environment, Tables, set, ask,
}
use cerepso.Diff.Shared.{Fault, from_database, LocationIndex, MemberWay, Geometries}
use cerepso.Diff.SecondPass.{DiffHandler2, TypeProgress, relations_progress, query}
use cerepso.Diff.SecondPass.MemberGeometry
use cerepso.Diff.SecondPass.MemberGeometry.{Collected, nothing, checked}
use cerepso.Diff.SecondPass.Relations
use cerepso.Diff.SecondPass.Calls.{
  Takes, Ready, require_connected, not_copying, run_guarded-Holds, query_rows-Holds,
}
use cerepso.Diff.SecondPass.Modes.{
  copies, put, Locates, Sound, run_keeps, query-Holds, end-Holds, with_lists,
}
use cerepso.Diff.SecondPass.Arrivals.{Mode, way_nodes-Holds}
use cerepso.Diff.SecondPass.Ordered.{InPhase, or_bad}
use cerepso.Diff.SecondPass.Updating.{Obliging, found-Holds, locate-Holds, has_area-Holds}
use cerepso.Diff.SecondPass.Inserting.{created-Holds}

-- No table is in COPY mode.
abbrev pub all_off : TableName → Bool
all_off name = false

length-map_first : (rows : List (ℤ × ℤ)) → length (map (λ n. n.0) rows) ≡ length rows
length-map_first [] = refl
length-map_first (n ∷ rows) = ap suc (length-map_first rows)

module _ {Bad : Type 0} where
  checked-Holds :
      (loc : Location) → (loc.valid ≡ true) ⊎ Bad → Holds Bad (λ l. Unit {0}) (checked loc)
  checked-Holds loc (inl v) = rw v (returned tt)
  checked-Holds loc (inr bad) = bad-Holds (checked loc) bad λ l. tt

  coordinates-Holds :
      (index : LocationIndex) (ids : List ℤ)
      → Locates index ⊎ Bad
      → Holds Bad (λ locs. length locs ≡ length ids) (MemberGeometry.coordinates index ids)
  unfolding MemberGeometry.coordinates
  coordinates-Holds index [] l = returned refl
  coordinates-Holds index (id ∷ ids) l =
      bind-Holds (bind-Holds (found-Holds index id l) λ loc v. checked-Holds loc v)
        λ loc _. bind-Holds (coordinates-Holds index ids l) λ locs e. returned (ap suc e)

  get_members_table :
      (server : Server) (b : Bool) (members : List MemberIdTypePos) (id : ℤ) (type : ItemType)
      (t : Table)
      → Takes server ⊎ Bad
      → (b ≡ false) ⊎ Bad
      → Ready Bad b t
      → Holds Bad
          (λ r. Ready Bad b r.1)
          (Members.get_members_by_id_and_type server members id type t)
  unfolding Members.get_members_by_id_and_type
  get_members_table server b members id type t k m r =
      bind-Holds (require_connected server k b t r) λ _ c.
        bind-Holds (not_copying server k b t m r.0)
          λ _ n. bind-Holds (query_rows-Holds server k b _ id t m r) λ q s. returned s

  member_geometry_table :
      (server : Server) (b : Bool) (id : ℤ) (point_text line_text : Bytes) (t : Table)
      → Takes server ⊎ Bad
      → (b ≡ false) ⊎ Bad
      → Ready Bad b t
      → Holds Bad
          (Ready Bad b)
          (Queries.update_relation_member_geometry server id point_text line_text t)
  unfolding Queries.update_relation_member_geometry
  member_geometry_table server b id point_text line_text t k m r =
      bind-Holds (require_connected server k b t r)
        λ _ c. run_guarded-Holds server k b (codes "update_relation_member_geometry") _ t m r

-- The modes behind `end_relations`.
abbrev pub closed : TypeProgress → TableName → Bool
closed p = put areas false (
    put relation_relations false
      (put way_relations false (put node_relations false (put relations false (copies p)))))

module _ {Bad : Type 0} (env : Environment) (geo : Geometries)
    (takes : (name : TableName) → Takes (env.server name) ⊎ Bad) (obliging : Obliging env geo ⊎ Bad)
    (f : TableName → Bool) (p : TypeProgress)
    (off : (name : TableName) → Mode Bad f name false) where
  abbrev Off : DiffHandler2 → Type 0
  Off h = Sound Bad f p h

  several :
      (id : ℤ) (h : DiffHandler2) (r : List (ℤ × ℤ) × DiffHandler2)
      → query env geo node_ways (λ server. Queries.get_way_nodes server id) h ≡ ok r
      → (length r.0 ≢ 1) ⊎ Bad
  unfolding query ask
  several id h r e = elim obliging [
    | inl o ↦
        let (t, answered) =
          answer (Queries.get_way_nodes (env.server node_ways) id (h.tables node_ways)) e in
        inl (o.way_nodes id (h.tables node_ways) (r.0, t) answered)
    | inr bad ↦ inr bad
  ]
    where
      kept : List (ℤ × ℤ) × Table → Result Database.Fault (List (ℤ × ℤ) × Tables)
      kept q = ok (q.0, set node_ways q.1 h.tables)

      back : List (ℤ × ℤ) × Tables → Result Fault (List (ℤ × ℤ) × DiffHandler2)
      back q = ok (q.0, record h { tables = q.1 })

      answer :
          (o : Result Database.Fault (List (ℤ × ℤ) × Table))
          → (from_database (o >>= kept) >>= back) ≡ ok r
          → (t : Table) × (o ≡ ok (r.0, t))
      answer (ok q) e = (
        q.1,
        ap (λ rows. ok (rows, q.1))
            (ap (λ (z : List (ℤ × ℤ) × DiffHandler2). z.0) (ok_injective e)),
      )
      answer (err x) e = cc

  collect_member-Holds :
      (type : ItemType) (id : ℤ) (c : Collected) {h : DiffHandler2}
      → Off h
      → Holds Bad (λ r. Off r.1) (MemberGeometry.collect_member env geo type id c h)
  unfolding MemberGeometry.collect_member
  collect_member-Holds Osm.node id c {h} s =
      bind-Holds (found-Holds h.m_location_index id s.locates) λ loc v. returned s
  collect_member-Holds Osm.way id c {h} s =
      bind-Holds (equation-Holds (way_nodes-Holds env geo takes node_ways id (off node_ways) s))
        λ r (s1, e).
          bind-Holds
            (bind-Holds (coordinates-Holds r.1.m_location_index (map (λ n. n.0) r.0) s1.locates)
              λ locs same. created-Holds env geo takes obliging locs (
                or_bad (λ many. subst (λ n. n ≢ 1) (sym (same ∙ length-map_first r.0)) many)
                  (several id h r e)))
            λ line _. returned s1
  collect_member-Holds Osm.relation id c s = returned s
  collect_member-Holds Osm.area id c s = returned s

  collect-Holds :
      (members : List MemberIdTypePos) (c : Collected) {h : DiffHandler2}
      → Off h
      → Holds Bad (λ r. Off r.1) (MemberGeometry.collect env geo members c h)
  unfolding MemberGeometry.collect
  collect-Holds [] c s = returned s
  collect-Holds (m ∷ members) c s =
      bind-Holds (collect_member-Holds m.type m.id c s) λ r s1. collect-Holds members r.0 s1

  way_of_member-Holds :
      (way : Option MemberWay) (id : ℤ) {h : DiffHandler2}
      → Off h
      → Holds Bad (λ r. Off r.1) (MemberGeometry.diff_or_rebuilt env geo way id h)
  unfolding MemberGeometry.diff_or_rebuilt MemberGeometry.rebuilt_way
  way_of_member-Holds (some w) id s = returned s
  way_of_member-Holds none id s =
      bind-Holds (way_nodes-Holds env geo takes node_ways id (off node_ways) s) λ r s1.
        if-Holds _ (returned s1) (
          bind-Holds (locate-Holds r.1.m_location_index (map (λ n. n.0) r.0) s1.locates)
            λ locs v. returned s1)

  member_ways-Holds :
      (get_member_way : ℤ → Option MemberWay) (members : List MemberIdTypePos) {h : DiffHandler2}
      → Off h
      → Holds Bad (λ r. Off r.1) (MemberGeometry.member_ways env geo get_member_way members h)
  unfolding MemberGeometry.member_ways
  member_ways-Holds get_member_way [] s = returned s
  member_ways-Holds get_member_way (m ∷ members) s =
      if-Holds _ (member_ways-Holds get_member_way members s) (
        bind-Holds (way_of_member-Holds (get_member_way m.id) m.id s)
          λ w s1. bind-Holds (member_ways-Holds get_member_way members s1) λ r s2. returned s2)

  multipolygon-Holds :
      (id : ℤ) (members : List MemberIdTypePos) {h : DiffHandler2}
      → Off h
      → Holds Bad Off
          (MemberGeometry.update_multipolygon_geometry env geo id members h.m_mp_manager h)
  unfolding MemberGeometry.update_multipolygon_geometry
  multipolygon-Holds id members {h} s = with_manager h.m_mp_manager s.manager
    where
      with_manager :
          (manager : Option (ℤ → Option MemberWay))
          → ((get_member_way : ℤ → Option MemberWay) × (manager ≡ some get_member_way)) ⊎ Bad
          → Holds Bad Off (MemberGeometry.update_multipolygon_geometry env geo id members manager h)
      with_manager (some get_member_way) g =
          bind-Holds (member_ways-Holds get_member_way members s)
            λ r s1. returned (with_lists _ _ _ _ s1)
      with_manager none (inl (g, e)) = absurd (ground (arith, e))
      with_manager none (inr bad) = thrown bad

  members_of :
      (name : TableName) (found : List MemberIdTypePos) (id : ℤ) (type : ItemType)
      {h : DiffHandler2}
      → Off h
      → Holds Bad
          (λ r. Off r.1)
          (query env geo name (λ server. Members.get_members_by_id_and_type server found id type) h)
  members_of name found id type =
      query-Holds env geo takes name
        (λ server. Members.get_members_by_id_and_type server found id type)
        (λ t. get_members_table (env.server name) (f name) found id type t (takes name) (off name))

  get_members-Holds :
      (id : ℤ) {h : DiffHandler2}
      → Off h
      → Holds Bad (λ r. Off r.1) (MemberGeometry.get_members env geo id h)
  unfolding MemberGeometry.get_members
  get_members-Holds id s = bind-Holds (members_of node_relations [] id Osm.node s) λ a s1.
      bind-Holds (members_of way_relations a.0 id Osm.way s1) λ b s2.
        bind-Holds (members_of relation_relations b.0 id Osm.relation s2) λ c s3. returned s3

  update_relation-Holds :
      (id : ℤ) {h : DiffHandler2}
      → Off h
      → Holds Bad Off (MemberGeometry.update_relation env geo id h)
  unfolding MemberGeometry.update_relation
  update_relation-Holds id s = bind-Holds (get_members-Holds id s) λ m s1.
      bind-Holds (collect-Holds m.0 nothing s1) λ c s2.
        let point_text = geo.multipoint_wkb c.0.points in
        let line_text = geo.multilinestring_wkb c.0.linestrings in
        bind-Holds
          (bind-Holds
            (run_keeps env geo takes relations
              (λ server. Queries.update_relation_member_geometry server id point_text line_text)
              (λ t.
                member_geometry_table (env.server relations) (f relations) id point_text line_text t
                  (takes relations) (off relations))
              s2)
            λ h3 s3. has_area-Holds env geo takes obliging (negated id) (off areas) s3)
          λ a s4. if-Holds a.0 (multipolygon-Holds id m.0 s4) (returned s4)

  update_relations-Holds :
      (ids : List ℤ) {h : DiffHandler2}
      → Off h
      → Holds Bad Off (MemberGeometry.update_relations env geo ids h)
  unfolding MemberGeometry.update_relations
  update_relations-Holds [] s = returned s
  update_relations-Holds (id ∷ ids) s =
      bind-Holds (update_relation-Holds id s) λ h1 s1. update_relations-Holds ids s1

module _ {Bad : Type 0} (env : Environment) (geo : Geometries)
    (takes : (name : TableName) → Takes (env.server name) ⊎ Bad)
    (obliging : Obliging env geo ⊎ Bad) where
  end_relations-Holds :
      (p : TypeProgress) {h : DiffHandler2}
      → InPhase Bad p h
      → Holds Bad (Sound Bad (closed p) p) (Relations.end_relations env geo h)
  unfolding Relations.end_relations
  end_relations-Holds p s =
      bind-Holds
        (bind-Holds
          (bind-Holds
            (bind-Holds (end-Holds env geo takes relations s)
              λ _ s1. end-Holds env geo takes node_relations s1)
            λ _ s2. end-Holds env geo takes way_relations s2)
          λ _ s3. end-Holds env geo takes relation_relations s3)
        λ _ s4. end-Holds env geo takes areas s4

  pub after_relations-Holds :
      (p : TypeProgress) {h : DiffHandler2}
      → ((name : TableName) → Mode Bad (closed p) name false)
      → InPhase Bad p h
      → Holds Bad (Sound Bad (closed p) p) (Relations.after_relations env geo h)
  unfolding Relations.after_relations
  after_relations-Holds p off s = bind-Holds (end_relations-Holds p s) λ h1 s1.
      update_relations-Holds env geo takes obliging (closed p) p off _ (with_lists _ _ _ _ s1)

-- Behind the phase of relations no table is in COPY mode.
pub closed_off : (name : TableName) → closed relations_progress name ≡ false
unfolding copies
closed_off nodes = refl
closed_off untagged_nodes = refl
closed_off ways_linear = refl
closed_off areas = refl
closed_off node_ways = refl
closed_off node_relations = refl
closed_off way_relations = refl
closed_off relation_relations = refl
closed_off relations = refl
