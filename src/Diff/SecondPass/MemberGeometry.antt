-- ===== src/Diff/SecondPass/MemberGeometry.antt =====
-- src/diff_handler2.cpp: the geometries that the second pass makes of the members of relations.
use cerepso.Base.{
  not, ◌||◌, List, [], ◌∷◌, ◌++◌, Option, none, some, if◌then◌else◌, ltb, length, map, Result, ok,
  err, ◌>>=◌,
}
use cerepso.Base.Int.{ℤ, pos, eq_ℤ}
use cerepso.Osm
use cerepso.Osm.{ItemType, Location, Member, OsmObject}
use cerepso.Database.Queries.{get_way_nodes, update_relation_member_geometry}
use cerepso.Database.Members.{MemberIdTypePos, get_members_by_id_and_type, sort_members}
use cerepso.Handler.Row.{negated}
use cerepso.Handler.Members.{same_type}
use cerepso.Connections.{
  node_ways, node_relations, way_relations, relation_relations, relations, Environment,
}
use cerepso.Diff.Shared.{
  Fault, invalid_location, null_pointer, MemberWay, LocationIndex, Geometries,
}
use cerepso.Diff.SecondPass.{DiffHandler2, run, query}
use cerepso.Diff.SecondPass.Ways.{locate, has_area}

-- `points` and `linestrings`, in order.
pub record Collected : Type 0 where
  pub points : List Location
  pub linestrings : List (List Location)

abbrev pub nothing : Collected
nothing = record { points = []; linestrings = [] }

abbrev pub add_point : Location → Collected → Collected
add_point loc c = record c { points = c.points ++ loc ∷ [] }

abbrev pub add_line : List Location → Collected → Collected
add_line line c = record c { linestrings = c.linestrings ++ line ∷ [] }

-- `lon()` and `lat()` of an invalid location throw, so `all_locations_valid` is still set behind
-- the loop.
abbrev pub checked : Location → Result Fault Location
checked loc = if loc.valid then ok loc else err invalid_location

unfoldable pub coordinates : LocationIndex → List ℤ → Result Fault (List Location)
coordinates index [] = ok []
coordinates index (id ∷ ids) = index.get_node_location id >>= checked >>= λ loc.
    coordinates index ids >>= λ locs. ok (loc ∷ locs)

abbrev pub append_areas : Option (List OsmObject) → List OsmObject → List OsmObject
append_areas none buffer = buffer
append_areas (some areas) buffer = buffer ++ areas

module _ (env : Environment) (geo : Geometries) where
  unfoldable pub collect_member :
      ItemType → ℤ → Collected → DiffHandler2 → Result Fault (Collected × DiffHandler2)
  unfolding query get_way_nodes coordinates
  collect_member Osm.node id c h = h.m_location_index.get_node_location id >>= λ loc.
      ok ((if loc.valid then add_point loc c else c), h)
  collect_member Osm.way id c h =
      query env geo node_ways (λ server. get_way_nodes server id) h >>= λ r.
      coordinates r.1.m_location_index (map (λ n. n.0) r.0) >>= geo.create_linestring >>= λ line.
      ok (add_line line c, r.1)
  collect_member _ id c h = ok (c, h)

  unfoldable pub collect :
      List MemberIdTypePos → Collected → DiffHandler2 → Result Fault (Collected × DiffHandler2)
  unfolding collect_member
  collect [] c h = ok (c, h)
  collect (m ∷ members) c h = collect_member m.type m.id c h >>= λ r. collect members r.0 r.1

  -- A member way that the diff contains, or else its nodes from the database. With less than two
  -- nodes the member is left out.
  unfoldable pub rebuilt_way : ℤ → DiffHandler2 → Result Fault (Option MemberWay × DiffHandler2)
  unfolding query get_way_nodes locate
  rebuilt_way id h = query env geo node_ways (λ server. get_way_nodes server id) h >>= λ r.
      if ltb (length r.0) 2
      then ok (none, r.1)
      else locate r.1.m_location_index (map (λ n. n.0) r.0) >>= λ locs.
          ok (some (record { id = id; locations = locs }), r.1)

  unfoldable pub diff_or_rebuilt :
      Option MemberWay → ℤ → DiffHandler2 → Result Fault (Option MemberWay × DiffHandler2)
  unfolding rebuilt_way
  diff_or_rebuilt none id h = rebuilt_way id h
  diff_or_rebuilt (some w) id h = ok (some w, h)

  abbrev pub with_way : Option MemberWay → ℤ → List ℤ × List MemberWay → List ℤ × List MemberWay
  with_way none id found = found
  with_way (some w) id found = (id ∷ found.0, w ∷ found.1)

  -- The members of the relation that is made up, and their ways.
  unfoldable pub member_ways :
      (ℤ → Option MemberWay)
      → List MemberIdTypePos
      → DiffHandler2
      → Result Fault ((List ℤ × List MemberWay) × DiffHandler2)
  unfolding diff_or_rebuilt
  member_ways get_member_way [] h = ok (([], []), h)
  member_ways get_member_way (m ∷ members) h =
      let rest = member_ways get_member_way members in
      if not (same_type m.type Osm.way) || eq_ℤ m.id (pos 0)
      then rest h
      else diff_or_rebuilt (get_member_way m.id) m.id h >>= λ w.
          rest w.1 >>= λ r. ok (with_way w.0 m.id r.0, r.1)

  unfoldable pub update_multipolygon_geometry :
      ℤ
      → List MemberIdTypePos
      → Option (ℤ → Option MemberWay)
      → DiffHandler2
      → Result Fault DiffHandler2
  unfolding member_ways
  update_multipolygon_geometry id members none h = err null_pointer
  update_multipolygon_geometry id members (some get_member_way) h =
      member_ways get_member_way members h >>= λ r. ok (record r.1 {
        m_updated_areas_buffer =
            append_areas (geo.assemble id r.0.0 r.0.1) r.1.m_updated_areas_buffer;
      })

  -- The members that the three tables have, by position.
  unfoldable pub get_members : ℤ → DiffHandler2 → Result Fault (List MemberIdTypePos × DiffHandler2)
  unfolding query get_members_by_id_and_type sort_members
  get_members id h =
      query env geo node_relations (λ server. get_members_by_id_and_type server [] id Osm.node) h
      >>= λ a.
          query env geo way_relations (λ server. get_members_by_id_and_type server a.0 id Osm.way)
            a.1
          >>= λ b.
              query env geo relation_relations
                (λ server. get_members_by_id_and_type server b.0 id Osm.relation) b.1
              >>= λ c. ok (sort_members c.0, c.1)

  unfoldable pub update_relation : ℤ → DiffHandler2 → Result Fault DiffHandler2
  unfolding get_members collect run update_relation_member_geometry has_area
      update_multipolygon_geometry
  update_relation id h = get_members id h >>= λ m. collect m.0 nothing m.1 >>= λ c.
      let points = geo.multipoint_wkb c.0.points in
      let lines = geo.multilinestring_wkb c.0.linestrings in
      run env geo relations (λ server. update_relation_member_geometry server id points lines) c.1
      >>= has_area env geo (negated id)
      >>= λ a. if a.0 then update_multipolygon_geometry id m.0 a.1.m_mp_manager a.1 else ok a.1

  unfoldable pub update_relations : List ℤ → DiffHandler2 → Result Fault DiffHandler2
  unfolding update_relation
  update_relations [] h = ok h
  update_relations (id ∷ ids) h = update_relation id h >>= update_relations ids
