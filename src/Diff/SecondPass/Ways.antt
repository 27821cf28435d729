-- ===== src/Diff/SecondPass/Ways.antt =====
-- src/diff_handler2.cpp: the geometries of ways and areas that the second pass updates.
use cerepso.Base.{
  Bytes, Bool, true, false, not, List, [], ◌∷◌, Option, none, some, if◌then◌else◌, ltb, codes, map,
  Result, ok, err, ◌>>=◌,
}
use cerepso.Base.Int.{ℤ}
use cerepso.Osm.{Location, OsmObject}
use cerepso.Database.Queries.{
  count_osm_id, get_way_nodes, get_relation_ids_by_member, update_geometry,
}
use cerepso.Connections.{ways_linear, areas, node_ways, way_relations, Environment}
use cerepso.Diff.Pending.{sort, clean_up_container_and_work_on}
use cerepso.Diff.Shared.{
  Fault, not_found, invalid_location, FactoryFault, geometry_error, invalid_coordinates,
  LocationIndex, Geometries,
}
use cerepso.Diff.SecondPass.{DiffHandler2, push_relations, run, query}

-- `set_location` for each node.
unfoldable pub locate : LocationIndex → List ℤ → Result Fault (List Location)
locate index [] = ok []
locate index (id ∷ ids) =
    index.get_node_location id >>= λ loc. locate index ids >>= λ locs. ok (loc ∷ locs)

-- `catch (osmium::not_found&)`: then no node has been collected.
abbrev pub catch_not_found : Result Fault (List Location) → Result Fault (Option (List Location))
catch_not_found (ok locs) = ok (some locs)
catch_not_found (err not_found) = ok none
catch_not_found (err e) = err e

abbrev pub found_or_none : Option (List Location) → List Location
found_or_none none = []
found_or_none (some locs) = locs

-- `catch (osmium::geometry_error&)`
abbrev pub built_or : Bytes → Result FactoryFault Bytes → Result Fault Bytes
built_or wkb (ok built) = ok built
built_or wkb (err geometry_error) = ok wkb
built_or wkb (err invalid_coordinates) = err invalid_location

abbrev pub empty_linestring : Bytes
empty_linestring = codes "010200000000000000"

abbrev pub empty_polygon : Bytes
empty_polygon = codes "010300000000000000"

module _ (env : Environment) (geo : Geometries) where
  -- The geometry of the line, and the relations of the way if there is one.
  unfoldable pub line_built :
      ℤ → Result FactoryFault Bytes → DiffHandler2 → Result Fault (Bytes × DiffHandler2)
  unfolding query get_relation_ids_by_member
  line_built id (ok wkb) h =
      query env geo way_relations (λ server. get_relation_ids_by_member server id) h >>= λ r.
      ok (wkb, push_relations r.0 r.1)
  line_built id (err geometry_error) h = ok (empty_linestring, h)
  line_built id (err invalid_coordinates) h = err invalid_location

  unfoldable pub line_of :
      ℤ → Option (List Location) → DiffHandler2 → Result Fault (Bytes × DiffHandler2)
  unfolding line_built
  line_of id none h = ok (empty_linestring, h)
  line_of id (some locs) h = line_built id (geo.linestring locs) h

  -- `m_areas_table->count_osm_id(id) > 0`, asked with areas only.
  unfoldable pub has_area : ℤ → DiffHandler2 → Result Fault (Bool × DiffHandler2)
  unfolding query count_osm_id
  has_area id h =
      if not env.config.m_areas
      then ok (false, h)
      else query env geo areas (λ server. count_osm_id server id) h >>= λ r. ok (ltb 0 r.0, r.1)

  unfoldable pub update_way_area :
      ℤ → Bool → List Location → DiffHandler2 → Result Fault DiffHandler2
  unfolding run update_geometry
  update_way_area id false node_refs h = ok h
  update_way_area id true node_refs h = built_or empty_polygon (geo.polygon node_refs) >>= λ wkb.
      run env geo areas (λ server. update_geometry server id wkb) h

  unfoldable pub update_way : ℤ → DiffHandler2 → Result Fault DiffHandler2
  unfolding has_area query get_way_nodes locate line_of run update_geometry update_way_area
  update_way id h = has_area id h >>= λ a.
      query env geo node_ways (λ server. get_way_nodes server id) a.1 >>= λ r.
      catch_not_found (locate r.1.m_location_index (map (λ n. n.0) r.0)) >>= λ locs.
      line_of id locs r.1 >>= λ w.
      run env geo ways_linear (λ server. update_geometry server id w.0) w.1
      >>= update_way_area id a.0 (found_or_none locs)

  unfoldable pub update_area_geometry : OsmObject → DiffHandler2 → Result Fault DiffHandler2
  unfolding run update_geometry
  update_area_geometry object h = built_or empty_polygon (geo.multipolygon object) >>= λ wkb.
      run env geo areas (λ server. update_geometry server object.orig_id wkb) h

  unfoldable pub update_ways : List ℤ → DiffHandler2 → Result Fault DiffHandler2
  unfolding update_way
  update_ways [] h = ok h
  update_ways (id ∷ ids) h = update_way id h >>= update_ways ids

  unfoldable pub work_on_pending_ways : DiffHandler2 → Result Fault DiffHandler2
  unfolding sort update_ways clean_up_container_and_work_on
  work_on_pending_ways h =
      update_ways (clean_up_container_and_work_on h.m_pending_ways.ids)
        (record h { m_pending_ways = record h.m_pending_ways { ids = sort h.m_pending_ways.ids } })
