-- ===== src/Diff/SecondPass/Relations.antt =====
-- src/diff_handler2.cpp: relations in the second pass, and the steps from ways to relations and
-- behind the relations.
use cerepso.Base.{
  Bytes, Bool, true, false, ◌&&◌, List, [], ◌∷◌, Option, none, some, if◌then◌else◌, map, Result, ok,
  err, ◌>>=◌,
}
use cerepso.Base.Int.{ℤ, pos, eq_ℤ}
use cerepso.Osm
use cerepso.Osm.{ItemType, Location, Member, OsmObject}
use cerepso.Database.{start_copy, end_copy}
use cerepso.Database.Queries.{get_way_nodes}
use cerepso.Handler.Row
use cerepso.Connections.{
  TableName, ways_linear, areas, node_ways, node_relations, way_relations, relation_relations,
  relations, Environment, Tables, expire_this_relation,
}
use cerepso.Import.{send, send_members}
use cerepso.Diff.Pending.{sort, sort_unique, mark, clean_up_container_and_work_on}
use cerepso.Diff.Shared.{
  Fault, assertion, out_of_range, ExpiryCall, at_point, MemberWay, Geometries,
}
use cerepso.Diff.SecondPass.{
  DiffHandler2, TypeProgress, points, ways, relations_progress, expire, run, query, with_tables,
  after_nodes, area,
}
use cerepso.Diff.SecondPass.Ways.{locate, update_area_geometry, work_on_pending_ways}
use cerepso.Diff.SecondPass.MemberGeometry.{
  Collected, nothing, add_point, add_line, append_areas, update_relations,
}

abbrev pub expire_if : Bool → ExpiryCall → DiffHandler2 → DiffHandler2
expire_if trigger_tile_expiry call h = if trigger_tile_expiry then expire call h else h

abbrev pub is_area : OsmObject → Bool
is_area object = elim object.type [
  | Osm.area ↦ true
  | Osm.node ↦ false
  | Osm.way ↦ false
  | Osm.relation ↦ false
]

module _ (env : Environment) (geo : Geometries) where
  -- The loop over the members in `insert_relation`. The vector of coordinates has room but no
  -- elements, so the loop that fills it ends at once. Expiry along the empty sequence reads it at
  -- index 0; it is `ExpireTilesQuadtree` that is called, since expiry is enabled together with it.
  unfoldable pub insert_member :
      Bool → ItemType → ℤ → Collected → DiffHandler2 → Result Fault (Collected × DiffHandler2)
  unfolding query get_way_nodes
  insert_member trigger_tile_expiry Osm.node ref c h =
      h.m_location_index.get_node_location ref >>= λ loc.
      if loc.valid
      then ok (add_point loc c, expire_if trigger_tile_expiry (at_point loc) h)
      else ok (c, h)
  insert_member trigger_tile_expiry Osm.way ref c h =
      query env geo node_ways (λ server. get_way_nodes server ref) h >>= λ r.
      let built = geo.create_linestring [] >>= λ line. ok (add_line line c, r.1) in
      if trigger_tile_expiry then err out_of_range else built
  insert_member trigger_tile_expiry _ ref c h = ok (c, h)

  unfoldable pub insert_members :
      Bool → List Member → Collected → DiffHandler2 → Result Fault (Collected × DiffHandler2)
  unfolding insert_member
  insert_members trigger_tile_expiry [] c h = ok (c, h)
  insert_members trigger_tile_expiry (m ∷ members) c h =
      insert_member trigger_tile_expiry m.type m.ref c h >>= λ r.
      insert_members trigger_tile_expiry members r.0 r.1

  abbrev pub relation_line : OsmObject → Collected → Tables → Bytes
  relation_line object c ts =
      Row.prepare_relation_query (env.source relations) (ts relations).m_columns object
        (geo.multipoint_wkb c.points) (geo.multilinestring_wkb c.linestrings) []

  -- None of the calls throws a `geometry_error`, for which there is a handler.
  unfoldable pub insert_relation : OsmObject → DiffHandler2 → Result Fault DiffHandler2
  unfolding insert_members with_tables send expire_this_relation
  insert_relation object h =
      let trigger_tile_expiry =
        env.config.m_expiry_enabled
        && expire_this_relation env.config.m_expire_options object.tags in
      insert_members trigger_tile_expiry object.members nothing h >>= λ r.
      with_tables env geo (λ ts. send env relations (relation_line object r.0 ts) ts) r.1

  -- The callbacks of the two buffers.
  unfoldable pub flush_new : List OsmObject → DiffHandler2 → Result Fault DiffHandler2
  unfolding area
  flush_new [] h = ok h
  flush_new (object ∷ buffer) h =
      let rest = flush_new buffer in
      if is_area object then (area env geo object h >>= rest) else rest h

  unfoldable pub flush_updated : List OsmObject → DiffHandler2 → Result Fault DiffHandler2
  unfolding update_area_geometry
  flush_updated [] h = ok h
  flush_updated (object ∷ buffer) h =
      let rest = flush_updated buffer in
      if is_area object then (update_area_geometry env geo object h >>= rest) else rest h

  unfoldable pub flush : DiffHandler2 → Result Fault DiffHandler2
  unfolding flush_new flush_updated
  flush h = flush_new h.m_new_areas_buffer (record h { m_new_areas_buffer = [] }) >>= λ h'.
      flush_updated h'.m_updated_areas_buffer (record h' { m_updated_areas_buffer = [] })

  -- `get_copy`, then `end_copy`.
  unfoldable pub end_copy_if : TableName → DiffHandler2 → Result Fault DiffHandler2
  unfolding run end_copy
  end_copy_if name h = if (h.tables name).m_copy_mode then run env geo name end_copy h else ok h

  -- The tables of ways and areas leave COPY mode for the updates.
  unfoldable pub end_ways : DiffHandler2 → Result Fault DiffHandler2
  unfolding end_copy_if
  end_ways h = end_copy_if ways_linear h >>= end_copy_if node_ways >>= end_copy_if areas

  unfoldable pub start_relations : DiffHandler2 → Result Fault DiffHandler2
  unfolding run start_copy
  start_relations h =
      run env geo areas start_copy h
      >>= run env geo relations start_copy
      >>= run env geo node_relations start_copy
      >>= run env geo way_relations start_copy
      >>= run env geo relation_relations start_copy
      >>= λ h'. ok (record h' { m_progress = relations_progress })

  unfoldable pub write_new_ways : DiffHandler2 → Result Fault DiffHandler2
  unfolding end_ways work_on_pending_ways sort_unique flush start_relations
  write_new_ways h = end_ways h >>= work_on_pending_ways env geo >>= λ h1.
      flush (record h1 { m_pending_relations = sort_unique h1.m_pending_relations })
      >>= start_relations

  abbrev pub after_ways_in : TypeProgress → DiffHandler2 → Result Fault DiffHandler2
  after_ways_in points h = write_new_ways h
  after_ways_in ways h = write_new_ways h
  after_ways_in relations_progress h = ok h

  unfoldable pub after_ways : DiffHandler2 → Result Fault DiffHandler2
  unfolding write_new_ways
  after_ways h = after_ways_in h.m_progress h

  unfoldable pub insert_or_skip : OsmObject → DiffHandler2 → Result Fault DiffHandler2
  unfolding insert_relation with_tables send_members mark
  insert_or_skip object h =
      if object.deleted
      then ok h
      else insert_relation object h >>= with_tables env geo (send_members env object) >>= λ h'.
          ok (record h' { m_pending_relations = mark h'.m_pending_relations object.id })

  unfoldable pub relation : OsmObject → DiffHandler2 → Result Fault DiffHandler2
  unfolding after_nodes after_ways insert_or_skip
  relation object h = after_nodes env geo h >>= after_ways >>= insert_or_skip object

  unfoldable pub end_relations : DiffHandler2 → Result Fault DiffHandler2
  unfolding run end_copy
  end_relations h =
      run env geo relations end_copy h
      >>= run env geo node_relations end_copy
      >>= run env geo way_relations end_copy
      >>= run env geo relation_relations end_copy
      >>= run env geo areas end_copy

  unfoldable pub after_relations : DiffHandler2 → Result Fault DiffHandler2
  unfolding end_relations sort clean_up_container_and_work_on update_relations
  after_relations h = end_relations h >>= λ h'.
      update_relations env geo (clean_up_container_and_work_on h'.m_pending_relations.ids)
        (record h' {
          m_pending_relations = record h'.m_pending_relations {
            ids = sort h'.m_pending_relations.ids;
          };
        })

  -- A member of an incomplete relation, whatever its type is.
  unfoldable pub incomplete_member :
      Option MemberWay → ℤ → DiffHandler2 → Result Fault (MemberWay × DiffHandler2)
  unfolding query get_way_nodes locate
  incomplete_member (some w) id h = ok (w, h)
  incomplete_member none id h =
      query env geo node_ways (λ server. get_way_nodes server id) h >>= λ r.
      locate r.1.m_location_index (map (λ n. n.0) r.0) >>= λ locs.
      ok (record { id = id; locations = locs }, r.1)

  unfoldable pub incomplete_members :
      (ℤ → Option MemberWay)
      → List Member
      → DiffHandler2
      → Result Fault (List MemberWay × DiffHandler2)
  unfolding incomplete_member
  incomplete_members get_member_way [] h = ok ([], h)
  incomplete_members get_member_way (m ∷ members) h =
      let rest = incomplete_members get_member_way members in
      if eq_ℤ m.ref (pos 0)
      then rest h
      else incomplete_member (get_member_way m.ref) m.ref h >>= λ w.
          rest w.1 >>= λ r. ok (w.0 ∷ r.0, r.1)

  unfoldable pub incomplete_with :
      Option (ℤ → Option MemberWay) → OsmObject → DiffHandler2 → Result Fault DiffHandler2
  unfolding incomplete_members
  incomplete_with none object h = err assertion
  incomplete_with (some get_member_way) object h =
      incomplete_members get_member_way object.members h >>= λ r.
      let refs = map (λ (m : Member). m.ref) object.members in
      ok (record r.1 {
        m_new_areas_buffer = append_areas (geo.assemble object.id refs r.0) r.1.m_new_areas_buffer;
      })

  unfoldable pub incomplete_relation : OsmObject → DiffHandler2 → Result Fault DiffHandler2
  unfolding incomplete_with
  incomplete_relation object h = incomplete_with h.m_mp_manager object h
