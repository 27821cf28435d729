-- ===== src/Diff/SecondPass.antt =====
-- src/diff_handler2.cpp: `DiffHandler2`, the second pass over a diff. Its pointers to tables are not
-- null, as src/pgimporter.cpp passes them.
pub mod Ways
pub mod MemberGeometry
pub mod Relations
pub mod Calls
pub mod Modes
pub mod Arrivals
pub mod Ordered
pub mod Updating
pub mod Turning
pub mod Inserting
pub mod Closing
pub mod Runs
pub mod Unconnected
use cerepso.Base.{
  ℕ, Bytes, Bool, true, false, not, List, [], ◌∷◌, ◌++◌, Option, none, if◌then◌else◌, Result, ok,
  ◌>>=◌,
}
use cerepso.Base.Int.{ℤ}
use cerepso.Osm.{Location, OsmObject}
use cerepso.Database
use cerepso.Database.{Server, Table, start_copy, end_copy}
use cerepso.Database.Queries.{get_way_ids, get_relation_ids_by_member}
use cerepso.Handler.Members
use cerepso.Connections.{
  TableName, nodes, untagged_nodes, ways_linear, areas, node_ways, node_relations, way_relations,
  Environment, Tables, on, ask, has_interesting_tags,
}
use cerepso.Import.{handle_node, handle_area, send, line_for}
use cerepso.Diff.Pending
use cerepso.Diff.Pending.{Pending, mark, sort_unique}
use cerepso.Diff.Shared.{
  Fault, ExpiryCall, along, from_database, LocationIndex, MemberWay, Geometries,
}

-- `POINT`, `WAY` and `RELATION`
pub data TypeProgress : Type 0 where
  points ways relations_progress : TypeProgress

-- `m_mp_manager` is asked for the ways of the diff; it may be null.
pub record DiffHandler2 : Type 0 where
  pub tables : Tables
  pub m_location_index : LocationIndex
  pub m_expire_tiles : List ExpiryCall
  pub m_pending_ways : Pending
  pub m_pending_relations : Pending
  pub m_mp_manager : Option (ℤ → Option MemberWay)
  pub m_new_areas_buffer : List OsmObject
  pub m_updated_areas_buffer : List OsmObject
  pub m_progress : TypeProgress

abbrev pub expire : ExpiryCall → DiffHandler2 → DiffHandler2
expire call h = record h { m_expire_tiles = call ∷ h.m_expire_tiles }

abbrev pub push_ways : List ℤ → DiffHandler2 → DiffHandler2
push_ways new h = record h { m_pending_ways = Pending.push h.m_pending_ways new }

abbrev pub push_relations : List ℤ → DiffHandler2 → DiffHandler2
push_relations new h = record h { m_pending_relations = Pending.push h.m_pending_relations new }

module _ (env : Environment) (geo : Geometries) where
  -- An operation of one table, one with an answer, and one of several tables.
  unfoldable pub run :
      TableName
      → (Server → Table → Result Database.Fault Table)
      → DiffHandler2
      → Result Fault DiffHandler2
  unfolding on
  run name op h = from_database (on env name op h.tables) >>= λ ts. ok (record h { tables = ts })

  unfoldable pub query {ℓ} :
      {A : Type ℓ}
      → TableName
      → (Server → Table → Result Database.Fault (A × Table))
      → DiffHandler2
      → Result Fault (A × DiffHandler2)
  unfolding ask
  query name op h =
      from_database (ask env name op h.tables) >>= λ r. ok (r.0, record h { tables = r.1 })

  unfoldable pub with_tables :
      (Tables → Result Database.Fault Tables) → DiffHandler2 → Result Fault DiffHandler2
  with_tables op h = from_database (op h.tables) >>= λ ts. ok (record h { tables = ts })

  -- The body of the constructor.
  unfoldable pub open_nodes : DiffHandler2 → Result Fault DiffHandler2
  unfolding run start_copy
  open_nodes h = run untagged_nodes start_copy h >>= run nodes start_copy

  unfoldable pub node : OsmObject → DiffHandler2 → Result Fault DiffHandler2
  unfolding query with_tables handle_node get_way_ids get_relation_ids_by_member
  node object h =
      if object.deleted
      then ok h
      else with_tables (handle_node env object) h
        >>= query node_ways (λ server. get_way_ids server object.id)
        >>= λ r.
            query node_relations (λ server. get_relation_ids_by_member server object.id)
              (push_ways r.0 r.1)
            >>= λ q. ok (push_relations q.0 q.1)

  unfoldable pub write_new_nodes : DiffHandler2 → Result Fault DiffHandler2
  unfolding run start_copy end_copy sort_unique
  write_new_nodes h =
      run nodes end_copy h
      >>= run untagged_nodes end_copy
      >>= run ways_linear start_copy
      >>= run areas start_copy
      >>= run node_ways start_copy
      >>= λ h'. ok (record h' { m_progress = ways; m_pending_ways = sort_unique h'.m_pending_ways })

  -- The first test of `way`, `relation` and `area`.
  abbrev pub after_nodes_in : TypeProgress → DiffHandler2 → Result Fault DiffHandler2
  after_nodes_in points h = write_new_nodes h
  after_nodes_in ways h = ok h
  after_nodes_in relations_progress h = ok h

  unfoldable pub after_nodes : DiffHandler2 → Result Fault DiffHandler2
  unfolding write_new_nodes
  after_nodes h = after_nodes_in h.m_progress h

  abbrev pub expire_if_enabled : ExpiryCall → DiffHandler2 → DiffHandler2
  expire_if_enabled call h = if env.config.m_expiry_enabled then expire call h else h

  unfoldable pub send_way : OsmObject → Tables → Result Database.Fault Tables
  unfolding send has_interesting_tags
  send_way object ts =
      if has_interesting_tags env ways_linear object.tags
      then send env ways_linear (line_for env ways_linear ts object none) ts
      else ok ts

  unfoldable pub insert_way : OsmObject → DiffHandler2 → Result Fault DiffHandler2
  unfolding with_tables send_way query get_relation_ids_by_member send mark
      Members.prepare_node_way_query
  insert_way object h =
      with_tables (send_way object) h
      >>= query way_relations (λ server. get_relation_ids_by_member server object.id)
      >>= λ r.
          with_tables
            (λ ts. Members.prepare_node_way_query object >>= λ line. send env node_ways line ts)
            (push_relations r.0 r.1)
          >>= λ h1.
              let h2 : DiffHandler2 = expire_if_enabled (along (geo.locations_of object)) h1 in
              ok (record h2 { m_pending_ways = mark h2.m_pending_ways object.id })

  unfoldable pub way : OsmObject → DiffHandler2 → Result Fault DiffHandler2
  unfolding after_nodes insert_way
  way object h = after_nodes h >>= λ h'. if object.deleted then ok h' else insert_way object h'

  unfoldable pub expire_rings : List (List Location) → DiffHandler2 → DiffHandler2
  expire_rings [] h = h
  expire_rings (ring ∷ rings) h = expire_rings rings (expire (along ring) h)

  unfoldable pub area : OsmObject → DiffHandler2 → Result Fault DiffHandler2
  unfolding after_nodes with_tables handle_area expire_rings
  area object h = after_nodes h >>= with_tables (handle_area env object) >>= λ h'.
      ok (if env.config.m_expiry_enabled then expire_rings (geo.outer_rings object) h' else h')
