-- ===== src/Diff/FirstPass.antt =====
-- src/diff_handler1.cpp: `DiffHandler1`, the first pass over a diff.
use cerepso.Base.{
  Bytes, Bool, true, not, ◌&&◌, ◌||◌, List, ◌∷◌, Option, none, some, if◌then◌else◌, ◌==◌, ltb,
  Result, ok, err, ◌>>=◌,
}
use cerepso.Base.Int.{ℤ}
use cerepso.Osm.{Location, OsmObject}
use cerepso.Database
use cerepso.Database.Queries.{delete_object, delete_way_node_list, delete_relation_members}
use cerepso.Database.Members.{get_linestring}
use cerepso.Connections.{
  TableName, nodes, untagged_nodes, ways_linear, areas, node_ways, node_relations, way_relations,
  relation_relations, relations, Environment, Tables, on, ask,
}
use cerepso.Diff.Shared.{
  Fault, database, not_found, ExpiryCall, at_point, along_line, from_database, LocationIndex,
}

pub record DiffHandler1 : Type 0 where
  pub tables : Tables
  pub m_expire_tiles : List ExpiryCall

abbrev pub expire : ExpiryCall → DiffHandler1 → DiffHandler1
expire call h = record h { m_expire_tiles = call ∷ h.m_expire_tiles }

abbrev pub expire_valid : Location → DiffHandler1 → DiffHandler1
expire_valid loc h = if loc.valid then expire (at_point loc) h else h

-- `catch (std::runtime_error&)`, of which `not_found` is one.
abbrev pub expire_old : Result Fault Location → DiffHandler1 → Result Fault DiffHandler1
expire_old (ok loc) h = ok (expire_valid loc h)
expire_old (err not_found) h = ok h
expire_old (err (database Database.runtime_error)) h = ok h
expire_old (err e) h = err e

abbrev pub expire_line : Option (List Location) → DiffHandler1 → DiffHandler1
expire_line none h = h
expire_line (some coords) h = expire (along_line coords) h

-- Version 1, and not deleted.
abbrev pub is_new : OsmObject → Bool
is_new object = object.version == 1 && not object.deleted

-- `read_hex` is the reader of WKB, `none` if the geometry is no linestring.
module _ (env : Environment) (index : LocationIndex)
    (read_hex : Bytes → Option (List Location)) where
  abbrev pub with_tables : Result Database.Fault Tables → DiffHandler1 → Result Fault DiffHandler1
  with_tables r h = from_database r >>= λ ts. ok (record h { tables = ts })

  unfoldable pub delete_from : TableName → ℤ → Tables → Result Database.Fault (Bool × Tables)
  unfolding ask delete_object
  delete_from name id ts = ask env name (λ server. delete_object server id) ts

  abbrev pub delete_only : TableName → ℤ → Tables → Result Database.Fault Tables
  unfolding delete_from
  delete_only name id ts = delete_from name id ts >>= λ r. ok r.1

  unfoldable pub delete_node : ℤ → Tables → Result Database.Fault Tables
  unfolding delete_from
  delete_node id ts =
      if not env.config.untagged_nodes
      then delete_only nodes id ts
      else delete_from untagged_nodes id ts >>= λ r.
          if not r.0 then delete_only nodes id r.1 else ok r.1

  unfoldable pub node : OsmObject → DiffHandler1 → Result Fault DiffHandler1
  unfolding delete_node
  node object h =
      let expired = expire_old (index.get_node_location_from_persisent object.id) h in
      if is_new object
      then ok h
      else (if env.config.m_expiry_enabled then expired else ok h) >>= λ h'.
          with_tables (delete_node object.id h'.tables) h'

  unfoldable pub expire_old_way : ℤ → DiffHandler1 → Result Fault DiffHandler1
  unfolding ask get_linestring
  expire_old_way id h =
      from_database (ask env ways_linear (λ server. get_linestring server read_hex id) h.tables)
      >>= λ r. ok (expire_line r.0 (record h { tables = r.1 }))

  unfoldable pub delete_way : ℤ → Tables → Result Database.Fault Tables
  unfolding delete_from on delete_way_node_list
  delete_way id ts = delete_from ways_linear id ts >>= λ r.
      (if env.config.m_areas then delete_from areas id r.1 else ok (true, r.1)) >>= λ q.
      if env.config.updateable
      then on env node_ways (λ server. delete_way_node_list server id) q.1
      else ok q.1

  unfoldable pub way : OsmObject → DiffHandler1 → Result Fault DiffHandler1
  unfolding expire_old_way delete_way
  way object h =
      let expired = expire_old_way object.id h in
      if is_new object
      then ok h
      else (if env.config.m_expiry_enabled then expired else ok h) >>= λ h'.
          with_tables (delete_way object.id h'.tables) h'

  unfoldable pub delete_members_of : TableName → ℤ → Tables → Result Database.Fault Tables
  unfolding on delete_relation_members
  delete_members_of name id = on env name (λ server. delete_relation_members server id)

  unfoldable pub delete_relation : ℤ → Tables → Result Database.Fault Tables
  unfolding delete_from delete_members_of
  delete_relation id ts = delete_from relations id ts >>= λ r.
      (if env.config.m_areas then delete_from areas id r.1 else ok (true, r.1)) >>= λ q.
      delete_members_of node_relations id q.1
      >>= delete_members_of way_relations id
      >>= delete_members_of relation_relations id

  unfoldable pub relation : OsmObject → DiffHandler1 → Result Fault DiffHandler1
  unfolding delete_relation
  relation object h =
      if ltb 1 object.version || object.deleted
      then with_tables (delete_relation object.id h.tables) h
      else ok h
