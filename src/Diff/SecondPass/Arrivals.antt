-- ===== src/Diff/SecondPass/Arrivals.antt =====
-- Nodes, ways and areas in the second pass: when their handlers return, and the modes behind them.
use cerepso.Base.{
  Bytes, Bool, true, false, not, List, Option, none, ok, ◌>>=◌, ◌≡◌, ◌⊎◌, inl, Holds, returned,
  bind-Holds, if-Holds,
}
use cerepso.Base.Int.{ℤ}
use cerepso.Osm.{Tag, OsmObject}
use cerepso.Database.{Server, Table}
use cerepso.Database.Queries
use cerepso.Database.Sending.{last-newline}
use cerepso.Handler.Row
use cerepso.Connections.{
  TableName, nodes, untagged_nodes, areas, node_ways, node_relations, Environment, Tables,
}
use cerepso.Import
use cerepso.Diff.Shared.{Geometries}
use cerepso.Diff.SecondPass
use cerepso.Diff.SecondPass.{
  DiffHandler2, TypeProgress, points, ways, relations_progress, run, query, with_tables,
}
use cerepso.Diff.SecondPass.Calls.{Takes, Ready, query_rows-Holds}
use cerepso.Diff.SecondPass.Modes.{
  Modes, Sound, query-Holds, with_tables-Holds, send-Holds, with_lists,
}

-- The table is in this mode, unless something is bad.
abbrev pub Mode : Type 0 → (TableName → Bool) → TableName → Bool → Type 0
Mode Bad f name b = (f name ≡ b) ⊎ Bad

module _ {Bad : Type 0} (env : Environment) (geo : Geometries)
    (takes : (name : TableName) → Takes (env.server name) ⊎ Bad) where
  -- A query for rows, whatever is made of them.
  pub rows-Holds {ℓ} :
      {A : Type ℓ} (server : Server) (t : Table) (b : Bool) (name : Bytes) (id : ℤ)
      (read : List (List Bytes) → A)
      → Takes server ⊎ Bad
      → (b ≡ false) ⊎ Bad
      → Ready Bad b t
      → Holds {A = A × Table} Bad
          (λ r. Ready Bad b r.1)
          (Queries.query_rows server name id t >>= λ r. ok (read r.0, r.1))
  rows-Holds server t b name id read k m r =
      bind-Holds (query_rows-Holds server k b name id t m r) λ q s. returned s

  pub line-Holds :
      (name : TableName) (object : OsmObject) (rel_tags : Option (List Tag)) (f : TableName → Bool)
      (ts : Tables)
      → Mode Bad f name true
      → Modes Bad f ts
      → Holds Bad
          (Modes Bad f)
          (Import.send env name (Import.line_for env name ts object rel_tags) ts)
  unfolding Row.prepare_query
  line-Holds name object rel_tags f ts c m =
      let source = env.source name in
      let row = Row.fields_loop source object rel_tags (ts name).m_columns (Row.empty_row source) in
      send-Holds env geo takes name _ f ts c (inl (last-newline row.query)) m

  pub handle_node-Holds :
      (object : OsmObject) (f : TableName → Bool) (ts : Tables)
      → Mode Bad f nodes true
      → Mode Bad f untagged_nodes true
      → Modes Bad f ts
      → Holds Bad (Modes Bad f) (Import.handle_node env object ts)
  unfolding Import.handle_node
  handle_node-Holds object f ts c d m = if-Holds (not object.location.valid) (returned m) (
      if-Holds _ (returned m) (
        if-Holds _ (line-Holds nodes object _ f ts c m)
          (if-Holds _ (line-Holds untagged_nodes object none f ts d m) (returned m))))

  pub handle_area-Holds :
      (object : OsmObject) (f : TableName → Bool) (ts : Tables)
      → Mode Bad f areas true
      → Modes Bad f ts
      → Holds Bad (Modes Bad f) (Import.handle_area env object ts)
  unfolding Import.handle_area
  handle_area-Holds object f ts c m = if-Holds _ (line-Holds areas object _ f ts c m) (returned m)

  -- The queries for rows, outside of COPY mode.
  pub way_ids-Holds :
      (name : TableName) (id : ℤ) {f : TableName → Bool} {p : TypeProgress} {h : DiffHandler2}
      → Mode Bad f name false
      → Sound Bad f p h
      → Holds Bad
          (λ r. Sound Bad f p r.1)
          (query env geo name (λ server. Queries.get_way_ids server id) h)
  unfolding Queries.get_way_ids
  way_ids-Holds name id {f} m =
      query-Holds env geo takes name (λ server. Queries.get_way_ids server id)
        (λ t. rows-Holds (env.server name) t (f name) _ id _ (takes name) m)

  pub relation_ids-Holds :
      (name : TableName) (id : ℤ) {f : TableName → Bool} {p : TypeProgress} {h : DiffHandler2}
      → Mode Bad f name false
      → Sound Bad f p h
      → Holds Bad
          (λ r. Sound Bad f p r.1)
          (query env geo name (λ server. Queries.get_relation_ids_by_member server id) h)
  unfolding Queries.get_relation_ids_by_member
  relation_ids-Holds name id {f} m =
      query-Holds env geo takes name (λ server. Queries.get_relation_ids_by_member server id)
        (λ t. rows-Holds (env.server name) t (f name) _ id _ (takes name) m)

  pub way_nodes-Holds :
      (name : TableName) (id : ℤ) {f : TableName → Bool} {p : TypeProgress} {h : DiffHandler2}
      → Mode Bad f name false
      → Sound Bad f p h
      → Holds Bad
          (λ r. Sound Bad f p r.1)
          (query env geo name (λ server. Queries.get_way_nodes server id) h)
  unfolding Queries.get_way_nodes
  way_nodes-Holds name id {f} m =
      query-Holds env geo takes name (λ server. Queries.get_way_nodes server id)
        (λ t. rows-Holds (env.server name) t (f name) _ id _ (takes name) m)

  pub count-Holds :
      (name : TableName) (id : ℤ) {f : TableName → Bool} {p : TypeProgress} {h : DiffHandler2}
      → Mode Bad f name false
      → Sound Bad f p h
      → Holds Bad
          (λ r. Sound Bad f p r.1)
          (query env geo name (λ server. Queries.count_osm_id server id) h)
  unfolding Queries.count_osm_id
  count-Holds name id {f} m =
      query-Holds env geo takes name (λ server. Queries.count_osm_id server id)
        (λ t. rows-Holds (env.server name) t (f name) _ id _ (takes name) m)

  -- Deleted or not, a node keeps the modes.
  pub node-Holds :
      (object : OsmObject) {f : TableName → Bool} {p : TypeProgress} {h : DiffHandler2}
      → Mode Bad f nodes true
      → Mode Bad f untagged_nodes true
      → Mode Bad f node_ways false
      → Mode Bad f node_relations false
      → Sound Bad f p h
      → Holds Bad (Sound Bad f p) (SecondPass.node env geo object h)
  unfolding SecondPass.node
  node-Holds object {f} n u w r s =
      let stored =
        with_tables-Holds env geo takes (Import.handle_node env object)
          (λ ts m. handle_node-Holds object f ts n u m) s in
      if-Holds object.deleted (returned s) (
        bind-Holds (bind-Holds stored λ h1 s1. way_ids-Holds node_ways object.id w s1) λ a s2.
          bind-Holds (relation_ids-Holds node_relations object.id r (with_lists _ _ _ _ s2))
            λ b s3. returned (with_lists _ _ _ _ s3))
