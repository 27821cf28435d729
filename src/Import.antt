-- ===== src/Import.antt =====
-- src/postgres_handler.cpp: `handle_node` and `handle_area`; src/import_handler.cpp: `ImportHandler`.
use cerepso.Base.{
  Bytes, Bool, true, false, not, ◌&&◌, List, [], ◌∷◌, Option, none, if◌then◌else◌, ltb, length,
  Result, ok, ◌>>=◌,
}
use cerepso.Osm.{Tag, ItemType, node, way, relation, Location, OsmObject}
use cerepso.Handler.Row
use cerepso.Handler.Members
use cerepso.Database.{Fault, send_line}
use cerepso.Connections.{
  TableName, nodes, untagged_nodes, ways_linear, areas, node_ways, node_relations, way_relations,
  relation_relations, Environment, Tables, on, has_tags, has_interesting_tags,
  get_relation_tags_to_apply,
}

-- A query that may be empty, which is not sent then.
abbrev pub is_filled : Bytes → Bool
is_filled [] = false
is_filled (c ∷ query) = true

abbrev pub all_valid : List Location → Bool
all_valid [] = true
all_valid (l ∷ locations) = l.valid && all_valid locations

module _ (env : Environment) where
  -- The line of an object for a table, with the tags of a relation.
  abbrev pub line_for : TableName → Tables → OsmObject → Option (List Tag) → Bytes
  line_for name ts object rel_tags =
      Row.prepare_query (env.source name) (ts name).m_columns object rel_tags

  unfoldable pub send : TableName → Bytes → Tables → Result Fault Tables
  unfolding on
  send name line ts = on env name (λ server. send_line server line) ts

  unfoldable pub send_filled : TableName → Bytes → Tables → Result Fault Tables
  unfolding send
  send_filled name query ts = if is_filled query then send name query ts else ok ts

  unfoldable pub handle_node : OsmObject → Tables → Result Fault Tables
  unfolding send has_interesting_tags get_relation_tags_to_apply
  handle_node object ts =
      if not object.location.valid
      then ok ts
      else if not env.config.untagged_nodes && not (has_tags object.tags)
      then ok ts
      else if has_interesting_tags env nodes object.tags
      then send nodes (line_for nodes ts object (get_relation_tags_to_apply env object.id node)) ts
      else if env.config.untagged_nodes
      then send untagged_nodes (line_for untagged_nodes ts object none) ts
      else ok ts

  abbrev pub area_source : OsmObject → ItemType
  area_source object = if object.from_way then way else relation

  unfoldable pub handle_area : OsmObject → Tables → Result Fault Tables
  unfolding send has_interesting_tags get_relation_tags_to_apply
  handle_area object ts =
      let rel_tags = get_relation_tags_to_apply env object.orig_id (area_source object) in
      if has_interesting_tags env areas object.tags
      then send areas (line_for areas ts object rel_tags) ts
      else ok ts

  -- The three lists of members that a relation sends.
  unfoldable pub send_members : OsmObject → Tables → Result Fault Tables
  unfolding send_filled Members.prepare_node_relation_query Members.prepare_way_relation_query
      Members.prepare_relation_relation_query
  send_members object ts =
      send_filled node_relations (Members.prepare_node_relation_query object) ts
      >>= send_filled way_relations (Members.prepare_way_relation_query object)
      >>= send_filled relation_relations (Members.prepare_relation_relation_query object)

  -- `ImportHandler::node`
  unfoldable pub import_node : OsmObject → Tables → Result Fault Tables
  unfolding handle_node
  import_node object ts = handle_node object ts

  -- `ImportHandler::way`. The way carries the locations of its nodes.
  unfoldable pub import_way : OsmObject → List Location → Tables → Result Fault Tables
  unfolding send has_interesting_tags get_relation_tags_to_apply Members.prepare_node_way_query
  import_way object locations ts =
      let rel_tags = get_relation_tags_to_apply env object.id way in
      if ltb (length object.nodes) 2
      then ok ts
      else if not (all_valid locations)
      then ok ts
      else if not env.config.updateable && not (has_interesting_tags env ways_linear object.tags)
      then ok ts
      else send ways_linear (line_for ways_linear ts object rel_tags) ts >>= λ us.
          if env.config.updateable
          then (Members.prepare_node_way_query object >>= λ line. send node_ways line us)
          else ok us

  unfoldable pub import_relation : OsmObject → Tables → Result Fault Tables
  unfolding send_members
  import_relation object ts = if not env.config.updateable then ok ts else send_members object ts

  unfoldable pub import_area : OsmObject → Tables → Result Fault Tables
  unfolding handle_area
  import_area object ts = handle_area object ts
