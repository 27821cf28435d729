-- ===== src/Handler/Members.antt =====
-- src/postgres_handler.cpp: the lines for the tables of way nodes and relation members.
use cerepso.Base.{
  ℕ, ◌+◌, ◌-◌, ◌^◌, Bytes, Bool, true, false, List, [], ◌∷◌, ◌++◌, some, if◌then◌else◌, leb, ltb,
  Result, ok, ◌>>=◌,
}
use cerepso.Base.Int.{ℤ}
use cerepso.Database.{Fault, assertion, require}
use cerepso.Escape.{escape, add_separator_to_stringstream}
use cerepso.Osm.{ItemType, node, way, relation, area, Member, OsmObject}
use cerepso.Handler.Append.{add_osm_id, to_int16, add_int16}

-- One line of the list of a way's nodes.
unfoldable pub node_line : ℤ → ℕ → ℤ → Bytes → Bytes
unfolding add_osm_id add_int16 add_separator_to_stringstream
node_line way_id i ref query =
    add_int16
      (add_separator_to_stringstream
        (add_osm_id (add_separator_to_stringstream (add_osm_id query way_id)) ref))
      (to_int16 i)
    ++ b'\n' ∷ []

-- `prepare_node_way_query`, from node number `i` on. The source appends the ids of a line before
-- the assertion, of which nothing is left if it fails.
unfoldable pub node_way_loop : ℤ → ℕ → List ℤ → Bytes → Result Fault Bytes
unfolding node_line
node_way_loop way_id i [] query = ok query
node_way_loop way_id i (ref ∷ nodes) query = require (ltb i (2 ^ 16 - 1)) assertion >>= λ _.
    node_way_loop way_id (i + 1) nodes (node_line way_id i ref query)

unfoldable pub prepare_node_way_query : OsmObject → Result Fault Bytes
unfolding node_way_loop
prepare_node_way_query object = node_way_loop object.id 0 object.nodes []

abbrev pub same_type : ItemType → ItemType → Bool
same_type node node = true
same_type way way = true
same_type relation relation = true
same_type area area = true
same_type _ _ = false

-- One line of a member list.
unfoldable pub member_line : ℤ → ℕ → Member → Bytes → Bytes
unfolding add_osm_id add_int16 add_separator_to_stringstream
member_line relation_id i member query =
    escape (some member.role) (
      add_separator_to_stringstream (
        add_int16
          (add_separator_to_stringstream
            (add_osm_id (add_separator_to_stringstream (add_osm_id query member.ref)) relation_id))
          (to_int16 i)))
    ++ b'\n' ∷ []

-- From member number `i` on, up to 2^16 - 1 members.
unfoldable pub member_list_loop : ItemType → ℤ → ℕ → List Member → Bytes → Bytes
unfolding member_line
member_list_loop type relation_id i [] query = query
member_list_loop type relation_id i (member ∷ members) query =
    let rest =
      member_list_loop type relation_id (i + 1) members
        (if same_type member.type type then member_line relation_id i member query else query) in
    if leb (2 ^ 16 - 1) i then query else rest

unfoldable pub prepare_relation_member_list_query : OsmObject → ItemType → Bytes
unfolding member_list_loop
prepare_relation_member_list_query object type = member_list_loop type object.id 0 object.members []

unfoldable pub prepare_node_relation_query : OsmObject → Bytes
unfolding prepare_relation_member_list_query
prepare_node_relation_query r = prepare_relation_member_list_query r node

unfoldable pub prepare_way_relation_query : OsmObject → Bytes
unfolding prepare_relation_member_list_query
prepare_way_relation_query r = prepare_relation_member_list_query r way

unfoldable pub prepare_relation_relation_query : OsmObject → Bytes
unfolding prepare_relation_member_list_query
prepare_relation_relation_query r = prepare_relation_member_list_query r relation
