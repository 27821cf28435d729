-- ===== src/Interpolation/Ways.antt =====
-- `interpolate`, and the handler's two passes.
use cerepso.Base.{
  ℕ, ◌+◌, Bytes, Bool, true, false, not, ◌||◌, List, [], ◌∷◌, Option, none, some, if◌then◌else◌,
  ◌==◌, ltb, equal, codes, length, Result, ok, err, ◌>>=◌,
}
use cerepso.Base.Int.{ℤ, eq_ℤ}
use cerepso.Osm.{Tag, OsmObject, get_value_by_key}
use cerepso.Doubles.{Doubles}
use cerepso.HouseNumber.{
  InterpolationType, unknown, odd, even, every, alphabetic, Fault, runtime_error, out_of_range,
  assertion, one_node_only, no_first_point, database,
}
use cerepso.Interpolation.{Geometry, house_number_of, add_points_to_str}
use cerepso.RequiredNodes.{RequiredNodesTracking, track, prepare_for_lookup, node_needed}
use cerepso.TagsStorage
use cerepso.TagsStorage.{TagsStorage, get}
use cerepso.Database
use cerepso.Database.{Server, Table, send_line}

abbrev pub type_of_text : Bytes → InterpolationType
type_of_text text =
    if equal text (codes "odd")
    then odd
    else if equal text (codes "even")
    then even
    else if equal text (codes "all")
    then every
    else if equal text (codes "alphabetic")
    then alphabetic
    else unknown

-- `none` is the null pointer.
unfoldable pub valid_interpolation : Option Bytes → Bool
valid_interpolation none = false
valid_interpolation (some value) =
    equal value (codes "odd")
    || equal value (codes "even")
    || equal value (codes "all")
    || equal value (codes "alphabetic")

abbrev pub is_some : Option Bytes → Bool
is_some none = false
is_some (some v) = true

abbrev pub has_house_number : Option (List Tag) → Bool
has_house_number none = false
has_house_number (some tags) = is_some (house_number_of tags)

abbrev pub is_null : Option (List Tag) → Bool
is_null none = true
is_null (some tags) = false

-- Where an iterator stands: the nodes from it on, the tags of the node, and how far it has come.
pub record Stand : Type 0 where
  pub nodes : List ℤ
  pub tags : Option (List Tag)
  pub distance : ℕ

module _ (storage : TagsStorage) where
  -- The search for a node with a house number, which stops at the last node at the latest.
  unfoldable pub search_loop : ℕ → Option (List Tag) → List ℤ → Stand
  unfolding get
  search_loop n tags (a ∷ b ∷ nodes) =
      let later = search_loop (n + 1) (get b storage) (b ∷ nodes) in
      if has_house_number tags
      then record { nodes = a ∷ b ∷ nodes; tags = tags; distance = n }
      else later
  search_loop n tags nodes = record { nodes = nodes; tags = tags; distance = n }

  -- The first search is only made if nothing is stored for the first node.
  unfoldable pub first_stand : List ℤ → Stand
  unfolding search_loop
  first_stand [] = record { nodes = []; tags = none; distance = 0 }
  first_stand (a ∷ nodes) =
      if is_null (get a storage)
      then search_loop 0 none (a ∷ nodes)
      else record { nodes = a ∷ nodes; tags = get a storage; distance = 0 }

  module _
      (add_points : List ℤ
        → ℕ
        → Option (List Tag)
        → Option (List Tag)
        → Bytes
        → Result Fault Bytes) where
    -- The rest of the way: `it1` stands at the head of the first list, `it2` so many nodes further,
    -- in front of the second list.
    unfoldable pub rest_loop :
        List ℤ → Option (List Tag) → ℕ → Option (List Tag) → List ℤ → Bytes → Result Fault Bytes
    rest_loop from1 tags1 n tags2 [] query =
        if is_null tags2 then ok query else add_points from1 n tags1 tags2 query
    rest_loop from1 tags1 n tags2 (b ∷ nodes) query =
        let tags = get b storage in
        let found =
          add_points from1 (n + 1) tags1 tags query >>= rest_loop (b ∷ nodes) tags 0 none nodes in
        let further = rest_loop from1 tags1 (n + 1) tags nodes query in
        if has_house_number tags then found else further

    abbrev pub behind_stand : List ℤ → List ℤ
    behind_stand [] = []
    behind_stand (a ∷ nodes) = nodes

    -- From `it2` on, behind the node where the first search has stopped.
    unfoldable pub second_stand : Stand → Bytes → Result Fault Bytes
    unfolding rest_loop search_loop
    second_stand s1 query = elim (behind_stand s1.nodes) [
      | [] ↦ err (runtime_error no_first_point)
      | b ∷ nodes ↦
          let s2 : Stand = search_loop 1 (get b storage) (b ∷ nodes) in
          add_points s1.nodes s2.distance s1.tags s2.tags query
          >>= rest_loop s2.nodes s2.tags 0 none (behind_stand s2.nodes)
    ]

abbrev pub or_empty : Option Bytes → Bytes
or_empty none = []
or_empty (some v) = v

abbrev pub interpolation_of : OsmObject → Option Bytes
interpolation_of way = get_value_by_key way.tags (codes "addr:interpolation")

module _ (d : Doubles) (g : Geometry d) where
  -- An unsupported type leaves the query as it is.
  unfoldable pub interpolate_as :
      InterpolationType → Table → TagsStorage → OsmObject → Bytes → Result Fault Bytes
  unfolding first_stand second_stand add_points_to_str
  interpolate_as unknown table storage way query = ok query
  interpolate_as type table storage way query =
      second_stand storage (add_points_to_str d g table.m_columns way.id type)
        (first_stand storage way.nodes) query

  unfoldable pub interpolate : Table → TagsStorage → OsmObject → Bytes → Result Fault Bytes
  unfolding interpolate_as
  interpolate table storage way query =
      if ltb (length way.nodes) 2
      then err (runtime_error one_node_only)
      else interpolate_as (type_of_text (or_empty (interpolation_of way))) table storage way query

pub record AddrInterpolationHandler : Type 0 where
  pub m_required_nodes : RequiredNodesTracking
  pub m_table : Table
  pub m_tags_storage : TagsStorage

unfoldable pub track_all : List ℤ → RequiredNodesTracking → RequiredNodesTracking
unfolding track
track_all [] t = t
track_all (id ∷ ids) t = track_all ids (track id t)

-- `ends_have_same_id`
abbrev pub last_of : ℤ → List ℤ → ℤ
last_of a [] = a
last_of a (b ∷ nodes) = last_of b nodes

abbrev pub is_closed : List ℤ → Bool
is_closed [] = false
is_closed (a ∷ nodes) = eq_ℤ a (last_of a nodes)

-- Pass 1. A way without nodes has nothing to track.
unfoldable pub way : OsmObject → AddrInterpolationHandler → AddrInterpolationHandler
unfolding valid_interpolation track_all
way w h =
    if not (valid_interpolation (get_value_by_key w.tags (codes "addr:interpolation")))
    then h
    else if length w.nodes == 1 || is_closed w.nodes
    then h
    else record h { m_required_nodes = track_all w.nodes h.m_required_nodes }

unfoldable pub after_pass1 : List ℤ → AddrInterpolationHandler → AddrInterpolationHandler
unfolding prepare_for_lookup
after_pass1 left h = record h { m_required_nodes = prepare_for_lookup left h.m_required_nodes }

-- Pass 2.
abbrev pub store_if :
    OsmObject → AddrInterpolationHandler → Bool × RequiredNodesTracking → AddrInterpolationHandler
store_if node h (needed, t) = record h {
  m_required_nodes = t;
  m_tags_storage =
      if needed then TagsStorage.add node.id node.tags h.m_tags_storage else h.m_tags_storage;
}

unfoldable pub handle_node :
    OsmObject → AddrInterpolationHandler → Result Fault AddrInterpolationHandler
unfolding node_needed
handle_node node h = node_needed node.id h.m_required_nodes >>= λ r. ok (store_if node h r)

abbrev pub from_database : Result Database.Fault Table → Result Fault Table
from_database (ok t) = ok t
from_database (err Database.runtime_error) = err (runtime_error database)
from_database (err Database.assertion) = err assertion
from_database (err Database.out_of_range) = err out_of_range

-- `catch (std::runtime_error&)`
abbrev pub catch_runtime_error :
    AddrInterpolationHandler
    → Result Fault AddrInterpolationHandler
    → Result Fault AddrInterpolationHandler
catch_runtime_error h (err (runtime_error m)) = ok h
catch_runtime_error h r = r

abbrev pub send_if : Server → Bytes → Table → Result Database.Fault Table
send_if server [] t = ok t
send_if server (c ∷ query) t = send_line server (c ∷ query) t

module _ (server : Server) (d : Doubles) (g : Geometry d) where
  unfoldable pub handle_way :
      OsmObject → AddrInterpolationHandler → Result Fault AddrInterpolationHandler
  unfolding interpolate valid_interpolation send_line
  handle_way w h =
      if not (valid_interpolation (interpolation_of w))
      then ok h
      else catch_runtime_error h (
          interpolate d g h.m_table h.m_tags_storage w [] >>= λ query.
          from_database (send_if server query h.m_table) >>= λ t. ok (record h { m_table = t }))
