-- ===== src/Locations/Cached.antt =====
-- The locations of nodes that the diff contains.
use cerepso.Base.{
  Bytes, Bool, true, false, not, ◌&&◌, List, [], ◌∷◌, Option, none, some, if◌then◌else◌, ok, ◌≡◌,
  refl, ap, ◌∙◌, arith, Bool-cases, inl, inr,
}
use cerepso.Base.Int.{ℤ, eq_ℤ, eq_of_parts}
use cerepso.Osm.{Location, OsmObject}
use cerepso.Database.{Server}
use cerepso.Locations
use cerepso.Locations.{DatabaseLocationHandler, find, emplace, emplace_if, is_defined}

-- The nodes that arrive.
unfoldable pub receive : List OsmObject → DatabaseLocationHandler → DatabaseLocationHandler
unfolding Locations.node
receive [] h = h
receive (object ∷ objects) h = receive objects (Locations.node object h)

-- The location of the first of them that has the id and is not deleted.
unfoldable pub first_location : ℤ → List OsmObject → Option Location
first_location id [] = none
first_location id (object ∷ objects) =
    let later = first_location id objects in
    if not object.deleted && eq_ℤ id object.id then some object.location else later

abbrev or_else : Option Location → Option Location → Option Location
or_else none other = other
or_else (some loc) other = some loc

or_else_none : (o : Option Location) → o ≡ or_else o none
or_else_none none = refl
or_else_none (some loc) = refl

or_else_later :
    (o p : Option Location) (b : Bool) (loc : Location)
    → or_else (or_else o (if b then some loc else none)) p ≡ or_else o (if b then some loc else p)
or_else_later none p true loc = refl
or_else_later none p false loc = refl
or_else_later (some l) p b loc = refl

find_same : (a b : ℤ) (cache : List (ℤ × Location)) → eq_ℤ a b ≡ true → find a cache ≡ find b cache
find_same a b cache e = ap (λ n. find n cache) (eq_of_parts a b (ground (arith, e)))

find-emplace :
    (id new : ℤ) (loc : Location) (cache : List (ℤ × Location))
    → find id (emplace new loc cache)
      ≡ or_else (find id cache) (if eq_ℤ id new then some loc else none)
unfolding emplace find
find-emplace id new loc cache = by_found (find new cache) refl
  where
    by_found :
        (o : Option Location)
        → find new cache ≡ o
        → find id (emplace_if o new loc cache)
          ≡ or_else (find id cache) (if eq_ℤ id new then some loc else none)
    by_found none e = elim (Bool-cases (eq_ℤ id new)) [
      | inl same ↦ rw (same, find_same id new cache same, e) refl
      | inr other ↦ rw other (or_else_none (find id cache))
    ]
    by_found (some old) e = elim (Bool-cases (eq_ℤ id new)) [
      | inl same ↦ rw (same, find_same id new cache same, e) refl
      | inr other ↦ rw other (or_else_none (find id cache))
    ]

find-node :
    (id : ℤ) (object : OsmObject) (h : DatabaseLocationHandler)
    → find id (Locations.node object h).m_location_cache
      ≡ or_else
          (find id h.m_location_cache)
          (if not object.deleted && eq_ℤ id object.id then some object.location else none)
unfolding Locations.node
find-node id object h = elim (Bool-cases object.deleted) [
  | inl deleted ↦ rw deleted (or_else_none (find id h.m_location_cache))
  | inr kept ↦ rw kept (find-emplace id object.id object.location h.m_location_cache)
]

find-receive :
    (id : ℤ) (objects : List OsmObject) (h : DatabaseLocationHandler)
    → find id (receive objects h).m_location_cache
      ≡ or_else (find id h.m_location_cache) (first_location id objects)
unfolding receive first_location
find-receive id [] h = or_else_none (find id h.m_location_cache)
find-receive id (object ∷ objects) h =
    find-receive id objects (Locations.node object h)
    ∙ ap (λ o. or_else o (first_location id objects)) (find-node id object h)
    ∙ or_else_later (find id h.m_location_cache) (first_location id objects) _ object.location

-- A node of the diff is located without a request: for nodes that have arrived in an empty cache,
-- `get_node_location` gives the location of the first that has the id and is not deleted, and
-- leaves the handler as it is, whatever the servers answer.
pub get_node_location-receive :
    (nodes_server untagged_server : Server) (at_doubles at_ints : Bytes → Bytes → Location) (id : ℤ)
    (loc : Location) (objects : List OsmObject) (h : DatabaseLocationHandler)
    → h.m_location_cache ≡ []
    → first_location id objects ≡ some loc
    → Locations.get_node_location nodes_server untagged_server at_doubles at_ints id
        (receive objects h)
      ≡ ok (loc, receive objects h)
unfolding Locations.get_node_location find
get_node_location-receive nodes_server untagged_server at_doubles at_ints id loc objects h e f =
    rw (found e f) refl
  where
    found :
        h.m_location_cache ≡ []
        → first_location id objects ≡ some loc
        → find id (receive objects h).m_location_cache ≡ some loc
    found e f = rw (find-receive id objects h, e, f) refl

-- What is not in the cache is asked of the database: for an id that none of the nodes has that are
-- not deleted, `get_node_location` does what `get_node_location_from_persisent` does.
pub get_node_location-absent :
    (nodes_server untagged_server : Server) (at_doubles at_ints : Bytes → Bytes → Location) (id : ℤ)
    (objects : List OsmObject) (h : DatabaseLocationHandler)
    → h.m_location_cache ≡ []
    → first_location id objects ≡ none
    → Locations.get_node_location nodes_server untagged_server at_doubles at_ints id
        (receive objects h)
      ≡ Locations.get_node_location_from_persisent nodes_server untagged_server at_doubles at_ints
          id
          (receive objects h)
unfolding Locations.get_node_location find
get_node_location-absent nodes_server untagged_server at_doubles at_ints id objects h e f =
    rw (absent e f) refl
  where
    absent :
        h.m_location_cache ≡ []
        → first_location id objects ≡ none
        → find id (receive objects h).m_location_cache ≡ none
    absent e f = rw (find-receive id objects h, e, f) refl
