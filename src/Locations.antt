-- ===== src/Locations.antt =====
-- src/database_location_handler.cpp: `DatabaseLocationHandler`.
pub mod Cached
pub mod Ways
use cerepso.Base.{
  ℕ, Bytes, Bool, true, false, not, ◌&&◌, ◌||◌, List, [], ◌∷◌, ◌++◌, Option, none, some,
  if◌then◌else◌, Result, ok, err, ◌>>=◌,
}
use cerepso.Base.Int.{ℤ, eq_ℤ}
use cerepso.Osm.{Location, OsmObject}
use cerepso.Columns
use cerepso.Columns.{TableType}
use cerepso.Database.{Server, Table}
use cerepso.Database.Members.{undefined_location, get_point}
use cerepso.Diff.Shared.{Fault, not_found, from_database}

pub record DatabaseLocationHandler : Type 0 where
  pub m_nodes_table : Table
  pub m_untagged_nodes_table : Table
  pub m_ignore_errors : Bool
  pub m_location_cache : List (ℤ × Location)

-- `std::unordered_map::find`
unfoldable pub find : ℤ → List (ℤ × Location) → Option Location
find id [] = none
find id (entry ∷ cache) =
    let later = find id cache in if eq_ℤ id entry.0 then some entry.1 else later

-- `emplace` leaves an entry that is there.
abbrev pub emplace_if : Option Location → ℤ → Location → List (ℤ × Location) → List (ℤ × Location)
emplace_if none id loc cache = (id, loc) ∷ cache
emplace_if (some old) id loc cache = cache

unfoldable pub emplace : ℤ → Location → List (ℤ × Location) → List (ℤ × Location)
unfolding find
emplace id loc cache = emplace_if (find id cache) id loc cache

abbrev pub ignore_errors : DatabaseLocationHandler → DatabaseLocationHandler
ignore_errors h = record h { m_ignore_errors = true }

unfoldable pub node : OsmObject → DatabaseLocationHandler → DatabaseLocationHandler
unfolding emplace
node object h =
    if not object.deleted
    then record h { m_location_cache = emplace object.id object.location h.m_location_cache }
    else h

-- `operator bool` of a location.
abbrev pub is_defined : Location → Bool
is_defined loc = not (eq_ℤ loc.x undefined_location.x) && not (eq_ℤ loc.y undefined_location.y)

-- The servers of the two tables, and what `atof` and `atoi` make of coordinates.
module _ (nodes_server untagged_server : Server)
    (at_doubles at_ints : Bytes → Bytes → Location) where
  unfoldable pub get_node_location_from_persisent :
      ℤ → DatabaseLocationHandler → Result Fault (Location × DatabaseLocationHandler)
  unfolding get_point
  get_node_location_from_persisent id h =
      from_database (
        get_point untagged_server at_doubles at_ints Columns.untagged_point id
          h.m_untagged_nodes_table)
      >>= λ r.
          let h1 : DatabaseLocationHandler = record h { m_untagged_nodes_table = r.1 } in
          let second =
            from_database
              (get_point nodes_server at_doubles at_ints Columns.point id h.m_nodes_table)
            >>= λ q. ok (q.0, record h1 { m_nodes_table = q.1 }) in
          if r.0.valid then ok (r.0, h1) else second

  abbrev pub cached_or :
      Option Location
      → ℤ
      → DatabaseLocationHandler
      → Result Fault (Location × DatabaseLocationHandler)
  cached_or none id h = get_node_location_from_persisent id h
  cached_or (some loc) id h = ok (loc, h)

  unfoldable pub get_node_location :
      ℤ → DatabaseLocationHandler → Result Fault (Location × DatabaseLocationHandler)
  unfolding find get_node_location_from_persisent
  get_node_location id h = cached_or (find id h.m_location_cache) id h

  -- The loop over the nodes of a way; the flag is `error`. It gives the locations that are set.
  unfoldable pub locate_nodes :
      List ℤ
      → Bool
      → DatabaseLocationHandler
      → Result Fault ((Bool × List Location) × DatabaseLocationHandler)
  unfolding get_node_location
  locate_nodes [] error h = ok ((error, []), h)
  locate_nodes (id ∷ ids) error h = get_node_location id h >>= λ r.
      locate_nodes ids (error || not (is_defined r.0)) r.1 >>= λ q. ok ((q.0.0, r.0 ∷ q.0.1), q.1)

  unfoldable pub way :
      List ℤ → DatabaseLocationHandler → Result Fault (List Location × DatabaseLocationHandler)
  unfolding locate_nodes
  way ids h = locate_nodes ids false h >>= λ r.
      if not h.m_ignore_errors && r.0.0 then err not_found else ok (r.0.1, r.1)
