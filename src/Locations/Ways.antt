-- ===== src/Locations/Ways.antt =====
-- The locations of the nodes of a way whose nodes are all in the diff.
use cerepso.Base.{
  Bytes, Bool, true, false, not, ◌&&◌, ◌||◌, List, [], ◌∷◌, some, if◌then◌else◌, ok, err, ◌≡◌, refl,
  ap, ◌∙◌,
}
use cerepso.Base.Int.{ℤ}
use cerepso.Osm.{Location, OsmObject}
use cerepso.Database.{Server}
use cerepso.Diff.Shared.{not_found}
use cerepso.Locations
use cerepso.Locations.{DatabaseLocationHandler, is_defined}
use cerepso.Locations.Cached.{receive, first_location, get_node_location-receive}

-- Each id has its location among the nodes.
abbrev pub Located : List OsmObject → List ℤ → List Location → Type 0
Located objects [] [] = Unit {0}
Located objects [] (loc ∷ locs) = ⊥
Located objects (id ∷ ids) [] = ⊥
Located objects (id ∷ ids) (loc ∷ locs) =
    (first_location id objects ≡ some loc) × Located objects ids locs

-- One of the locations is not defined.
unfoldable pub any_undefined : List Location → Bool
any_undefined [] = false
any_undefined (loc ∷ locs) = not (is_defined loc) || any_undefined locs

or-nested : (a b c : Bool) → ((a || b) || c) ≡ (a || (b || c))
or-nested true b c = refl
or-nested false b c = refl

or-false : (a : Bool) → a ≡ (a || false)
or-false true = refl
or-false false = refl

ignores-receive :
    (objects : List OsmObject) (h : DatabaseLocationHandler)
    → (receive objects h).m_ignore_errors ≡ h.m_ignore_errors
unfolding receive Locations.node
ignores-receive [] h = refl
ignores-receive (object ∷ objects) h =
    ignores-receive objects (Locations.node object h) ∙ kept object.deleted
  where
    kept :
        (b : Bool)
        → (if not b
            then record h {
              m_location_cache = Locations.emplace object.id object.location h.m_location_cache;
            }
            else h).m_ignore_errors
          ≡ h.m_ignore_errors
    kept true = refl
    kept false = refl

module _ (nodes_server untagged_server : Server) (at_doubles at_ints : Bytes → Bytes → Location)
    (objects : List OsmObject) (h : DatabaseLocationHandler) (empty : h.m_location_cache ≡ []) where
  locate_nodes-Located :
      (ids : List ℤ) (locs : List Location) (error : Bool)
      → Located objects ids locs
      → Locations.locate_nodes nodes_server untagged_server at_doubles at_ints ids error
          (receive objects h)
        ≡ ok ((error || any_undefined locs, locs), receive objects h)
  unfolding Locations.locate_nodes any_undefined
  locate_nodes-Located [] [] error p = ap (λ b. ok ((b, []), receive objects h)) (or-false error)
  locate_nodes-Located [] (loc ∷ locs) error p = absurd p
  locate_nodes-Located (id ∷ ids) [] error p = absurd p
  locate_nodes-Located (id ∷ ids) (loc ∷ locs) error p =
      rw
        (
          get_node_location-receive nodes_server untagged_server at_doubles at_ints id loc objects h
              empty p.0,
          locate_nodes-Located ids locs (error || not (is_defined loc)) p.1,
          or-nested error (not (is_defined loc)) (any_undefined locs),
        )
        refl

  -- For a way all of whose nodes have arrived with the diff in an empty cache, and not deleted, `way`
  -- sets the location of each node to that of the first arriving node with its id. It throws if
  -- one of these locations is not defined, unless errors are ignored. The handler stays as it is,
  -- and the servers of the two tables are not asked: the result is the same for all of them.
  pub way-Located :
      (ids : List ℤ) (locs : List Location)
      → Located objects ids locs
      → Locations.way nodes_server untagged_server at_doubles at_ints ids (receive objects h) ≡ (
          if not h.m_ignore_errors && any_undefined locs
          then err not_found
          else ok (locs, receive objects h))
  unfolding Locations.way
  way-Located ids locs p =
      rw (locate_nodes-Located ids locs false p, ignores-receive objects h) refl
