-- ===== src/Streets.antt =====
-- src/associated_street_relation_manager.cpp: `AssociatedStreetRelationManager`.
pub mod Members
pub mod Tracking
use cerepso.Base.{
  ℕ, ◌+◌, Bytes, Bool, false, List, [], ◌∷◌, ◌++◌, Option, none, some, if◌then◌else◌, equal, codes,
  get_elem?, length, Result, ok, err, ◌>>=◌,
}
use cerepso.Base.Int.{ℤ}
use cerepso.Osm
use cerepso.Osm.{ItemType, Tag, Member, OsmObject, get_value_by_key}

-- The members database of libosmium. `find` gives the positions of the relations, in the order of
-- the range; a position outside the relations database is an error of the caller.
pub record MembersDatabase : Type 1 where
  pub Db : Type 0
  pub fresh : Db
  pub track : ℕ → ℤ → ℕ → Db → Db
  pub find : ℤ → Db → List ℕ

pub data Fault : Type 0 where
  should_not_be_here out_of_range : Fault

-- `has_tag`: the first tag with the key has the value.
abbrev pub is_value : Option Bytes → Bytes → Bool
is_value none value = false
is_value (some v) value = equal v value

abbrev pub new_relation : OsmObject → Bool
new_relation relation =
    is_value (get_value_by_key relation.tags (codes "type")) (codes "associatedStreet")

module _ (lib : MembersDatabase) where
  open lib use {Db, fresh, track, find}

  -- The relations, and the members databases of the three types.
  pub record Manager : Type 0 where
    pub relations : List OsmObject
    pub node_members : Db
    pub way_members : Db
    pub relation_members : Db

  abbrev pub manager : Manager
  manager = record {
    relations = [];
    node_members = fresh;
    way_members = fresh;
    relation_members = fresh;
  }

  abbrev pub member_database : ItemType → Manager → Result Fault Db
  member_database Osm.node m = ok m.node_members
  member_database Osm.way m = ok m.way_members
  member_database Osm.relation m = ok m.relation_members
  member_database Osm.area m = err should_not_be_here

  -- `member_database(type).track(...)`.
  abbrev pub track_in : ItemType → ℕ → ℤ → ℕ → Manager → Result Fault Manager
  track_in Osm.node at ref n m = ok (record m { node_members = track at ref n m.node_members })
  track_in Osm.way at ref n m = ok (record m { way_members = track at ref n m.way_members })
  track_in Osm.relation at ref n m =
      ok (record m { relation_members = track at ref n m.relation_members })
  track_in Osm.area at ref n m = err should_not_be_here

  -- The loop over the members of the relation at a position.
  unfoldable pub track_members : ℕ → List Member → ℕ → Manager → Result Fault Manager
  track_members at [] n m = ok m
  track_members at (member ∷ members) n m =
      track_in member.type at member.ref n m >>= track_members at members (n + 1)

  unfoldable pub relation : OsmObject → Manager → Result Fault Manager
  unfolding track_members
  relation r m =
      let added : Manager = record m { relations = m.relations ++ r ∷ [] } in
      let tracked = track_members (length m.relations) r.members 0 added in
      if new_relation r then tracked else ok m

  abbrev pub tags_at : Option OsmObject → Result Fault (Option (List Tag))
  tags_at none = err out_of_range
  tags_at (some r) = ok (some r.tags)

  abbrev pub tags_of : List ℕ → List OsmObject → Result Fault (Option (List Tag))
  tags_of [] relations = ok none
  tags_of (at ∷ range) relations = tags_at (get_elem? relations at)

  unfoldable pub get_relation_tags : ℤ → ItemType → Manager → Result Fault (Option (List Tag))
  get_relation_tags id type m = member_database type m >>= λ md. tags_of (find id md) m.relations
