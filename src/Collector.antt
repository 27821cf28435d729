-- ===== src/Collector.antt =====
-- src/relation_collector.cpp: `RelationCollector`, which imports the relations.
pub mod Sending
use cerepso.Base.{
  Bytes, Bool, true, not, List, [], ◌∷◌, ◌++◌, Option, none, some, if◌then◌else◌, Result, ok, err,
  ◌>>=◌,
}
use cerepso.Base.Int.{ℤ, pos, eq_ℤ}
use cerepso.Osm
use cerepso.Osm.{ItemType, Location, Member, OsmObject}
use cerepso.Database
use cerepso.Database.{Server, Table, send_line}
use cerepso.Handler.Row
use cerepso.Handler.Row.{prepare_relation_query}

pub record RelationCollector : Type 0 where
  pub m_database_table : Table

pub data Fault : Type 0 where
  database : Database.Fault → Fault
  geometry_error invalid_location null_pointer : Fault

-- The manager of libosmium, which keeps the members that the input contains (a way by the locations
-- that it carries), and GEOS with its factory and its writer of WKB.
pub record Library : Type 0 where
  pub get_member_way : ℤ → Option (List Location)
  pub get_member_node : ℤ → Option Location
  pub create_linestring : List Location → Result Fault (List Location)
  pub create_point : Location → Result Fault Location
  pub multipoint_wkb : List Location → Bytes
  pub multilinestring_wkb : List (List Location) → Bytes

abbrev pub new_relation : OsmObject → Bool
new_relation relation = not relation.deleted

abbrev pub new_member : OsmObject → Member → Bool
new_member relation member = true

-- `points` and `linestrings`.
pub record Vectors : Type 0 where
  pub points : List Location
  pub linestrings : List (List Location)

abbrev pub no_vectors : Vectors
no_vectors = record { points = []; linestrings = [] }

abbrev pub push_line : List Location → Vectors → Vectors
push_line line v = record v { linestrings = v.linestrings ++ line ∷ [] }

abbrev pub push_point : Location → Vectors → Vectors
push_point point v = record v { points = v.points ++ point ∷ [] }

-- `*way` and `*node`.
abbrev pub pointed {ℓ} : {A : Type ℓ} → Option A → Result Fault A
pointed none = err null_pointer
pointed (some x) = ok x

-- The handler of `osmium::geometry_error` around the building of the line and the sending. What is
-- thrown while it is built is caught before anything is sent.
abbrev pub catch_geometry_error :
    RelationCollector → Result Fault RelationCollector → Result Fault RelationCollector
catch_geometry_error c (ok c') = ok c'
catch_geometry_error c (err geometry_error) = ok c
catch_geometry_error c (err e) = err e

abbrev pub from_database {ℓ} : {A : Type ℓ} → Result Database.Fault A → Result Fault A
from_database (ok a) = ok a
from_database (err e) = err (database e)

module _ (library : Library) where
  open library use {
    get_member_way, get_member_node, create_linestring, create_point, multipoint_wkb,
    multilinestring_wkb,
  }

  unfoldable pub build_member : ItemType → ℤ → Vectors → Result Fault Vectors
  build_member Osm.way ref v =
      pointed (get_member_way ref) >>= create_linestring >>= λ line. ok (push_line line v)
  build_member Osm.node ref v =
      pointed (get_member_node ref) >>= create_point >>= λ point. ok (push_point point v)
  build_member _ ref v = ok v

  -- The loop over the members; a member that the input lacks has the reference 0.
  unfoldable pub build_members : List Member → Vectors → Result Fault Vectors
  unfolding build_member
  build_members [] v = ok v
  build_members (member ∷ members) v =
      let taken = build_member member.type member.ref v >>= build_members members in
      let skipped = build_members members v in if eq_ℤ member.ref (pos 0) then skipped else taken

  module _ (server : Server) (source : Row.Table) where
    unfoldable pub build_relation_query : OsmObject → RelationCollector → Bytes → Result Fault Bytes
    unfolding build_members prepare_relation_query
    build_relation_query relation c query = build_members relation.members no_vectors >>= λ v. ok (
        prepare_relation_query source c.m_database_table.m_columns relation
          (multipoint_wkb v.points) (multilinestring_wkb v.linestrings) query)

    unfoldable pub process_relation : OsmObject → RelationCollector → Result Fault RelationCollector
    unfolding build_relation_query send_line
    process_relation relation c = catch_geometry_error c (
        build_relation_query relation c [] >>= λ query.
        from_database (send_line server query c.m_database_table) >>= λ t.
        ok (record c { m_database_table = t }))

    unfoldable pub complete_relation :
        OsmObject → RelationCollector → Result Fault RelationCollector
    unfolding process_relation
    complete_relation relation c = process_relation relation c
