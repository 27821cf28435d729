-- ===== src/Tests/Imports.antt =====
-- The import of relations, associated streets, locations and the index of nodes.
use cerepso.Base.{
  ℕ, ◌<◌, Bytes, true, false, List, [], ◌∷◌, ◌++◌, none, some, if◌then◌else◌, length, get_elem?, ok,
  err, ◌≡◌, refl, arith, codes, All,
}
use cerepso.Base.Int.{ℤ, pos, eq_ℤ}
use cerepso.CopyText.{rows}
use cerepso.Osm
use cerepso.Osm.{ItemType, Tag, Location, Member, OsmObject}
use cerepso.Database.{copy_data}
use cerepso.IndexDump.{Entry, array_size, dump_index_manually, location_or}
use cerepso.IndexDump.Cells.{dump_index_manually-get}
use cerepso.Database.Members.{undefined_location}
use cerepso.Diff.Shared.{not_found}
use cerepso.Locations
use cerepso.Locations.{DatabaseLocationHandler}
use cerepso.Locations.Cached.{receive}
use cerepso.Locations.Ways.{way-Located}
use cerepso.Collector
use cerepso.Collector.Sending
use cerepso.Collector.{RelationCollector, Library, geometry_error}
use cerepso.Collector.Sending.{Gathers, complete_relation-rows}
use cerepso.Handler.Lines.{PlainSources, all_plain-StaysInside}
use cerepso.Handler.Members.{same_type}
use cerepso.Handler.RelationLine
use cerepso.Handler.Values.{value, values}
use cerepso.Streets
use cerepso.Streets.{MembersDatabase, Manager}
use cerepso.Streets.Members.{Tracked, is_tracked, is_member_at, streets}
use cerepso.Streets.Tracking.{tracks, all_relations, all_relations-tracks}
use cerepso.Tests.Connection.{server, fresh_table, copying}
use cerepso.Tests.Lines.{stop, table, id_column, points_column, lines_column}

abbrev place : ℤ → Location
place x = record { x = x; y = pos 0; valid = true }

abbrev index : List Entry
index =
    record { first = 1; second = place (pos 10) }
    ∷ record { first = 3; second = place (pos 30) }
    ∷ []

dump_index_manually-get_example :
    (length (dump_index_manually undefined_location index) ≡ 4)
    × All (λ e. e.first < 4) index
    × ((id : ℕ)
        → id < 4
        → get_elem? (dump_index_manually undefined_location index) id
          ≡ some (location_or undefined_location index id))
unfolding array_size
dump_index_manually-get_example =
    dump_index_manually-get undefined_location index 4 ((omega arith, tt), (tt, tt)) refl

abbrev far : OsmObject
far = record stop { id = pos 9; location = undefined_location }

abbrev locations : DatabaseLocationHandler
locations = record {
  m_nodes_table = fresh_table;
  m_untagged_nodes_table = fresh_table;
  m_ignore_errors = false;
  m_location_cache = [];
}

abbrev no_location : Bytes → Bytes → Location
no_location x y = undefined_location

way-Located_example :
    Locations.way server server no_location no_location
      (stop.id ∷ far.id ∷ [])
      (receive (stop ∷ far ∷ []) locations)
    ≡ err not_found
unfolding cerepso.Locations.Ways.any_undefined cerepso.Locations.Cached.first_location
way-Located_example =
    way-Located server server no_location no_location (stop ∷ far ∷ []) locations refl
      (stop.id ∷ far.id ∷ []) (stop.location ∷ far.location ∷ []) (refl, (refl, tt))

abbrev library : Library
library = record {
  get_member_way = λ ref. some (place ref ∷ []);
  get_member_node = λ ref. some (place ref);
  create_linestring = λ locs. err geometry_error;
  create_point = λ loc. ok loc;
  multipoint_wkb = λ points. codes "00";
  multilinestring_wkb = λ lines. codes "01";
}

abbrev member : ItemType → ℤ → Member
member type ref = record { type = type; ref = ref; role = [] }

abbrev route : OsmObject
route = record stop {
  type = Osm.relation;
  members = member Osm.way (pos 0) ∷ member Osm.node (pos 4) ∷ member Osm.relation (pos 5) ∷ [];
}

abbrev collector : RelationCollector
collector = record {
  m_database_table = record copying { m_columns = id_column ∷ points_column ∷ lines_column ∷ [] };
}

route_sources : PlainSources table route
route_sources = record {
  iso = all_plain-StaysInside route.timestamp refl;
  wkb = all_plain-StaysInside _ refl;
}

route_gathers : Gathers library route.members (place (pos 4) ∷ []) []
route_gathers = Sending.next (Sending.absent refl) (
    Sending.next (Sending.member_point refl refl refl refl)
      (Sending.next (Sending.nested refl) Sending.none_left))

complete_relation-rows_example :
    (line : Bytes) × (Collector.complete_relation library server table route collector
      ≡ ok (record {
        m_database_table = record collector.m_database_table {
          sent = copy_data line ∷ collector.m_database_table.sent;
        };
      }))
    × ((more : Bytes)
        → rows (line ++ more)
          ≡ (value table route none id_column []
              ∷ codes "SRID=4326;00"
              ∷ codes "SRID=4326;01"
              ∷ []
              ∷ [])
            ∷ rows more)
unfolding values RelationLine.first_behind RelationLine.later_behind
complete_relation-rows_example =
    complete_relation-rows library server table id_column points_column lines_column [] [] collector
      route (place (pos 4) ∷ []) []
      (record { connected = refl; in_copy = refl; accepts = λ line. refl }) refl route_gathers
      route_sources (all_plain-StaysInside (codes "00") refl)
      (all_plain-StaysInside (codes "01") refl) (refl, tt) refl refl tt

-- A members database that is a list.
unfoldable positions : ℤ → List Tracked → List ℕ
positions id [] = []
positions id (e ∷ es) = let later = positions id es in if eq_ℤ id e.ref then e.at ∷ later else later

abbrev listed : MembersDatabase
listed = record {
  Db = List Tracked;
  fresh = [];
  track = λ at ref num es. record { at = at; ref = ref; num = num } ∷ es;
  find = positions;
}

abbrev street_tag : Tag
street_tag = record { key = codes "type"; value = codes "associatedStreet" }

abbrev street : OsmObject
street = record route { tags = street_tag ∷ [] }

all_relations-tracks_example :
    (m : Manager listed) × (all_relations listed (route ∷ street ∷ []) (Streets.manager listed)
      ≡ ok m)
    × (m.relations ≡ streets (route ∷ street ∷ []))
    × ((type : ItemType)
        → same_type type Osm.area ≡ false
        → (es : List Tracked) × (Streets.member_database listed type m ≡ ok (tracks listed es))
          × ((at : ℕ) (id : ℤ)
              → is_tracked at id es ≡ is_member_at type at id (streets (route ∷ street ∷ []))))
all_relations-tracks_example =
    all_relations-tracks listed (route ∷ street ∷ [])
      ((refl, (refl, (refl, tt))), ((refl, (refl, (refl, tt))), tt))
