-- ===== src/Diff/Shared.antt =====
-- src/expire_tiles.hpp, src/update_location_handler.hpp: what the two passes over a diff call.
use cerepso.Base.{Bytes, List, Option, Result, ok, err}
use cerepso.Base.Int.{ℤ}
use cerepso.Osm.{Location, OsmObject}
use cerepso.Database

-- An exception of the database access, of libosmium or of GEOS, or what ends the program: a null
-- pointer, a read out of range, a failed assertion.
pub data Fault : Type 0 where
  database : Database.Fault → Fault
  not_found invalid_location illegal_argument null_pointer out_of_range assertion : Fault

-- The calls of `ExpireTiles`, an abstract class. `along_line` is the call with a linestring of GEOS.
pub data ExpiryCall : Type 0 where
  at_point : Location → ExpiryCall
  along along_line : List Location → ExpiryCall

abbrev pub from_database {ℓ} : {A : Type ℓ} → Result Database.Fault A → Result Fault A
from_database (ok a) = ok a
from_database (err e) = err (database e)

-- `UpdateLocationHandler`, as far as it is asked for locations.
pub record LocationIndex : Type 0 where
  pub get_node_location : ℤ → Result Fault Location
  pub get_node_location_from_persisent : ℤ → Result Fault Location

-- What the WKB factory throws.
pub data FactoryFault : Type 0 where
  geometry_error invalid_coordinates : FactoryFault

-- A way as the assembler of areas reads it.
pub record MemberWay : Type 0 where
  pub id : ℤ
  pub locations : List Location

-- The WKB factory, GEOS, and libosmium: the locations that a way carries, the outer rings of an
-- area, and the assembler, which is given the id of a relation, the ids of its members and the ways.
-- It gives the areas that it writes into its buffer, or `none` if it throws `invalid_location`.
pub record Geometries : Type 0 where
  pub linestring : List Location → Result FactoryFault Bytes
  pub polygon : List Location → Result FactoryFault Bytes
  pub multipolygon : OsmObject → Result FactoryFault Bytes
  pub create_linestring : List Location → Result Fault (List Location)
  pub multipoint_wkb : List Location → Bytes
  pub multilinestring_wkb : List (List Location) → Bytes
  pub locations_of : OsmObject → List Location
  pub outer_rings : OsmObject → List (List Location)
  pub assemble : ℤ → List ℤ → List MemberWay → Option (List OsmObject)
