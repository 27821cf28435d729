-- ===== src/Osm.antt =====
-- The OSM objects that libosmium hands to the handlers, as far as the program reads them.
use cerepso.Base.{ℕ, Bytes, Bool, List, [], ◌∷◌, Option, none, some, if◌then◌else◌, equal}
use cerepso.Base.Int.{ℤ}

pub record Tag : Type 0 where
  pub key : Bytes
  pub value : Bytes

-- `osmium::item_type`, the kinds that occur here.
pub data ItemType : Type 0 where
  node way relation area : ItemType

-- A location in units of 10^-7 degrees, as libosmium stores it; `valid` is its own test.
pub record Location : Type 0 where
  pub x : ℤ
  pub y : ℤ
  pub valid : Bool

pub record Member : Type 0 where
  pub type : ItemType
  pub ref : ℤ
  pub role : Bytes

-- One record for all kinds; the fields that a kind lacks are not read for it. `timestamp` is the
-- text that `to_iso` gives.
pub record OsmObject : Type 0 where
  pub type : ItemType
  pub id : ℤ
  pub version : ℕ
  pub uid : ℕ
  pub changeset : ℕ
  pub user : Bytes
  pub timestamp : Bytes
  pub deleted : Bool
  pub tags : List Tag
  pub location : Location
  pub nodes : List ℤ
  pub members : List Member
  pub from_way : Bool
  pub orig_id : ℤ

-- `get_value_by_key`: the value of the first tag with the key.
unfoldable pub get_value_by_key : List Tag → Bytes → Option Bytes
get_value_by_key [] key = none
get_value_by_key (t ∷ tags) key =
    if equal t.key key then some t.value else get_value_by_key tags key
