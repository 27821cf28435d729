-- ===== src/Database/Members.antt =====
-- src/postgres_table.cpp: the members of a relation and the geometry of a way, as the database has
-- them.
use cerepso.Base.{
  Bytes, not, true, false, List, [], ◌∷◌, ◌++◌, Option, none, some, map, codes, Result, ok, ◌>>=◌,
  Bool, if◌then◌else◌,
}
use cerepso.Base.Int.{ℤ, pos, leb_ℤ}
use cerepso.Osm.{ItemType, Location}
use cerepso.Columns.{TableType, point}
use cerepso.HouseNumber.{to_int}
use cerepso.Database.{Server, Fault, assertion, Table, require}
use cerepso.Database.Queries.{query_rows, strtoll, first_value, second_value}

pub record MemberIdTypePos : Type 0 where
  pub id : ℤ
  pub type : ItemType
  pub pos : ℤ

-- `std::sort`: members are compared by position.
abbrev pub by_pos : MemberIdTypePos → List MemberIdTypePos → List MemberIdTypePos
by_pos m [] = m ∷ []
by_pos m (n ∷ ns) = elim (leb_ℤ m.pos n.pos) [ true ↦ m ∷ n ∷ ns | false ↦ n ∷ by_pos m ns ]

unfoldable pub sort_members : List MemberIdTypePos → List MemberIdTypePos
sort_members [] = []
sort_members (m ∷ ms) = by_pos m (sort_members ms)

abbrev pub member_of : ItemType → List Bytes → MemberIdTypePos
member_of type row = record {
  id = strtoll (first_value row);
  type = type;
  pos = to_int (strtoll (second_value row));
}

abbrev pub first_row : List (List Bytes) → Option Bytes
first_row [] = none
first_row (row ∷ rows) = some (first_value row)

abbrev pub then_read {ℓ} : {A : Type ℓ} → (Bytes → Option A) → Option Bytes → Option A
then_read read_hex none = none
then_read read_hex (some text) = read_hex text

module _ (server : Server) where
  -- It appends to `members`.
  unfoldable pub get_members_by_id_and_type :
      List MemberIdTypePos → ℤ → ItemType → Table → Result Fault (List MemberIdTypePos × Table)
  unfolding query_rows strtoll
  get_members_by_id_and_type members id type t = require t.m_connected assertion >>= λ _.
      require (not t.m_copy_mode) assertion >>= λ _.
      query_rows server (codes "get_members_by_relation_id") id t >>= λ r.
      ok (members ++ map (member_of type) r.0, r.1)

  -- The WKB text, and what GEOS reads from it: `none` if it is no linestring.
  unfoldable pub get_linestring {ℓ} :
      {A : Type ℓ} → (Bytes → Option A) → ℤ → Table → Result Fault (Option A × Table)
  unfolding query_rows
  get_linestring read_hex id t = require t.m_connected assertion >>= λ _.
      require (not t.m_copy_mode) assertion >>= λ _.
      query_rows server (codes "get_linestring") id t >>= λ r.
      ok (then_read read_hex (first_row r.0), r.1)

-- `Location{}` of libosmium.
abbrev pub undefined_location : Location
undefined_location = record { x = pos 2147483647; y = pos 2147483647; valid = false }

abbrev pub is_point : TableType → Bool
is_point point = true
is_point _ = false

abbrev pub located : (Bytes → Bytes → Location) → List (List Bytes) → Location
located read [] = undefined_location
located read (row ∷ rows) = read (first_value row) (second_value row)

-- `at_doubles` and `at_ints` are the locations of two coordinates that `atof` and `atoi` read.
module _ (server : Server) (at_doubles at_ints : Bytes → Bytes → Location) where
  unfoldable pub get_point : TableType → ℤ → Table → Result Fault (Location × Table)
  unfolding query_rows
  get_point type id t =
      let name =
        if is_point type
        then codes "get_location_from_point_table"
        else codes "get_location_from_untagged_nodes_table" in
      require t.m_connected assertion >>= λ _. require (not t.m_copy_mode) assertion >>= λ _.
      query_rows server name id t >>= λ r.
      ok (located (if is_point type then at_doubles else at_ints) r.0, r.1)
