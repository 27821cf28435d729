-- ===== src/Handler/Append.antt =====
-- src/postgres_handler.cpp: the routines that append one value to a line.
use cerepso.Base.{
  ℕ, ◌-◌, ◌%◌, ◌^◌, Bytes, Bool, true, false, List, [], ◌∷◌, ◌++◌, some, if◌then◌else◌, ltb, codes,
}
use cerepso.Base.Int.{ℤ, pos, negsuc}
use cerepso.Decimal.{decimal, decimal_ℤ}
use cerepso.Escape.{escape, escape4array}
use cerepso.Osm.{ItemType, node, way, relation, area, Member}

unfoldable pub add_osm_id : Bytes → ℤ → Bytes
add_osm_id ss id = ss ++ decimal_ℤ id

unfoldable pub add_int32 : Bytes → ℤ → Bytes
add_int32 ss number = ss ++ decimal_ℤ number

-- `static_cast<int16_t>` of a number that is not negative.
abbrev pub to_int16 : ℕ → ℤ
to_int16 n = let low = n % 2 ^ 16 in if ltb low (2 ^ 15) then pos low else negsuc (2 ^ 16 - low - 1)

unfoldable pub add_int16 : Bytes → ℤ → Bytes
add_int16 ss number = ss ++ decimal_ℤ number

unfoldable pub add_username : Bytes → Bytes → Bytes
add_username ss name = escape (some name) ss

unfoldable pub add_uid : Bytes → ℕ → Bytes
add_uid ss n = ss ++ decimal n

unfoldable pub add_version : Bytes → ℕ → Bytes
add_version ss n = ss ++ decimal n

-- `iso` is what `to_iso` gives.
unfoldable pub add_timestamp : Bytes → Bytes → Bytes
add_timestamp ss iso = ss ++ iso

unfoldable pub add_changeset : Bytes → ℕ → Bytes
add_changeset ss n = ss ++ decimal n

-- The loops over the members of a list; the flag is `i != nodes.begin()`.
unfoldable pub ids_loop : Bool → List ℤ → Bytes → Bytes
ids_loop later [] query = query
ids_loop later (id ∷ ids) query =
    ids_loop true ids ((if later then query ++ codes ", " else query) ++ decimal_ℤ id)

unfoldable pub add_way_nodes : List ℤ → Bytes → Bytes
unfolding ids_loop
add_way_nodes nodes query = ids_loop false nodes (query ++ b'{' ∷ []) ++ b'}' ∷ []

unfoldable pub member_ids_loop : Bool → List Member → Bytes → Bytes
member_ids_loop later [] query = query
member_ids_loop later (m ∷ members) query =
    member_ids_loop true members ((if later then query ++ codes ", " else query) ++ decimal_ℤ m.ref)

unfoldable pub add_member_ids : List Member → Bytes → Bytes
unfolding member_ids_loop
add_member_ids members query = member_ids_loop false members (query ++ b'{' ∷ []) ++ b'}' ∷ []

unfoldable pub roles_loop : Bool → List Member → Bytes → Bytes
roles_loop later [] query = query
roles_loop later (m ∷ members) query =
    roles_loop true members (
      escape4array m.role ((if later then query ++ codes ", " else query) ++ b'"' ∷ [])
      ++ b'"' ∷ [])

unfoldable pub add_member_roles : List Member → Bytes → Bytes
unfolding roles_loop
add_member_roles members query = roles_loop false members (query ++ b'{' ∷ []) ++ b'}' ∷ []

-- `item_type_to_char` of libosmium.
abbrev pub item_type_to_char : ItemType → ℕ
item_type_to_char node = b'n'
item_type_to_char way = b'w'
item_type_to_char relation = b'r'
item_type_to_char area = b'a'

unfoldable pub types_loop : Bool → List Member → Bytes → Bytes
types_loop later [] query = query
types_loop later (m ∷ members) query =
    types_loop true members
      ((if later then query ++ codes ", " else query) ++ item_type_to_char m.type ∷ [])

unfoldable pub add_member_types : List Member → Bytes → Bytes
unfolding types_loop
add_member_types members query = types_loop false members (query ++ b'{' ∷ []) ++ b'}' ∷ []
