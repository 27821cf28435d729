-- ===== src/Connections.antt =====
-- src/postgres_handler.hpp: the tables that the handlers write to, each with its own connection.
use cerepso.Base.{
  ℕ, Bytes, Bool, true, false, not, ◌&&◌, ◌||◌, List, [], ◌∷◌, Option, none, some, if◌then◌else◌,
  ◌==◌, Result, ok, ◌>>=◌, equal, codes,
}
use cerepso.Base.Int.{ℤ}
use cerepso.Osm.{Tag, ItemType, get_value_by_key}
use cerepso.Handler.Row
use cerepso.Database.{Server, Fault, Table}

pub data TableName : Type 0 where
  nodes untagged_nodes ways_linear areas : TableName
  node_ways node_relations way_relations relation_relations relations : TableName

abbrev pub code : TableName → ℕ
code nodes = 0
code untagged_nodes = 1
code ways_linear = 2
code areas = 3
code node_ways = 4
code node_relations = 5
code way_relations = 6
code relation_relations = 7
code relations = 8

pub data ExpireRelationsOptions : Type 0 where
  no_relations all no_route_relations : ExpireRelationsOptions

-- The options that the handlers read.
pub record HandlerConfig : Type 0 where
  pub untagged_nodes : Bool
  pub updateable : Bool
  pub m_hstore_all : Bool
  pub m_areas : Bool
  pub m_associated_streets : Bool
  pub m_expiry_enabled : Bool
  pub m_expire_options : ExpireRelationsOptions

abbrev pub is_route : Option Bytes → Bool
is_route none = false
is_route (some type) = equal type (codes "route")

unfoldable pub expire_this_relation : ExpireRelationsOptions → List Tag → Bool
unfolding get_value_by_key
expire_this_relation no_relations tags = false
expire_this_relation all tags = true
expire_this_relation no_route_relations tags = not (is_route (get_value_by_key tags (codes "type")))

-- The servers, what each table contributes to its lines, libosmium's test of tags against the filter
-- of a table, and the relation manager for associated streets, `none` being the null pointer.
pub record Environment : Type 0 where
  pub config : HandlerConfig
  pub server : TableName → Server
  pub source : TableName → Row.Table
  pub matches : TableName → Tag → Bool
  pub m_assoc_manager : Option (ℤ → ItemType → Option (List Tag))

abbrev pub Tables : Type 0
Tables = TableName → Table

abbrev pub set : TableName → Table → Tables → Tables
set name t ts = λ other. if code name == code other then t else ts other

abbrev pub has_tags : List Tag → Bool
has_tags [] = false
has_tags (t ∷ tags) = true

abbrev pub asked : Option (ℤ → ItemType → Option (List Tag)) → ℤ → ItemType → Option (List Tag)
asked none id type = none
asked (some relation_tags) id type = relation_tags id type

module _ (env : Environment) where
  -- An operation of one table.
  unfoldable pub on :
      TableName → (Server → Table → Result Fault Table) → Tables → Result Fault Tables
  on name op ts = op (env.server name) (ts name) >>= λ t. ok (set name t ts)

  -- One with an answer.
  unfoldable pub ask {ℓ} :
      {A : Type ℓ}
      → TableName
      → (Server → Table → Result Fault (A × Table))
      → Tables
      → Result Fault (A × Tables)
  ask name op ts = op (env.server name) (ts name) >>= λ r. ok (r.0, set name r.1 ts)

  abbrev pub any_matches : TableName → List Tag → Bool
  any_matches name [] = false
  any_matches name (t ∷ tags) = env.matches name t || any_matches name tags

  -- `PostgresTable::has_interesting_tags`
  unfoldable pub has_interesting_tags : TableName → List Tag → Bool
  has_interesting_tags name tags =
      (has_tags tags && env.config.m_hstore_all) || any_matches name tags

  unfoldable pub get_relation_tags_to_apply : ℤ → ItemType → Option (List Tag)
  get_relation_tags_to_apply id type =
      if env.config.m_associated_streets then asked env.m_assoc_manager id type else none
