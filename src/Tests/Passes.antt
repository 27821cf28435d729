-- ===== src/Tests/Passes.antt =====
-- The second pass over small diffs.
use cerepso.Base.{
  Bytes, length, ap, ◌∙◌, arith, bind_ok, ok_injective, sym, ◌>>=◌, map, Bool, true, false, not,
  List, [], ◌∷◌, none, some, Result, ok, err, ◌≡◌, ◌≢◌, refl, codes, inl, inr,
}
use cerepso.Base.Int.{ℤ, pos}
use cerepso.Osm
use cerepso.Osm.{Location, OsmObject}
use cerepso.Database.Queries
use cerepso.Decimal.{decimal_ℤ}
use cerepso.Database.{Server, Table, Command, run_prepared, require, assertion, issue}
use cerepso.Database.Protocol
use cerepso.Database.Protocol.{is_query, Allowed}
use cerepso.Connections
use cerepso.Connections.{TableName, Environment, HandlerConfig}
use cerepso.Diff.Shared.{Fault, Geometries, geometry_error}
use cerepso.Diff.SecondPass
use cerepso.Diff.SecondPass.{DiffHandler2, points, ways, relations_progress}
use cerepso.Diff.SecondPass.Calls.{Takes}
use cerepso.Diff.SecondPass.Modes.{copies}
use cerepso.Diff.SecondPass.Updating.{Obliging}
use cerepso.Diff.SecondPass.Runs.{
  Arrival, node_arrives, way_arrives, area_arrives, relation_arrives, arrive, second_pass, Prepared,
  opened, arrived, second_pass-returns, second_pass-without_relations, Reached-modes,
}
use cerepso.Tests.Connection.{server, mode, Allowed-mode, fresh_table}
use cerepso.Tests.Lines.{stop}
use cerepso.Tests.Lines

takes : Takes server
takes = record { accepts = λ h b c a q. by_mode h b c (Allowed-mode a) q }
  where
    by_mode :
        (h : List Command) (b : Bool) (c : Command)
        → mode h ≡ b
        → is_query c ≡ not b
        → server.accepts h c ≡ true
    by_mode h true c m q = rw (q, m) refl
    by_mode h false c m q = rw (q, m) refl

abbrev config : HandlerConfig
config = record {
  untagged_nodes = true;
  updateable = true;
  m_hstore_all = true;
  m_areas = true;
  m_associated_streets = false;
  m_expiry_enabled = false;
  m_expire_options = Connections.all;
}

abbrev env : Environment
env = record {
  config = config;
  server = λ name. server;
  source = λ name. Lines.table;
  matches = λ name t. false;
  m_assoc_manager = none;
}

abbrev here : Location
here = record { x = pos 84000000; y = pos 490000000; valid = true }

abbrev geo : Geometries
geo = record {
  linestring = λ locs. ok (codes "01");
  polygon = λ locs. err geometry_error;
  multipolygon = λ object. err geometry_error;
  create_linestring = λ locs. ok locs;
  multipoint_wkb = λ locs. codes "02";
  multilinestring_wkb = λ lines. codes "03";
  locations_of = λ object. here ∷ here ∷ [];
  outer_rings = λ object. [];
  assemble = λ id ids members. none;
}

abbrev node_of : List Bytes → ℤ × ℤ
node_of row =
    (Queries.strtoll (Queries.first_value row), Queries.strtoll (Queries.second_value row))

no_rows :
    (name : Bytes) (id : ℤ) (t : Table) (r : List (List Bytes) × Table)
    → Queries.query_rows server name id t ≡ ok r
    → r.0 ≡ []
unfolding Queries.query_rows
no_rows name id t r e =
    let command = run_prepared name (decimal_ℤ id ∷ []) in
    let (tested, connected, issued) =
      bind_ok (require t.m_connected assertion) (λ _. issue server command t >>= λ u. ok ([], u))
        e in
    let (u, sent, answered) = bind_ok (issue server command t) (λ u. ok ([], u)) issued in
    ap (λ (z : List (List Bytes) × Table). z.0) (sym (ok_injective answered))

-- The server lists no nodes of any way.
none_listed :
    (id : ℤ) (t : Table) (r : List (ℤ × ℤ) × Table)
    → Queries.get_way_nodes server id t ≡ ok r
    → length r.0 ≢ 1
unfolding Queries.get_way_nodes Queries.sort_nodes
none_listed id t r e single =
    let (a, asked, kept) =
      bind_ok (Queries.query_rows server (codes "get_nodes") id t)
        (λ q. ok (Queries.sort_nodes server (map node_of q.0), q.1)) e in
    let nothing : 0 ≡ length r.0 =
      ap (λ (rs : List (List Bytes)). length (Queries.sort_nodes server (map node_of rs)))
        (sym (no_rows (codes "get_nodes") id t a asked))
      ∙ ap (λ (z : List (ℤ × ℤ) × Table). length z.0) (ok_injective kept) in
    absurd (omega arith)

obliging : Obliging env geo
obliging = record {
  linestring = λ locs v e. cc;
  polygon = λ locs v e. cc;
  multipolygon = λ object e. cc;
  create_linestring = λ locs some_points. (locs, refl);
  no_expiry = refl;
  way_nodes = λ id t r e. none_listed id t r e;
}

abbrev before : DiffHandler2
before = record {
  tables = λ name. fresh_table;
  m_location_index = record {
    get_node_location = λ id. ok here;
    get_node_location_from_persisent = λ id. ok here;
  };
  m_expire_tiles = [];
  m_pending_ways = record { ids = []; idx = 0 };
  m_pending_relations = record { ids = []; idx = 0 };
  m_mp_manager = some (λ id. none);
  m_new_areas_buffer = [];
  m_updated_areas_buffer = [];
  m_progress = points;
}

prepared : {Bad : Type 0} → Prepared Bad before
prepared = record {
  modes = λ name. (refl, inl (refl, Protocol.opened));
  progress = refl;
  locates = inl (λ id. (here, refl, refl));
  manager = inl (_, refl);
  no_new_areas = inl refl;
}

abbrev street : OsmObject
street = record stop { type = Osm.way }

abbrev route : OsmObject
route = record stop { type = Osm.relation }

abbrev diff : List Arrival
diff = node_arrives stop ∷ way_arrives street ∷ area_arrives street ∷ relation_arrives route ∷ []

second_pass-returns_example :
    (after : DiffHandler2) × (second_pass env geo diff before ≡ ok after)
    × ((name : TableName) → (after.tables name).m_copy_mode ≡ false)
second_pass-returns_example =
    second_pass-returns env geo diff before (λ name. takes) obliging prepared
      (refl, ((inr (pos 4, _, refl, omega arith), refl), (tt, (tt, tt)))) refl

abbrev state_of : Result Fault DiffHandler2 → DiffHandler2
state_of (ok h) = h
state_of (err e) = before

abbrev without_relations : List Arrival
without_relations = node_arrives stop ∷ way_arrives street ∷ []

after_ways : DiffHandler2
unfolding second_pass
after_ways = state_of (second_pass env geo without_relations before)

second_pass-without_relations_example :
    ((after_ways.tables Connections.ways_linear).m_copy_mode ≡ true)
    × ((after_ways.tables Connections.node_ways).m_copy_mode ≡ true)
unfolding after_ways second_pass cerepso.Database.send_line cerepso.Handler.Row.prepare_query
    cerepso.Escape.escape cerepso.Decimal.decimal_ℤ
second_pass-without_relations_example =
    second_pass-without_relations env geo without_relations before after_ways prepared refl refl

opened_state : DiffHandler2
unfolding SecondPass.open_nodes
opened_state = state_of (SecondPass.open_nodes env geo before)

way_state : DiffHandler2
unfolding opened_state arrive
way_state = state_of (arrive env geo (way_arrives street) opened_state)

Reached-modes_example :
    (way_state.tables Connections.ways_linear).m_copy_mode
    ≡ copies way_state.m_progress Connections.ways_linear
unfolding opened_state way_state SecondPass.open_nodes arrive cerepso.Database.send_line
    cerepso.Handler.Row.prepare_query cerepso.Escape.escape cerepso.Decimal.decimal_ℤ
Reached-modes_example =
    Reached-modes env geo way_state
      (arrived {h = opened_state} {h' = way_state} (way_arrives street)
        (opened {h = before} {h' = opened_state} prepared refl) refl)
      Connections.ways_linear

abbrev without_areas : DiffHandler2
without_areas = record before {
  tables =
      Connections.set Connections.areas (record fresh_table { m_connected = false }) before.tables;
}
