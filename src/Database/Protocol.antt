-- ===== src/Database/Protocol.antt =====
-- The order of the calls on a connection: the flag of the table follows the mode of the server.
use cerepso.Base.{Bytes, Bool, true, false, List, [], ◌∷◌, ok, ◌≡◌}
use cerepso.Base.Int.{ℤ}
use cerepso.Database
use cerepso.Database.{
  Server, Fault, assertion, runtime_error, Table, Command, exec, copy_from, prepare, run_prepared,
  copy_data, copy_end, require, check_newline, last, require_ok,
}
use cerepso.Database.Queries

-- Histories that libpq allows, the latest call first, with the mode that they end in: in COPY mode
-- only data and its end, and these only there.
pub data Allowed : List Command → Bool → Type 0 where
  opened : Allowed [] false
  queried : {h : List Command} (q : Bytes) → Allowed h false → Allowed (exec q ∷ h) false
  prepared :
      {h : List Command} (name q : Bytes) → Allowed h false → Allowed (prepare name q ∷ h) false
  ran :
      {h : List Command} (name : Bytes) (params : List Bytes)
      → Allowed h false
      → Allowed (run_prepared name params ∷ h) false
  started : {h : List Command} (q : Bytes) → Allowed h false → Allowed (copy_from q ∷ h) true
  copied : {h : List Command} (line : Bytes) → Allowed h true → Allowed (copy_data line ∷ h) true
  ended : {h : List Command} → Allowed h true → Allowed (copy_end ∷ h) false

-- The calls that libpq refuses in COPY mode.
abbrev pub is_query : Command → Bool
is_query (exec q) = true
is_query (copy_from q) = true
is_query (prepare name q) = true
is_query (run_prepared name params) = true
is_query _ = false

-- libpq refuses every query in COPY mode.
pub record Refuses (server : Server) : Type 0 where
  pub busy :
      (h : List Command) (c : Command)
      → Allowed h true
      → is_query c ≡ true
      → server.accepts h c ≡ false

pub record Follows (t : Table) : Type 0 where
  pub allowed : Allowed t.sent t.m_copy_mode

-- One operation of the table that returns, whichever it is.
pub data Step (server : Server) (t : Table) : Table → Type 0 where
  send_line : {u : Table} (line : Bytes) → Database.send_line server line t ≡ ok u → Step server t u
  start_copy : {u : Table} → Database.start_copy server t ≡ ok u → Step server t u
  end_copy : {u : Table} → Database.end_copy server t ≡ ok u → Step server t u
  send_query : {u : Table} (q : Bytes) → Database.send_query server q t ≡ ok u → Step server t u
  send_begin : {u : Table} → Database.send_begin server t ≡ ok u → Step server t u
  commit : {u : Table} → Database.commit server t ≡ ok u → Step server t u
  create_prepared_statement :
      {u : Table} (name q : Bytes)
      → Database.create_prepared_statement server name q t ≡ ok u
      → Step server t u
  run_guarded :
      {u : Table} (name : Bytes) (params : List Bytes)
      → Queries.run_guarded server name params t ≡ ok u
      → Step server t u
  delete_from_list :
      {u : Table} (list : List ℤ) → Queries.delete_from_list server list t ≡ ok u → Step server t u
  query_rows :
      {u : Table} {rows : List (List Bytes)} (name : Bytes) (id : ℤ)
      → Queries.query_rows server name id t ≡ ok (rows, u)
      → Step server t u

-- Operations one after the other.
pub data Steps (server : Server) : Table → Table → Type 0 where
  done : {t : Table} → Steps server t t
  then_step : {t u v : Table} → Step server t u → Steps server u v → Steps server t v
