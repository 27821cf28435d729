-- ===== src/Database.antt =====
-- contrib/cerepso-postgres-backend/include/postgres_drivers/table.hpp: `Table`, one connection to
-- PostgreSQL for each table. An operation gives the table behind it, or the exception.
pub mod Queries
pub mod Members
pub mod Statements
pub mod Setup
pub mod Modes
pub mod Protocol
pub mod Order
pub mod Sending
use cerepso.Base.{
  ℕ, Bytes, Bool, true, false, not, List, [], ◌∷◌, ◌++◌, Option, none, some, if◌then◌else◌, ◌==◌,
  codes, Result, ok, err, ◌>>=◌, ◌≡◌, refl,
}
use cerepso.Columns.{Column}

-- The calls of libpq. `copy_from` is a `PQexec` that expects to enter COPY mode.
pub data Command : Type 0 where
  exec copy_from : Bytes → Command
  prepare : Bytes → Bytes → Command
  run_prepared : Bytes → List Bytes → Command
  copy_data : Bytes → Command
  copy_end : Command

-- The server is a parameter. `accepts` says that a call gives the status that the program expects,
-- after the calls of the connection so far, the latest first; `rows` and `affected` are the answer
-- to a prepared statement.
pub record Server : Type 0 where
  pub accepts : List Command → Command → Bool
  pub rows : List Command → Bytes → List Bytes → List (List Bytes)
  pub affected : List Command → Bytes → List Bytes → ℕ

-- `std::runtime_error`, a failed assertion, or an index outside of a string.
pub data Fault : Type 0 where
  runtime_error assertion out_of_range : Fault

pub record Table : Type 0 where
  pub m_name : Bytes
  pub m_columns : List Column
  pub m_connected : Bool
  pub m_copy_mode : Bool
  pub m_begin : Bool
  pub sent : List Command

-- The names in quotation marks, a comma behind each.
unfoldable pub column_list : List Column → Bytes
column_list [] = []
column_list (it ∷ columns) = b'"' ∷ (it.name ++ (b'"' ∷ b',' ∷ column_list columns))

-- `pop_back`
abbrev pub pop_back : Bytes → Bytes
pop_back [] = []
pop_back (c ∷ []) = []
pop_back (c ∷ d ∷ rest) = c ∷ pop_back (d ∷ rest)

unfoldable pub copy_command : Table → Bytes
unfolding column_list
copy_command t =
    pop_back (codes "COPY " ++ (t.m_name ++ (codes " (" ++ column_list t.m_columns)))
    ++ codes ") FROM STDIN"

-- The last character of a line. `line[line.size() - 1]` of an empty line lies outside of it.
abbrev pub last : Bytes → Option ℕ
last [] = none
last (c ∷ []) = some c
last (c ∷ d ∷ rest) = last (d ∷ rest)

abbrev pub check_newline : Option ℕ → Result Fault (Unit {0})
check_newline none = err out_of_range
check_newline (some c) = if c == b'\n' then ok tt else err runtime_error

-- An assertion, or a test that throws.
abbrev pub require : Bool → Fault → Result Fault (Unit {0})
require true e = ok tt
require false e = err e

pub require_ok : (b : Bool) (e : Fault) {x : Unit {0}} → require b e ≡ ok x → b ≡ true
require_ok true e h = refl
require_ok false e h = cc

module _ (server : Server) where
  unfoldable pub issue : Command → Table → Result Fault Table
  issue c t =
      if server.accepts t.sent c then ok (record t { sent = c ∷ t.sent }) else err runtime_error

  unfoldable pub send_line : Bytes → Table → Result Fault Table
  unfolding issue
  send_line line t = require t.m_connected assertion >>= λ _.
      require t.m_copy_mode runtime_error >>= λ _.
      check_newline (last line) >>= λ _. issue (copy_data line) t

  unfoldable pub start_copy : Table → Result Fault Table
  unfolding issue copy_command
  start_copy t = require t.m_connected assertion >>= λ _.
      issue (copy_from (copy_command t)) t >>= λ t'. ok (record t' { m_copy_mode = true })

  -- The flag is `m_copy_mode`.
  unfoldable pub end_copy_in : Bool → Table → Result Fault Table
  unfolding issue
  end_copy_in false t = ok t
  end_copy_in true t = require t.m_connected assertion >>= λ _.
      issue copy_end t >>= λ t'. ok (record t' { m_copy_mode = false })

  unfoldable pub end_copy : Table → Result Fault Table
  unfolding end_copy_in
  end_copy t = end_copy_in t.m_copy_mode t

  -- Without a connection it does nothing.
  unfoldable pub send_query_if : Bool → Bytes → Table → Result Fault Table
  unfolding issue
  send_query_if false query t = ok t
  send_query_if true query t =
      require (not t.m_copy_mode) runtime_error >>= λ _. issue (exec query) t

  unfoldable pub send_query : Bytes → Table → Result Fault Table
  unfolding send_query_if
  send_query query t = send_query_if t.m_connected query t

  unfoldable pub send_begin : Table → Result Fault Table
  unfolding send_query
  send_begin t = send_query (codes "BEGIN") t >>= λ t'. ok (record t' { m_begin = true })

  unfoldable pub commit : Table → Result Fault Table
  unfolding send_query
  commit t = send_query (codes "COMMIT") t >>= λ t'. ok (record t' { m_begin = false })

  -- Despite its comment it sends no BEGIN behind the COMMIT.
  unfoldable pub intermediate_commit : Table → Result Fault Table
  unfolding commit
  intermediate_commit t = require (not t.m_copy_mode) runtime_error >>= λ _.
      require t.m_begin assertion >>= λ _. commit t

  unfoldable pub create_prepared_statement : Bytes → Bytes → Table → Result Fault Table
  unfolding issue
  create_prepared_statement name query t = issue (prepare name query) t

  abbrev is_empty : Bytes → Bool
  is_empty [] = true
  is_empty (c ∷ rest) = false

  -- `~Table`, up to the closing of the connection.
  unfoldable pub close : Table → Result Fault Table
  unfolding end_copy commit
  close t = elim (is_empty t.m_name) [
    | true ↦ ok t
    | false ↦ end_copy t >>= λ t'. if t'.m_begin then commit t' else ok t'
  ]
