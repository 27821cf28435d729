-- ===== src/Tests/Connection.antt =====
-- A connection to a server that takes what libpq allows.
use cerepso.Base.{
  Bool, true, false, not, List, [], ◌∷◌, Result, ok, err, ◌≡◌, ◌>>=◌, refl, codes, if◌then◌else◌,
}
use cerepso.Columns
use cerepso.Columns.{Column}
use cerepso.Osm.{OsmObject}
use cerepso.Database
use cerepso.Database.{
  Server, Fault, out_of_range, Table, Command, exec, copy_from, prepare, run_prepared, copy_data,
  copy_end,
}
use cerepso.Database.Protocol
use cerepso.Database.Protocol.{Allowed, is_query, Refuses, Follows, Steps, done, then_step}
use cerepso.Database.Order.{Steps-Follows}
use cerepso.Database.Sending.{Copying, send_line_no_nodes}
use cerepso.Database.Setup
use cerepso.Database.Setup.{TableConfig, PostgresTable}
use cerepso.Handler.Members
use cerepso.Tests.Lines.{stop, id_column, highway}

-- The mode that a history ends in.
abbrev pub mode : List Command → Bool
mode [] = false
mode (copy_from q ∷ h) = true
mode (copy_end ∷ h) = false
mode (exec q ∷ h) = mode h
mode (prepare name q ∷ h) = mode h
mode (run_prepared name params ∷ h) = mode h
mode (copy_data line ∷ h) = mode h

abbrev pub server : Server
server = record {
  accepts = λ h c. if is_query c then not (mode h) else mode h;
  rows = λ h name params. [];
  affected = λ h name params. 0;
}

pub Allowed-mode : {h : List Command} {b : Bool} → Allowed h b → mode h ≡ b
Allowed-mode Protocol.opened = refl
Allowed-mode (Protocol.queried q a) = Allowed-mode a
Allowed-mode (Protocol.prepared name q a) = Allowed-mode a
Allowed-mode (Protocol.ran name params a) = Allowed-mode a
Allowed-mode (Protocol.started q a) = refl
Allowed-mode (Protocol.copied line a) = Allowed-mode a
Allowed-mode (Protocol.ended a) = refl

refuses : Refuses server
refuses = record { busy = λ h c a q. rw (q, Allowed-mode a) refl }

abbrev pub fresh_table : Table
fresh_table = record {
  m_name = codes "t";
  m_columns = id_column ∷ highway ∷ [];
  m_connected = true;
  m_copy_mode = false;
  m_begin = false;
  sent = [];
}

abbrev pub copying : Table
copying = record fresh_table { m_copy_mode = true; sent = copy_from (codes "COPY") ∷ [] }

after_line : Table
after_line = record copying { sent = copy_data (codes "1\n") ∷ copying.sent }

command : Database.copy_command fresh_table ≡ codes "COPY t (\"osm_id\",\"highway\") FROM STDIN"
unfolding Database.copy_command
command = refl

Steps-Follows_example : Follows after_line
unfolding after_line Database.send_line Database.issue
Steps-Follows_example =
    Steps-Follows server refuses
      (then_step {t = copying} {u = after_line} (Protocol.send_line (codes "1\n") refl) done)
      (record { allowed = Protocol.started (codes "COPY") Protocol.opened })

ready : Copying server copying
ready = record { connected = refl; in_copy = refl; accepts = λ line. refl }

abbrev bare : OsmObject
bare = record stop { nodes = [] }

send_line_no_nodes_example :
    (Members.prepare_node_way_query bare >>= λ line. Database.send_line server line copying)
    ≡ err out_of_range
send_line_no_nodes_example = send_line_no_nodes server copying ready bare refl

abbrev config : TableConfig
config = record {
  m_append = false;
  m_geom_indexes = true;
  m_all_geom_indexes = false;
  m_order_by_geohash = true;
  m_id_index = true;
}

abbrev new_table : PostgresTable
new_table = record { table = fresh_table; type = Columns.point; m_initialized = false }

abbrev table_of : Result Fault PostgresTable → PostgresTable
table_of (ok p) = p
table_of (err e) = new_table

initialized : PostgresTable
unfolding Setup.init
initialized = table_of (Setup.init server config new_table)

abbrev plain_table : Result Fault Table → Table
plain_table (ok t) = t
plain_table (err e) = fresh_table

finished : Table
unfolding Setup.finish_named initialized
finished = plain_table (Setup.finish_named server config Columns.point initialized.table)
