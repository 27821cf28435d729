-- ===== src/Database/Sending.antt =====
-- Which lines of the handlers `send_line` takes.
use cerepso.Base.{
  ℕ, ◌+◌, Bytes, true, List, [], ◌∷◌, ◌++◌, ◌^◌, ◌-◌, ◌≤◌, length, lt→ltb, arith, Option, some, ok,
  err, ◌>>=◌, Holds, returned, ◌≡◌, refl, ap,
}
use cerepso.Base.Int.{ℤ}
use cerepso.Osm.{OsmObject, Tag}
use cerepso.Columns.{Column}
use cerepso.Database
use cerepso.Database.{Server, Fault, out_of_range, Table, copy_data, last, check_newline}
use cerepso.Handler.Row
use cerepso.Handler.Members

pub last-newline : (s : Bytes) → last (s ++ b'\n' ∷ []) ≡ some b'\n'
last-newline [] = refl
last-newline (c ∷ []) = refl
last-newline (c ∷ d ∷ s) = last-newline (d ∷ s)

-- The list of up to 2^16 - 1 nodes ends in a newline.
pub node_way_loop-Holds :
    {Bad : Type 0} (way_id : ℤ) (i : ℕ) (nodes : List ℤ) (q : Bytes)
    → i + length nodes ≤ 2 ^ 16 - 1
    → Holds Bad
        (λ line. last line ≡ some b'\n')
        (Members.node_way_loop way_id i nodes (q ++ b'\n' ∷ []))
unfolding Members.node_way_loop Members.node_line
node_way_loop-Holds way_id i [] q h = returned (last-newline q)
node_way_loop-Holds way_id i (ref ∷ nodes) q h =
    rw (lt→ltb i (2 ^ 16 - 1) (omega arith))
      (node_way_loop-Holds way_id (i + 1) nodes _ (omega arith))

pub prepare_node_way_query-Holds :
    {Bad : Type 0} (way : OsmObject) (ref : ℤ) (rest : List ℤ)
    → way.nodes ≡ ref ∷ rest
    → length way.nodes ≤ 2 ^ 16 - 1
    → Holds Bad (λ line. last line ≡ some b'\n') (Members.prepare_node_way_query way)
unfolding Members.prepare_node_way_query Members.node_way_loop Members.node_line
prepare_node_way_query-Holds way ref rest h few =
    rw h (node_way_loop-Holds way.id 1 rest _ (shorter few))
  where
    shorter : length way.nodes ≤ 2 ^ 16 - 1 → 1 + length rest ≤ 2 ^ 16 - 1
    shorter few = omega (arith, ap (λ (ns : List ℤ). length ns) h)

-- A table with a connection in COPY mode whose server takes data.
pub record Copying (server : Server) (t : Table) : Type 0 where
  pub connected : t.m_connected ≡ true
  pub in_copy : t.m_copy_mode ≡ true
  pub accepts : (line : Bytes) → server.accepts t.sent (copy_data line) ≡ true

module _ (server : Server) (t : Table) (copying : Copying server t) where
  pub send_line-last :
      (line : Bytes)
      → last line ≡ some b'\n'
      → Database.send_line server line t ≡ ok (record t { sent = copy_data line ∷ t.sent })
  unfolding Database.send_line Database.issue
  send_line-last line h = rw (copying.connected, copying.in_copy, h, copying.accepts line) refl

  -- In COPY mode the table takes the line of any object, for any columns.
  pub send_line-prepare_query :
      (source : Row.Table) (cols : List Column) (o : OsmObject) (rel : Option (List Tag))
      → let line = Row.prepare_query source cols o rel in
        Database.send_line server line t ≡ ok (record t { sent = copy_data line ∷ t.sent })
  unfolding Row.prepare_query
  send_line-prepare_query source cols o rel =
      send_line-last _
        (last-newline (Row.fields_loop source o rel cols (Row.empty_row source)).query)

  -- For a way without nodes `prepare_node_way_query` gives an empty line, and in COPY mode
  -- `send_line` reads in front of the first character of it.
  pub send_line_no_nodes :
      (way : OsmObject)
      → way.nodes ≡ []
      → (Members.prepare_node_way_query way >>= λ line. Database.send_line server line t)
        ≡ err out_of_range
  unfolding Database.send_line Members.prepare_node_way_query Members.node_way_loop
  send_line_no_nodes way h = rw (copying.connected, copying.in_copy, h) refl
