-- ===== src/Database/Queries.antt =====
-- src/postgres_table.cpp: the prepared statements that `PostgresTable` runs.
use cerepso.Base.{
  ℕ, Bytes, Bool, true, false, not, List, [], ◌∷◌, ◌++◌, map, length, if◌then◌else◌, ◌==◌, ltb,
  codes, Result, ok, ◌>>=◌,
}
use cerepso.Base.Int.{ℤ, pos, sub_ℕ, leb_ℤ}
use cerepso.Decimal.{decimal_ℤ, value_of}
use cerepso.Database.{Server, Fault, assertion, Table, exec, run_prepared, issue, require}

-- `strtoll` on a number with an optional sign.
unfoldable pub strtoll : Bytes → ℤ
strtoll [] = pos 0
strtoll (c ∷ s) = if c == b'-' then sub_ℕ 0 (value_of 0 s) else pos (value_of 0 (c ∷ s))

-- `PQgetvalue` of a row.
abbrev pub first_value : List Bytes → Bytes
first_value [] = []
first_value (v ∷ vs) = v

abbrev pub second_value : List Bytes → Bytes
second_value [] = []
second_value (v ∷ vs) = first_value vs

module _ (server : Server) where
  -- A statement that is run for its effect, where COPY mode is excluded by an assertion.
  unfoldable pub run_guarded : Bytes → List Bytes → Table → Result Fault Table
  run_guarded name params t =
      require (not t.m_copy_mode) assertion >>= λ _. issue server (run_prepared name params) t

  unfoldable pub delete_each : List ℤ → Table → Result Fault Table
  unfolding issue
  delete_each [] t = ok t
  delete_each (id ∷ list) t =
      issue server
        (exec (codes "DELETE FROM " ++ (t.m_name ++ (codes " WHERE osm_id = " ++ decimal_ℤ id)))) t
      >>= delete_each list

  unfoldable pub delete_from_list : List ℤ → Table → Result Fault Table
  unfolding delete_each
  delete_from_list list t = require (not t.m_copy_mode) assertion >>= λ _. delete_each list t

  -- The flag is `rows_affected`.
  unfoldable pub delete_object : ℤ → Table → Result Fault (Bool × Table)
  unfolding run_guarded
  delete_object id t = run_guarded (codes "delete_statement") (decimal_ℤ id ∷ []) t >>= λ t'.
      ok (ltb 0 (server.affected t.sent (codes "delete_statement") (decimal_ℤ id ∷ [])), t')

  unfoldable pub delete_way_node_list : ℤ → Table → Result Fault Table
  unfolding run_guarded
  delete_way_node_list id = run_guarded (codes "delete_way_node_list") (decimal_ℤ id ∷ [])

  unfoldable pub delete_relation_members : ℤ → Table → Result Fault Table
  unfolding run_guarded
  delete_relation_members id = run_guarded (codes "delete_relation_members") (decimal_ℤ id ∷ [])

  unfoldable pub update_geometry : ℤ → Bytes → Table → Result Fault Table
  unfolding run_guarded
  update_geometry id geometry t = require t.m_connected assertion >>= λ _.
      run_guarded (codes "update_geometry") (geometry ∷ decimal_ℤ id ∷ []) t

  unfoldable pub update_relation_member_geometry : ℤ → Bytes → Bytes → Table → Result Fault Table
  unfolding run_guarded
  update_relation_member_geometry id points lines t = require t.m_connected assertion >>= λ _.
      run_guarded (codes "update_relation_member_geometry") (points ∷ lines ∷ decimal_ℤ id ∷ []) t

  -- A statement that is run for its rows. COPY mode is not excluded.
  unfoldable pub query_rows : Bytes → ℤ → Table → Result Fault (List (List Bytes) × Table)
  query_rows name id t = require t.m_connected assertion >>= λ _.
      issue server (run_prepared name (decimal_ℤ id ∷ [])) t >>= λ t'.
      ok (server.rows t.sent name (decimal_ℤ id ∷ []), t')

  unfoldable pub count_osm_id : ℤ → Table → Result Fault (ℕ × Table)
  unfolding query_rows
  count_osm_id id t = query_rows (codes "count_osm_id") id t >>= λ r. ok (length r.0, r.1)

  unfoldable pub get_way_ids : ℤ → Table → Result Fault (List ℤ × Table)
  unfolding query_rows strtoll
  get_way_ids node_id t = query_rows (codes "get_way_ids") node_id t >>= λ r.
      ok (map (λ row. strtoll (first_value row)) r.0, r.1)

  unfoldable pub get_relation_ids_by_member : ℤ → Table → Result Fault (List ℤ × Table)
  unfolding query_rows strtoll
  get_relation_ids_by_member id t = query_rows (codes "get_relation_ids_by_member") id t >>= λ r.
      ok (map (λ row. strtoll (first_value row)) r.0, r.1)

  -- `MemberNode`: a node and its position. Nodes are compared by position.
  abbrev pub by_position : (ℤ × ℤ) → List (ℤ × ℤ) → List (ℤ × ℤ)
  by_position n [] = n ∷ []
  by_position n (m ∷ ms) = elim (leb_ℤ n.1 m.1) [ true ↦ n ∷ m ∷ ms | false ↦ m ∷ by_position n ms ]

  unfoldable pub sort_nodes : List (ℤ × ℤ) → List (ℤ × ℤ)
  sort_nodes [] = []
  sort_nodes (n ∷ ns) = by_position n (sort_nodes ns)

  unfoldable pub get_way_nodes : ℤ → Table → Result Fault (List (ℤ × ℤ) × Table)
  unfolding query_rows strtoll sort_nodes
  get_way_nodes way_id t = query_rows (codes "get_nodes") way_id t >>= λ r.
      ok
        (sort_nodes (map (λ row. (strtoll (first_value row), strtoll (second_value row))) r.0), r.1)
