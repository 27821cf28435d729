-- ===== src/Database/Modes.antt =====
-- In which mode `init` and the destructor leave the connection.
use cerepso.Base.{
  ℕ, suc, Bytes, Bool, true, false, not, List, [], ◌∷◌, Result, ok, ◌>>=◌, bind_ok, ok_injective,
  ◌≡◌, refl, sym, ap, ◌∙◌, arith, Bool-cases, inl, inr,
}
use cerepso.Columns.{Column, TableType}
use cerepso.Database
use cerepso.Database.{
  Server, Fault, Table, assertion, runtime_error, require, copy_end, copy_from, Command, exec,
}
use cerepso.Database.Statements
use cerepso.Database.Setup
use cerepso.Database.Setup.{PostgresTable, TableConfig}

module _ (server : Server) where
  -- An operation that leaves `m_copy_mode` as it was.
  abbrev Keeps : (Table → Result Fault Table) → Type 0
  Keeps f = (t u : Table) → f t ≡ ok u → u.m_copy_mode ≡ t.m_copy_mode

  Keeps-then : (f g : Table → Result Fault Table) → Keeps f → Keeps g → Keeps (λ t. f t >>= g)
  Keeps-then f g p q t u e = let (v, e1, e2) = bind_ok (f t) g e in q v u e2 ∙ p t v e1

  issue-Keeps : (c : Command) → Keeps (Database.issue server c)
  unfolding Database.issue
  issue-Keeps c t u e = ground arith

  send_query-Keeps : (q : Bytes) → Keeps (Database.send_query server q)
  unfolding Database.send_query Database.send_query_if
  send_query-Keeps q t u e = if_on t.m_connected e
    where
      if_on :
          (b : Bool) → Database.send_query_if server b q t ≡ ok u → u.m_copy_mode ≡ t.m_copy_mode
      if_on false e = ap (λ (v : Table). v.m_copy_mode) (sym (ok_injective e))
      if_on true e =
          let (x, p, e1) = bind_ok (require (not t.m_copy_mode) runtime_error) _ e in
          issue-Keeps (exec q) t u e1

  create_table-Keeps : Keeps (Setup.create_table server)
  unfolding Setup.create_table
  create_table-Keeps t u e =
      let (v, e1, e2) = bind_ok (Database.send_query server _ t) _ e in
      send_query-Keeps _ v u e2 ∙ send_query-Keeps _ t v e1

  prepare_all-Keeps : (ss : List (Bytes × Bytes)) → Keeps (Statements.prepare_all server ss)
  unfolding Statements.prepare_all Database.create_prepared_statement
  prepare_all-Keeps [] t u e = ap (λ (v : Table). v.m_copy_mode) (sym (ok_injective e))
  prepare_all-Keeps ((name, query) ∷ ss) t u e =
      let (v, e1, e2) = bind_ok (Database.issue server _ t) (Statements.prepare_all server ss) e in
      prepare_all-Keeps ss v u e2 ∙ issue-Keeps _ t v e1

  start_copy-mode : (t u : Table) → Database.start_copy server t ≡ ok u → u.m_copy_mode ≡ true
  unfolding Database.start_copy
  start_copy-mode t u e =
      let (x, p, e1) = bind_ok (require t.m_connected assertion) _ e in
      let (v, q, e2) = bind_ok (Database.issue server _ t) _ e1 in
      ap (λ (w : Table). w.m_copy_mode) (sym (ok_injective e2))

  when-Keeps : (b : Bool) (f : Table → Result Fault Table) → Keeps f → Keeps (Setup.when server b f)
  when-Keeps true f k t u e = k t u e
  when-Keeps false f k t u e = ap (λ (v : Table). v.m_copy_mode) (sym (ok_injective e))

  when-start_copy :
      (b : Bool) (t u : Table)
      → Setup.when server b (Database.start_copy server) t ≡ ok u
      → t.m_copy_mode ≡ false
      → u.m_copy_mode ≡ b
  when-start_copy true t u e m = start_copy-mode t u e
  when-start_copy false t u e m = ap (λ (v : Table). v.m_copy_mode) (sym (ok_injective e)) ∙ m

  -- If `init` returns for a table that is not in COPY mode, the table is in COPY mode except in
  -- append mode.
  pub init-mode :
      (config : TableConfig) (p q : PostgresTable)
      → Setup.init server config p ≡ ok q
      → p.table.m_copy_mode ≡ false
      → q.table.m_copy_mode ≡ not config.m_append
  unfolding Setup.init Statements.create_prepared_statements
  init-mode config p q e m =
      let create = Setup.when server (not config.m_append) (Setup.create_table server) in
      let prepare = Statements.create_prepared_statements server p.type in
      let (t, e1, e2) = bind_ok (create p.table >>= prepare) _ e in
      let (v, e3, e4) = bind_ok (create p.table) prepare e1 in
      let (w, e5, e6) =
        bind_ok (Setup.when server (not config.m_append) (Database.start_copy server) t) _ e2 in
      let kept =
        prepare_all-Keeps _ v t e4
        ∙ when-Keeps (not config.m_append) _ create_table-Keeps p.table v e3 in
      ap (λ (r : PostgresTable). r.table.m_copy_mode) (sym (ok_injective e6))
      ∙ when-start_copy (not config.m_append) t w e5 (kept ∙ m)

  end_copy-mode : (t u : Table) → Database.end_copy server t ≡ ok u → u.m_copy_mode ≡ false
  unfolding Database.end_copy Database.end_copy_in
  end_copy-mode t u e = in_mode t.m_copy_mode refl e
    where
      in_mode :
          (b : Bool)
          → t.m_copy_mode ≡ b
          → Database.end_copy_in server b t ≡ ok u
          → u.m_copy_mode ≡ false
      in_mode false m e = ap (λ (v : Table). v.m_copy_mode) (sym (ok_injective e)) ∙ m
      in_mode true m e =
          let (x, p, e1) = bind_ok (require t.m_connected assertion) _ e in
          let (v, q, e2) = bind_ok (Database.issue server copy_end t) _ e1 in
          ap (λ (w : Table). w.m_copy_mode) (sym (ok_injective e2))

  when-end_copy :
      (b : Bool) (t u : Table)
      → t.m_copy_mode ≡ b
      → Setup.when server b (Database.end_copy server) t ≡ ok u
      → u.m_copy_mode ≡ false
  when-end_copy true t u m e = end_copy-mode t u e
  when-end_copy false t u m e = ap (λ (v : Table). v.m_copy_mode) (sym (ok_injective e)) ∙ m

  begin-Keeps :
      (query : Bytes) (b : Bool)
      → Keeps (λ t. Database.send_query server query t >>= λ u. ok (record u { m_begin = b }))
  begin-Keeps query b t u e =
      let (v, e1, e2) = bind_ok (Database.send_query server query t) _ e in
      ap (λ (w : Table). w.m_copy_mode) (sym (ok_injective e2)) ∙ send_query-Keeps query t v e1

  query-then :
      (q : Bytes) (g : Table → Result Fault Table) (t u : Table)
      → Keeps g
      → (Database.send_query server q t >>= g) ≡ ok u
      → u.m_copy_mode ≡ t.m_copy_mode
  query-then q g t u k e =
      let (v, e1, e2) = bind_ok (Database.send_query server q t) g e in
      k v u e2 ∙ send_query-Keeps q t v e1

  order_by-Keeps : (cols : List Column) → Keeps (Setup.order_by server cols)
  unfolding Setup.order_by
  order_by-Keeps [] t u e = ap (λ (v : Table). v.m_copy_mode) (sym (ok_injective e))
  order_by-Keeps (c ∷ cols) t u e = elim (Bool-cases (Setup.is_geometry c.type)) [
    | inr other ↦ order_by-Keeps cols t u (rw (Setup.order_by, other) at e)
    | inl geometry ↦
        query-then _ _ t u (λ v w e1. query-then _ _ v w (λ x y. send_query-Keeps _ x y) e1)
          (rw (Setup.order_by, geometry) at e)
  ]

  geom_index-Keeps : (cols : List Column) → Keeps (Setup.geom_index server cols)
  unfolding Setup.geom_index
  geom_index-Keeps [] t u e = ap (λ (v : Table). v.m_copy_mode) (sym (ok_injective e))
  geom_index-Keeps (c ∷ cols) t u e = elim (Bool-cases (Setup.is_geometry c.type)) [
    | inr other ↦ geom_index-Keeps cols t u (rw (Setup.geom_index, other) at e)
    | inl geometry ↦
        query-then _ _ t u (geom_index-Keeps cols) (rw (Setup.geom_index, geometry) at e)
  ]

  id_index-Keeps : (n : ℕ) (cols : List Column) → Keeps (Setup.id_index server n cols)
  unfolding Setup.id_index
  id_index-Keeps n [] t u e = ap (λ (v : Table). v.m_copy_mode) (sym (ok_injective e))
  id_index-Keeps n (c ∷ cols) t u e = elim (Bool-cases (Setup.is_id c.column_class)) [
    | inr other ↦ id_index-Keeps n cols t u (rw (Setup.id_index, other) at e)
    | inl id ↦ query-then _ _ t u (id_index-Keeps (suc n) cols) (rw (Setup.id_index, id) at e)
  ]

  -- The indexes of the destructor.
  indexes-Keeps :
      (config : TableConfig)
      → Keeps (λ t.
        Setup.when server config.m_order_by_geohash (Setup.order_by_geohash server) t
        >>= Setup.create_geom_index server)
  unfolding Setup.order_by_geohash Setup.create_geom_index
  indexes-Keeps config =
      Keeps-then _ _
        (when-Keeps _ _ (λ t. when-Keeps t.m_connected _ (order_by-Keeps t.m_columns) t))
        (λ t. when-Keeps t.m_connected _ (geom_index-Keeps t.m_columns) t)

  -- Behind the work of the destructor on an initialized table with a name, the table is not in COPY
  -- mode, whatever its mode was and whichever queries for indexes were sent.
  pub finish_named-mode :
      (config : TableConfig) (type : TableType) (t u : Table)
      → Setup.finish_named server config type t ≡ ok u
      → u.m_copy_mode ≡ false
  unfolding Setup.finish_named Setup.create_id_index Database.commit
  finish_named-mode config type t u e =
      let (v1, e1, e2) =
        bind_ok (Setup.when server t.m_copy_mode (Database.end_copy server) t) _ e in
      let (v3, e3, e4) = bind_ok _ _ e2 in
      let (v2, e5, e6) = bind_ok (Setup.when server v1.m_begin (Database.commit server) v1) _ e3 in
      when-Keeps _ _ (λ w. when-Keeps w.m_connected _ (id_index-Keeps 1 w.m_columns) w) v3 u e4
      ∙ when-Keeps _ _ (indexes-Keeps config) v2 v3 e6
      ∙ when-Keeps v1.m_begin _ (begin-Keeps _ false) v1 v2 e5
      ∙ when-end_copy t.m_copy_mode t v1 refl e1
