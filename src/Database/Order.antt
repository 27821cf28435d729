-- ===== src/Database/Order.antt =====
-- The operations of `Table` and `PostgresTable` in COPY mode: how the flag of the table goes with the mode of the server.
use cerepso.Base.{
  Bytes, Bool, true, false, not, List, [], ◌∷◌, ok, ◌>>=◌, ◌≡◌, refl, arith, codes, Bool-cases, inl,
  inr, subst, bind_ok, ok_injective, sym, ap, ◌∙◌,
}
use cerepso.Base.Int.{ℤ}
use cerepso.Database
use cerepso.Database.{
  Server, Fault, assertion, runtime_error, Table, Command, exec, copy_from, prepare, run_prepared,
  copy_data, copy_end, require, check_newline, last, require_ok,
}
use cerepso.Database.Queries
use cerepso.Database.Protocol.{
  Allowed, queried, prepared, ran, started, copied, ended, is_query, Refuses, Follows, Step, Steps,
  done, then_step, send_line, start_copy, end_copy, send_query, send_begin, commit,
  create_prepared_statement, run_guarded, delete_from_list, query_rows,
}

module _ (server : Server) where
  issue-ok :
      (c : Command) (t u : Table)
      → Database.issue server c t ≡ ok u
      → (server.accepts t.sent c ≡ true) × (u ≡ record t { sent = c ∷ t.sent })
  unfolding Database.issue
  issue-ok c t u e = ground arith

  -- A call that leaves the flag as it was.
  by_issue :
      {b : Bool} (c : Command) (t u : Table)
      → Database.issue server c t ≡ ok u
      → t.m_copy_mode ≡ b
      → Allowed (c ∷ t.sent) b
      → Follows u
  by_issue c t u e m a =
      subst Follows (sym (issue-ok c t u e).1)
        (record { allowed = subst (Allowed (c ∷ t.sent)) (sym m) a })

  send_line-Follows :
      (line : Bytes) (t u : Table) → Follows t → Database.send_line server line t ≡ ok u → Follows u
  unfolding Database.send_line
  send_line-Follows line t u f e =
      let (x, p, e1) = bind_ok (require t.m_connected assertion) _ e in
      let (y, q, e2) = bind_ok (require t.m_copy_mode runtime_error) _ e1 in
      let (z, r, e3) = bind_ok (check_newline (last line)) _ e2 in
      let m = require_ok t.m_copy_mode runtime_error q in
      by_issue (copy_data line) t u e3 m (copied line (subst (Allowed t.sent) m f.allowed))

  -- What the server accepts outside of COPY mode, if it is a query.
  not_in_copy :
      Refuses server
      → (c : Command) (t u : Table) → is_query c ≡ true
      → Follows t
      → Database.issue server c t ≡ ok u
      → t.m_copy_mode ≡ false
  not_in_copy refuses c t u q f e = elim (Bool-cases t.m_copy_mode) [
    | inr out ↦ out
    | inl inside ↦ absurd (
        true_false (
          (sym (issue-ok c t u e).0)
          ∙ refuses.busy t.sent c (subst (Allowed t.sent) inside f.allowed) q))
  ]
    where
      true_false : true ≡ false → ⊥
      true_false h = ground (arith, h)

  query-Follows :
      Refuses server
      → (c : Command) (t u : Table) → is_query c ≡ true
      → ((h : List Command) → Allowed h false → Allowed (c ∷ h) false)
      → Follows t
      → Database.issue server c t ≡ ok u
      → Follows u
  query-Follows refuses c t u q step f e =
      let m = not_in_copy refuses c t u q f e in
      by_issue c t u e m (step t.sent (subst (Allowed t.sent) m f.allowed))

  start_copy-Follows :
      Refuses server → (t u : Table) → Follows t → Database.start_copy server t ≡ ok u → Follows u
  unfolding Database.start_copy
  start_copy-Follows refuses t u f e =
      let (x, p, e1) = bind_ok (require t.m_connected assertion) _ e in
      let c = copy_from (Database.copy_command t) in
      let (t', q, e2) = bind_ok (Database.issue server c t) _ e1 in
      let m = not_in_copy refuses c t t' refl f q in
      subst Follows (ok_injective e2) (record {
        allowed =
            subst (λ (v : Table). Allowed v.sent true) (sym (issue-ok c t t' q).1)
              (started _ (subst (Allowed t.sent) m f.allowed));
      })

  end_copy-Follows : (t u : Table) → Follows t → Database.end_copy server t ≡ ok u → Follows u
  unfolding Database.end_copy Database.end_copy_in
  end_copy-Follows t u f e = in_mode t.m_copy_mode f.allowed e
    where
      in_mode : (b : Bool) → Allowed t.sent b → Database.end_copy_in server b t ≡ ok u → Follows u
      in_mode false a e = subst Follows (ok_injective e) f
      in_mode true a e =
          let (x, p, e1) = bind_ok (require t.m_connected assertion) _ e in
          let (t', q, e2) = bind_ok (Database.issue server copy_end t) _ e1 in
          subst Follows (ok_injective e2) (record {
            allowed =
                subst (λ (v : Table). Allowed v.sent false) (sym (issue-ok copy_end t t' q).1)
                  (ended a);
          })

  send_query-Follows :
      Refuses server
      → (q : Bytes) (t u : Table) → Follows t
      → Database.send_query server q t ≡ ok u
      → Follows u
  unfolding Database.send_query Database.send_query_if
  send_query-Follows refuses q t u f e = if_on t.m_connected e
    where
      if_on : (b : Bool) → Database.send_query_if server b q t ≡ ok u → Follows u
      if_on false e = subst Follows (ok_injective e) f
      if_on true e =
          let (x, p, e1) = bind_ok (require (not t.m_copy_mode) runtime_error) _ e in
          query-Follows refuses (exec q) t u refl (λ h. queried q) f e1

  -- A query, and then another value of `m_begin`.
  begin-Follows :
      Refuses server
      → (q : Bytes) (b : Bool) (t u : Table) → Follows t
      → (Database.send_query server q t >>= λ t'. ok (record t' { m_begin = b })) ≡ ok u
      → Follows u
  begin-Follows refuses q b t u f e =
      let (t', p, e1) = bind_ok (Database.send_query server q t) _ e in
      let g = send_query-Follows refuses q t t' f p in
      subst Follows (ok_injective e1) (record { allowed = g.allowed })

  delete_each-Follows :
      Refuses server
      → (list : List ℤ) (t u : Table) → Follows t
      → Queries.delete_each server list t ≡ ok u
      → Follows u
  unfolding Queries.delete_each
  delete_each-Follows refuses [] t u f e = subst Follows (ok_injective e) f
  delete_each-Follows refuses (id ∷ list) t u f e =
      let (t', p, e1) =
        bind_ok (Database.issue server (exec _) t) (Queries.delete_each server list) e in
      delete_each-Follows refuses list t' u
        (query-Follows refuses (exec _) t t' refl (λ h. queried _) f p) e1

  -- Whatever operation returns, the calls on the connection stay in an order that libpq allows,
  -- and the flag `m_copy_mode` says in which mode the server is. libpq refuses queries in COPY mode.
  pub step-Follows : Refuses server → (t u : Table) → Step server t u → Follows t → Follows u
  unfolding Queries.delete_from_list Queries.run_guarded Queries.query_rows
      Database.create_prepared_statement Database.send_begin Database.commit
  step-Follows refuses t u (send_line line e) f = send_line-Follows line t u f e
  step-Follows refuses t u (start_copy e) f = start_copy-Follows refuses t u f e
  step-Follows refuses t u (end_copy e) f = end_copy-Follows t u f e
  step-Follows refuses t u (send_query q e) f = send_query-Follows refuses q t u f e
  step-Follows refuses t u (send_begin e) f = begin-Follows refuses (codes "BEGIN") true t u f e
  step-Follows refuses t u (commit e) f = begin-Follows refuses (codes "COMMIT") false t u f e
  step-Follows refuses t u (create_prepared_statement name q e) f =
      query-Follows refuses (prepare name q) t u refl (λ h. prepared name q) f e
  step-Follows refuses t u (delete_from_list list e) f =
      let (x, p, e1) = bind_ok (require (not t.m_copy_mode) assertion) _ e in
      delete_each-Follows refuses list t u f e1
  step-Follows refuses t u (run_guarded name params e) f =
      let (x, p, e1) = bind_ok (require (not t.m_copy_mode) assertion) _ e in
      query-Follows refuses (run_prepared name params) t u refl (λ h. ran name params) f e1
  step-Follows refuses t u (query_rows name id e) f =
      let (x, p, e1) = bind_ok (require t.m_connected assertion) _ e in
      let (t', q, e2) = bind_ok (Database.issue server (run_prepared name _) t) _ e1 in
      subst Follows (ap (λ r. r.1) (ok_injective e2))
        (query-Follows refuses (run_prepared name _) t t' refl (λ h. ran name _) f q)

-- If the calls so far are in an order that libpq allows and `m_copy_mode` says in which mode they
-- leave the server, both still hold after any sequence of operations that return. The server is one
-- that refuses queries in COPY mode.
pub Steps-Follows :
    (server : Server) → Refuses server → {t u : Table} → Steps server t u → Follows t → Follows u
Steps-Follows server refuses done f = f
Steps-Follows server refuses (then_step {t} {u} s rest) f =
    Steps-Follows server refuses rest (step-Follows server refuses t u s f)
