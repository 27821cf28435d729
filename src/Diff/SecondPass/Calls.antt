-- ===== src/Diff/SecondPass/Calls.antt =====
-- The operations of one table in the second pass: in which mode they leave it, and when they return.
use cerepso.Base.{
  ℕ, Bytes, Bool, true, false, not, List, ◌∷◌, Option, some, ◌≡◌, refl, sym, ◌∙◌, subst, ◌⊎◌, inl,
  inr, Bool-cases, Holds, returned, thrown, bind-Holds, none, ◌==◌, arith,
}
use cerepso.Base.Int.{ℤ}
use cerepso.Database
use cerepso.Database.{
  Server, Fault, assertion, runtime_error, Table, Command, exec, copy_from, prepare, run_prepared,
  copy_data, copy_end, require, check_newline, last,
}
use cerepso.Database.Queries
use cerepso.Database.Protocol.{Allowed, ran, started, copied, ended, is_query}

-- A server that takes what libpq allows.
pub record Takes (server : Server) : Type 0 where
  pub accepts :
      (h : List Command) (b : Bool) (c : Command)
      → Allowed h b
      → is_query c ≡ not b
      → server.accepts h c ≡ true

-- Unless something is bad, a connection whose calls are allowed.
abbrev pub Open : Type 0 → Bool → Table → Type 0
Open Bad b t = ((t.m_connected ≡ true) × Allowed t.sent b) ⊎ Bad

abbrev pub Ready : Type 0 → Bool → Table → Type 0
Ready Bad b t = (t.m_copy_mode ≡ b) × Open Bad b t

module _ {Bad : Type 0} (server : Server) (takes : Takes server ⊎ Bad) where
  require-Holds :
      (b : Bool) (e : Fault) → (b ≡ true) ⊎ Bad → Holds Bad (λ x. b ≡ true) (require b e)
  require-Holds true e p = returned refl
  require-Holds false e (inl p) = absurd (ground (arith, p))
  require-Holds false e (inr bad) = thrown bad

  -- One call, which leaves the flag as it was and the server in mode `d`.
  abbrev Issued : Bool → Bool → Table → Type 0
  Issued b d u = (u.m_copy_mode ≡ b) × Open Bad d u

  issue-Fits :
      (b d : Bool) (c : Command) (t : Table)
      → server.accepts t.sent c ≡ true
      → Issued b d (record t { sent = c ∷ t.sent })
      → Holds Bad (Issued b d) (Database.issue server c t)
  unfolding Database.issue
  issue-Fits b d c t a p = rw a (returned p)

  issue_bad :
      (b d : Bool) (c : Command) (t : Table)
      → Bad
      → t.m_copy_mode ≡ b
      → Holds Bad (Issued b d) (Database.issue server c t)
  unfolding Database.issue
  issue_bad b d c t bad m = elim (Bool-cases (server.accepts t.sent c)) [
    | inl taken ↦ rw taken (returned (m, inr bad))
    | inr refused ↦ rw refused (thrown bad)
  ]

  -- The call is allowed in mode `b` and leads to mode `d`.
  abbrev Fits : Bool → Bool → Command → Type 0
  Fits b d c = (is_query c ≡ not b) × ((h : List Command) → Allowed h b → Allowed (c ∷ h) d)

  issue-Holds :
      (b d : Bool) (c : Command) (t : Table)
      → Fits b d c ⊎ Bad
      → Ready Bad b t
      → Holds Bad (Issued b d) (Database.issue server c t)
  issue-Holds b d c t f (m, inr bad) = issue_bad b d c t bad m
  issue-Holds b d c t (inr bad) (m, o) = issue_bad b d c t bad m
  issue-Holds b d c t (inl f) (m, inl (k, a)) = elim takes [
    | inr bad ↦ issue_bad b d c t bad m
    | inl s ↦ issue-Fits b d c t (s.accepts t.sent b c a f.0) (m, inl (k, f.1 t.sent a))
  ]

  data-Fits : (b : Bool) (line : Bytes) → (b ≡ true) ⊎ Bad → Fits b b (copy_data line) ⊎ Bad
  data-Fits true line p = inl (refl, λ h. copied line)
  data-Fits false line (inl p) = absurd (ground (arith, p))
  data-Fits false line (inr bad) = inr bad

  run-Fits :
      (b : Bool) (name : Bytes) (params : List Bytes)
      → (b ≡ false) ⊎ Bad
      → Fits b b (run_prepared name params) ⊎ Bad
  run-Fits false name params p = inl (refl, λ h. ran name params)
  run-Fits true name params (inl p) = absurd (ground (arith, p))
  run-Fits true name params (inr bad) = inr bad

  copy-Fits : (b : Bool) (q : Bytes) → (b ≡ false) ⊎ Bad → Fits b true (copy_from q) ⊎ Bad
  copy-Fits false q p = inl (refl, λ h. started q)
  copy-Fits true q (inl p) = absurd (ground (arith, p))
  copy-Fits true q (inr bad) = inr bad

  pub require_connected :
      (b : Bool) (t : Table)
      → Ready Bad b t
      → Holds Bad (λ x. t.m_connected ≡ true) (require t.m_connected assertion)
  require_connected b t (m, inl (k, a)) = require-Holds t.m_connected assertion (inl k)
  require_connected b t (m, inr bad) = require-Holds t.m_connected assertion (inr bad)

  -- The flag of a table that is to be in mode `d`.
  in_mode : (b d : Bool) (t : Table) → (b ≡ d) ⊎ Bad → t.m_copy_mode ≡ b → (t.m_copy_mode ≡ d) ⊎ Bad
  in_mode b d t (inl p) m = inl (m ∙ p)
  in_mode b d t (inr bad) m = inr bad

  pub not_copying :
      (b : Bool) (t : Table)
      → (b ≡ false) ⊎ Bad
      → t.m_copy_mode ≡ b
      → Holds Bad (λ x. not t.m_copy_mode ≡ true) (require (not t.m_copy_mode) assertion)
  not_copying b t (inl p) m = require-Holds _ _ (inl (rw (m, p) refl))
  not_copying b t (inr bad) m = require-Holds _ _ (inr bad)

  newline-Holds :
      (line : Bytes)
      → (last line ≡ some b'\n') ⊎ Bad
      → Holds Bad (λ x. Unit {0}) (check_newline (last line))
  newline-Holds line (inl l) = rw l (returned tt)
  newline-Holds line (inr bad) = any (last line)
    where
      any : (c : Option ℕ) → Holds Bad (λ x. Unit {0}) (check_newline c)
      any none = thrown bad
      any (some c) = elim (Bool-cases (c == b'\n')) [
        | inl taken ↦ rw taken (returned tt)
        | inr refused ↦ rw refused (thrown bad)
      ]

  -- In COPY mode a table takes a line that ends in a newline.
  pub send_line-Holds :
      (b : Bool) (line : Bytes) (t : Table)
      → (b ≡ true) ⊎ Bad
      → (last line ≡ some b'\n') ⊎ Bad
      → Ready Bad b t
      → Holds Bad (Ready Bad b) (Database.send_line server line t)
  unfolding Database.send_line
  send_line-Holds b line t p l r = bind-Holds (require_connected b t r) λ _ k.
      bind-Holds (require-Holds t.m_copy_mode runtime_error (in_mode b true t p r.0))
        λ _ m. bind-Holds (newline-Holds line l) λ _ n. issue-Holds b b _ t (data-Fits b line p) r

  pub start_copy-Holds :
      (b : Bool) (t : Table)
      → (b ≡ false) ⊎ Bad
      → Ready Bad b t
      → Holds Bad (Ready Bad true) (Database.start_copy server t)
  unfolding Database.start_copy
  start_copy-Holds b t p r =
      bind-Holds (require_connected b t r)
        λ _ k. bind-Holds (issue-Holds b true _ t (copy-Fits b _ p) r) λ u q. returned (refl, q.1)

  pub end_copy-Holds :
      (b : Bool) (t : Table)
      → Ready Bad b t
      → Holds Bad (Ready Bad false) (Database.end_copy server t)
  unfolding Database.end_copy Database.end_copy_in
  end_copy-Holds b t r =
      subst (λ m. Holds Bad (Ready Bad false) (Database.end_copy_in server m t)) (sym r.0)
        (in_copy b r)
    where
      in_copy :
          (b : Bool) → Ready Bad b t → Holds Bad (Ready Bad false) (Database.end_copy_in server b t)
      in_copy false r = returned r
      in_copy true r = bind-Holds (require_connected true t r) λ _ k.
          bind-Holds (issue-Holds true false copy_end t (inl (refl, λ h. ended)) r)
            λ u q. returned (refl, q.1)

  -- A statement that is run for its effect, and one that is run for its rows.
  pub run_guarded-Holds :
      (b : Bool) (name : Bytes) (params : List Bytes) (t : Table)
      → (b ≡ false) ⊎ Bad
      → Ready Bad b t
      → Holds Bad (Ready Bad b) (Queries.run_guarded server name params t)
  unfolding Queries.run_guarded
  run_guarded-Holds b name params t p r =
      bind-Holds (not_copying b t p r.0) λ _ m. issue-Holds b b _ t (run-Fits b name params p) r

  pub query_rows-Holds :
      (b : Bool) (name : Bytes) (id : ℤ) (t : Table)
      → (b ≡ false) ⊎ Bad
      → Ready Bad b t
      → Holds Bad (λ r. Ready Bad b r.1) (Queries.query_rows server name id t)
  unfolding Queries.query_rows
  query_rows-Holds b name id t p r =
      bind-Holds (require_connected b t r)
        λ _ k. bind-Holds (issue-Holds b b _ t (run-Fits b name _ p) r) λ u q. returned q
