-- ===== src/Diff/SecondPass/Modes.antt =====
-- The operations of all tables in the second pass: in which modes they leave the tables.
use cerepso.Base.{
  ℕ, Bytes, Bool, true, false, List, [], ◌∷◌, Option, some, Result, ok, ◌≡◌, refl, sym, ap, ◌∙◌,
  subst, ◌⊎◌, inl, inr, Bool-cases, if◌then◌else◌, ◌==◌, arith, Holds, returned, thrown, bind-Holds,
}
use cerepso.Base.Int.{ℤ}
use cerepso.Osm.{Location, OsmObject}
use cerepso.Database
use cerepso.Database.{Server, Table, last, start_copy, end_copy}
use cerepso.Connections.{
  TableName, nodes, untagged_nodes, ways_linear, areas, node_ways, node_relations, way_relations,
  relation_relations, relations, code, Environment, Tables, set, on, ask,
}
use cerepso.Import.{send, send_filled, is_filled}
use cerepso.Diff.Pending.{Pending}
use cerepso.Diff.Shared.{ExpiryCall, from_database, LocationIndex, MemberWay, Geometries}
use cerepso.Diff.SecondPass.{
  DiffHandler2, TypeProgress, points, ways, relations_progress, run, query, with_tables,
}
use cerepso.Diff.SecondPass.Calls.{Takes, Ready, send_line-Holds, start_copy-Holds, end_copy-Holds}

-- The tables in COPY mode.
unfoldable pub copies : TypeProgress → TableName → Bool
copies points nodes = true
copies points untagged_nodes = true
copies ways ways_linear = true
copies ways areas = true
copies ways node_ways = true
copies relations_progress areas = true
copies relations_progress relations = true
copies relations_progress node_relations = true
copies relations_progress way_relations = true
copies relations_progress relation_relations = true
copies _ _ = false

abbrev pub put : TableName → Bool → (TableName → Bool) → TableName → Bool
put name b f other = if code name == code other then b else f other

abbrev name_of : ℕ → TableName
name_of n =
    if n == 0
    then nodes
    else if n == 1
    then untagged_nodes
    else if n == 2
    then ways_linear
    else if n == 3
    then areas
    else if n == 4
    then node_ways
    else if n == 5
    then node_relations
    else if n == 6
    then way_relations
    else if n == 7
    then relation_relations
    else relations

name_of-code : (name : TableName) → name_of (code name) ≡ name
name_of-code nodes = refl
name_of-code untagged_nodes = refl
name_of-code ways_linear = refl
name_of-code areas = refl
name_of-code node_ways = refl
name_of-code node_relations = refl
name_of-code way_relations = refl
name_of-code relation_relations = refl
name_of-code relations = refl

same_name : (a b : TableName) → (code a == code b) ≡ true → a ≡ b
same_name a b e = sym (name_of-code a) ∙ ap name_of codes_equal ∙ name_of-code b
  where
    codes_equal : code a ≡ code b
    codes_equal = ground (arith, e)

pub put_same : (name : TableName) (f : TableName → Bool) → put name (f name) f ≡ f
put_same name f = λ i other. at other i
  where
    at : (other : TableName) → put name (f name) f other ≡ f other
    at other = elim (Bool-cases (code name == code other)) [
      | inl same ↦ rw same (ap f (same_name name other same))
      | inr different ↦ rw different refl
    ]

abbrev pub Modes : Type 0 → (TableName → Bool) → Tables → Type 0
Modes Bad f ts = (name : TableName) → Ready Bad (f name) (ts name)

-- A lookup of locations that always finds a valid one.
abbrev pub Locates : LocationIndex → Type 0
Locates index =
    (id : ℤ) → (loc : Location) × (index.get_node_location id ≡ ok loc) × (loc.valid ≡ true)

-- The modes of the tables and the progress, and, unless something is bad, what the handler needs.
pub record Sound (Bad : Type 0) (f : TableName → Bool) (p : TypeProgress) (h : DiffHandler2)
    : Type 0 where
  pub modes : Modes Bad f h.tables
  pub progress : h.m_progress ≡ p
  pub locates : Locates h.m_location_index ⊎ Bad
  pub manager :
      ((get_member_way : ℤ → Option MemberWay) × (h.m_mp_manager ≡ some get_member_way)) ⊎ Bad
  pub no_new_areas : (h.m_new_areas_buffer ≡ []) ⊎ Bad

module _ {Bad : Type 0} where
  pub set-Holds :
      (name : TableName) (b : Bool) (f : TableName → Bool) (t : Table) (ts : Tables)
      → Ready Bad b t
      → Modes Bad f ts
      → Modes Bad (put name b f) (set name t ts)
  set-Holds name b f t ts r m other = elim (Bool-cases (code name == code other)) [
    | inl same ↦ rw same r
    | inr different ↦ rw different (m other)
  ]

  pub from_database-Holds {ℓ} :
      {A : Type ℓ} {P : A → Type 0} {r : Result Database.Fault A}
      → Holds Bad P r
      → Holds Bad P (from_database r)
  from_database-Holds (returned p) = returned p
  from_database-Holds (thrown bad) = thrown bad

  -- The lists and the buffer of updated areas are free.
  pub with_lists :
      {f : TableName → Bool} {p : TypeProgress} {h : DiffHandler2} (expired : List ExpiryCall)
      (pending_ways pending_relations : Pending) (updated : List OsmObject)
      → Sound Bad f p h
      → Sound Bad f p (record h {
        m_expire_tiles = expired;
        m_pending_ways = pending_ways;
        m_pending_relations = pending_relations;
        m_updated_areas_buffer = updated;
      })
  with_lists expired pending_ways pending_relations updated s = record {
    modes = s.modes;
    progress = s.progress;
    locates = s.locates;
    manager = s.manager;
    no_new_areas = s.no_new_areas;
  }

  -- Another progress, and modes that are the same for each table.
  pub with_progress :
      {f : TableName → Bool} {p : TypeProgress} {h : DiffHandler2} (q : TypeProgress)
      → ((name : TableName) → f name ≡ copies q name)
      → Sound Bad f p h
      → Sound Bad (copies q) q (record h { m_progress = q })
  with_progress {f} {p} {h} q same s = record {
    modes = λ name. subst (λ b. Ready Bad b (h.tables name)) (same name) (s.modes name);
    progress = refl;
    locates = s.locates;
    manager = s.manager;
    no_new_areas = s.no_new_areas;
  }

  pub with-Modes :
      (f : TableName → Bool) (p : TypeProgress) (h : DiffHandler2) (ts : Tables)
      → Modes Bad f ts
      → (g : TableName → Bool) → Sound Bad g p h
      → Sound Bad f p (record h { tables = ts })
  with-Modes f p h ts m g s = record {
    modes = m;
    progress = s.progress;
    locates = s.locates;
    manager = s.manager;
    no_new_areas = s.no_new_areas;
  }

module _ {Bad : Type 0} (env : Environment) (geo : Geometries)
    (takes : (name : TableName) → Takes (env.server name) ⊎ Bad) where
  pub on-Holds :
      (name : TableName) (op : Server → Table → Result Database.Fault Table) (b : Bool)
      (f : TableName → Bool) (ts : Tables)
      → ((t : Table) → Ready Bad (f name) t → Holds Bad (Ready Bad b) (op (env.server name) t))
      → Modes Bad f ts
      → Holds Bad (Modes Bad (put name b f)) (on env name op ts)
  unfolding on
  on-Holds name op b f ts q m =
      bind-Holds (q (ts name) (m name)) λ t r. returned (set-Holds name b f t ts r m)

  -- An operation of one table.
  pub run-Holds :
      (name : TableName) (op : Server → Table → Result Database.Fault Table) (b : Bool)
      {f : TableName → Bool} {p : TypeProgress} {h : DiffHandler2}
      → ((t : Table) → Ready Bad (f name) t → Holds Bad (Ready Bad b) (op (env.server name) t))
      → Sound Bad f p h
      → Holds Bad (Sound Bad (put name b f) p) (run env geo name op h)
  unfolding run
  run-Holds name op b {f} {p} {h} q s =
      bind-Holds (from_database-Holds (on-Holds name op b f h.tables q s.modes))
        λ ts m. returned (with-Modes (put name b f) p h ts m f s)

  -- One that keeps the mode.
  pub run_keeps :
      (name : TableName) (op : Server → Table → Result Database.Fault Table) {f : TableName → Bool}
      {p : TypeProgress} {h : DiffHandler2}
      → ((t : Table)
          → Ready Bad (f name) t
          → Holds Bad (Ready Bad (f name)) (op (env.server name) t))
      → Sound Bad f p h
      → Holds Bad (Sound Bad f p) (run env geo name op h)
  run_keeps name op {f} {p} {h} q s =
      subst (λ g. Holds Bad (Sound Bad g p) (run env geo name op h)) (put_same name f)
        (run-Holds name op (f name) q s)

  ask-Holds {ℓ} :
      {A : Type ℓ} (name : TableName) (op : Server → Table → Result Database.Fault (A × Table))
      (f : TableName → Bool) (ts : Tables)
      → ((t : Table)
          → Ready Bad (f name) t
          → Holds Bad (λ r. Ready Bad (f name) r.1) (op (env.server name) t))
      → Modes Bad f ts
      → Holds Bad (λ r. Modes Bad f r.1) (ask env name op ts)
  unfolding ask
  ask-Holds name op f ts q m = bind-Holds (q (ts name) (m name)) λ r k. returned (
      subst (λ g. Modes Bad g (set name r.1 ts)) (put_same name f)
        (set-Holds name (f name) f r.1 ts k m))

  pub query-Holds {ℓ} :
      {A : Type ℓ} (name : TableName) (op : Server → Table → Result Database.Fault (A × Table))
      {f : TableName → Bool} {p : TypeProgress} {h : DiffHandler2}
      → ((t : Table)
          → Ready Bad (f name) t
          → Holds Bad (λ r. Ready Bad (f name) r.1) (op (env.server name) t))
      → Sound Bad f p h
      → Holds Bad (λ r. Sound Bad f p r.1) (query env geo name op h)
  unfolding query ask
  query-Holds name op {f} {p} {h} q s =
      bind-Holds (from_database-Holds (ask-Holds name op f h.tables q s.modes))
        λ r m. returned (with-Modes f p h r.1 m f s)

  pub with_tables-Holds :
      (op : Tables → Result Database.Fault Tables) {f : TableName → Bool} {p : TypeProgress}
      {h : DiffHandler2}
      → ((ts : Tables) → Modes Bad f ts → Holds Bad (Modes Bad f) (op ts))
      → Sound Bad f p h
      → Holds Bad (Sound Bad f p) (with_tables env geo op h)
  unfolding with_tables
  with_tables-Holds op {f} {p} {h} q s =
      bind-Holds (from_database-Holds (q h.tables s.modes))
        λ ts m. returned (with-Modes f p h ts m f s)

  -- A line for a table in COPY mode.
  pub send-Holds :
      (name : TableName) (line : Bytes) (f : TableName → Bool) (ts : Tables)
      → (f name ≡ true) ⊎ Bad
      → (last line ≡ some b'\n') ⊎ Bad
      → Modes Bad f ts
      → Holds Bad (Modes Bad f) (send env name line ts)
  unfolding send
  send-Holds name line f ts c l m =
      subst (λ g. Holds Bad (Modes Bad g) (send env name line ts)) (put_same name f)
        (on-Holds name (λ server. Database.send_line server line) (f name) f ts
          (λ t r. send_line-Holds (env.server name) (takes name) (f name) line t c l r) m)

  pub send_filled-Holds :
      (name : TableName) (line : Bytes) (f : TableName → Bool) (ts : Tables)
      → (f name ≡ true) ⊎ Bad
      → (is_filled line ≡ true → last line ≡ some b'\n')
      → Modes Bad f ts
      → Holds Bad (Modes Bad f) (send_filled env name line ts)
  unfolding send_filled
  send_filled-Holds name [] f ts c l m = returned m
  send_filled-Holds name (x ∷ line) f ts c l m = send-Holds name (x ∷ line) f ts c (inl (l refl)) m

  pub start-Holds :
      (name : TableName) {f : TableName → Bool} {p : TypeProgress} {h : DiffHandler2}
      → (f name ≡ false) ⊎ Bad
      → Sound Bad f p h
      → Holds Bad (Sound Bad (put name true f) p) (run env geo name start_copy h)
  start-Holds name {f} c s =
      run-Holds name start_copy true
        (λ t r. start_copy-Holds (env.server name) (takes name) (f name) t c r) s

  pub end-Holds :
      (name : TableName) {f : TableName → Bool} {p : TypeProgress} {h : DiffHandler2}
      → Sound Bad f p h
      → Holds Bad (Sound Bad (put name false f) p) (run env geo name end_copy h)
  end-Holds name {f} s =
      run-Holds name end_copy false
        (λ t r. end_copy-Holds (env.server name) (takes name) (f name) t r) s
