-- ===== src/Diff/SecondPass/Runs.antt =====
-- src/pgimporter.cpp: the second pass over a diff as a whole, with the objects in the order of the
-- file.
use cerepso.Base.{
  Bool, true, false, List, [], ◌∷◌, Option, Result, ok, ◌>>=◌, ◌≡◌, refl, sym, ap, ◌∙◌, subst, ◌⊎◌,
  inl, inr, Holds, map-Holds, returned, bind-Holds, ok-Holds, returns-Holds,
}
use cerepso.Base.Int.{ℤ}
use cerepso.Osm.{OsmObject}
use cerepso.Connections.{
  TableName, nodes, untagged_nodes, ways_linear, areas, node_ways, node_relations, way_relations,
  relation_relations, relations, Environment,
}
use cerepso.Diff.Shared.{Fault, LocationIndex, MemberWay, Geometries}
use cerepso.Diff.SecondPass
use cerepso.Diff.SecondPass.{DiffHandler2, TypeProgress, points, ways, relations_progress}
use cerepso.Diff.SecondPass.Relations
use cerepso.Diff.SecondPass.Calls.{Takes}
use cerepso.Diff.SecondPass.Modes.{copies, put, Sound, start-Holds}
use cerepso.Diff.SecondPass.Arrivals.{node-Holds}
use cerepso.Diff.SecondPass.Ordered.{
  InPhase, behind_nodes, Complete, phase-Mode, or_bad, way-Holds, area-Holds,
}
use cerepso.Diff.SecondPass.Updating.{Obliging}
use cerepso.Diff.SecondPass.Inserting.{relation-Holds}
use cerepso.Diff.SecondPass.Closing.{all_off, closed, closed_off, after_relations-Holds}

-- A call of the handler. Areas come from the manager of multipolygons.
pub data Arrival : Type 0 where
  node_arrives way_arrives area_arrives relation_arrives : OsmObject → Arrival

module _ (env : Environment) (geo : Geometries) where
  unfoldable pub arrive : Arrival → DiffHandler2 → Result Fault DiffHandler2
  unfolding SecondPass.node SecondPass.way SecondPass.area Relations.relation
  arrive (node_arrives object) h = SecondPass.node env geo object h
  arrive (way_arrives object) h = SecondPass.way env geo object h
  arrive (area_arrives object) h = SecondPass.area env geo object h
  arrive (relation_arrives object) h = Relations.relation env geo object h

  unfoldable pub apply : List Arrival → DiffHandler2 → Result Fault DiffHandler2
  unfolding arrive
  apply [] h = ok h
  apply (a ∷ arrivals) h = arrive a h >>= apply arrivals

  -- The constructor, the objects, and `after_relations`.
  unfoldable pub second_pass : List Arrival → DiffHandler2 → Result Fault DiffHandler2
  unfolding SecondPass.open_nodes apply Relations.after_relations
  second_pass arrivals h =
      SecondPass.open_nodes env geo h >>= apply arrivals >>= Relations.after_relations env geo

-- The phase behind an arrival.
abbrev pub next : TypeProgress → Arrival → TypeProgress
next p (node_arrives object) = p
next p (way_arrives object) = behind_nodes p
next p (area_arrives object) = behind_nodes p
next p (relation_arrives object) = relations_progress

abbrev pub last_phase : TypeProgress → List Arrival → TypeProgress
last_phase p [] = p
last_phase p (a ∷ arrivals) = last_phase (next p a) arrivals

-- Nodes come first and no way comes behind a relation; a way is deleted or has 1 to
-- 2^16 - 1 nodes.
abbrev pub Fits : TypeProgress → Arrival → Type 0
Fits p (node_arrives object) = p ≡ points
Fits p (way_arrives object) = Complete object × (behind_nodes p ≡ ways)
Fits p (area_arrives object) = Unit {0}
Fits p (relation_arrives object) = Unit {0}

abbrev pub Ordered : TypeProgress → List Arrival → Type 0
Ordered p [] = Unit {0}
Ordered p (a ∷ arrivals) = Fits p a × Ordered (next p a) arrivals

-- The state that the constructor finds: no table is in COPY mode.
abbrev pub Prepared : Type 0 → DiffHandler2 → Type 0
Prepared Bad h = Sound Bad all_off points h

module _ {Bad : Type 0} (env : Environment) (geo : Geometries)
    (takes : (name : TableName) → Takes (env.server name) ⊎ Bad)
    (obliging : Obliging env geo ⊎ Bad) where
  open_nodes-Holds :
      {h : DiffHandler2}
      → Prepared Bad h
      → Holds Bad (InPhase Bad points) (SecondPass.open_nodes env geo h)
  unfolding SecondPass.open_nodes copies
  open_nodes-Holds s =
      map-Holds (λ h2. with_modes_of same)
        (bind-Holds (start-Holds env geo takes untagged_nodes (inl refl) s)
          λ h1 s1. start-Holds env geo takes nodes (inl refl) s1)
    where
      same :
          (name : TableName)
          → put nodes true (put untagged_nodes true all_off) name ≡ copies points name
      same nodes = refl
      same untagged_nodes = refl
      same ways_linear = refl
      same areas = refl
      same node_ways = refl
      same node_relations = refl
      same way_relations = refl
      same relation_relations = refl
      same relations = refl

      with_modes_of :
          {f g : TableName → Bool} {h : DiffHandler2}
          → ((name : TableName) → f name ≡ g name)
          → Sound Bad f points h
          → Sound Bad g points h
      with_modes_of {f} {g} {h} e s = subst (λ m. Sound Bad m points h) (λ i name. e name i) s

  arrive-Holds :
      (a : Arrival) {p : TypeProgress} {h : DiffHandler2}
      → Fits p a ⊎ Bad
      → InPhase Bad p h
      → Holds Bad (InPhase Bad (next p a)) (arrive env geo a h)
  unfolding arrive copies
  arrive-Holds (node_arrives object) q s =
      node-Holds env geo takes object (phase-Mode points nodes true refl q)
        (phase-Mode points untagged_nodes true refl q) (phase-Mode points node_ways false refl q)
        (phase-Mode points node_relations false refl q) s
  arrive-Holds (way_arrives object) q s =
      way-Holds env geo takes object (or_bad (λ c. c.0) q) (or_bad (λ c. c.1) q) s
  arrive-Holds (area_arrives object) q s = area-Holds env geo takes object s
  arrive-Holds (relation_arrives object) q s = relation-Holds env geo takes obliging object s

  apply-Holds :
      (arrivals : List Arrival) {p : TypeProgress} {h : DiffHandler2}
      → Ordered p arrivals ⊎ Bad
      → InPhase Bad p h
      → Holds Bad (InPhase Bad (last_phase p arrivals)) (apply env geo arrivals h)
  unfolding apply
  apply-Holds [] q s = returned s
  apply-Holds (a ∷ arrivals) q s =
      bind-Holds (arrive-Holds a (or_bad (λ c. c.0) q) s)
        λ h1 s1. apply-Holds arrivals (or_bad (λ c. c.1) q) s1

  second_pass-Holds :
      (arrivals : List Arrival) {h : DiffHandler2}
      → Ordered points arrivals ⊎ Bad
      → (last_phase points arrivals ≡ relations_progress) ⊎ Bad
      → Prepared Bad h
      → Holds Bad
          (Sound Bad (closed (last_phase points arrivals)) (last_phase points arrivals))
          (second_pass env geo arrivals h)
  unfolding second_pass
  second_pass-Holds arrivals q r s =
      bind-Holds (bind-Holds (open_nodes-Holds s) λ h1 s1. apply-Holds arrivals q s1) λ h2 s2.
        after_relations-Holds env geo takes obliging (last_phase points arrivals)
          (λ name. or_bad (λ e. ap (λ p. closed p name) e ∙ closed_off name) r) s2

-- Without tile expiry, the default, the second pass over a diff with a relation, whose nodes come
-- first and in which no way comes behind a relation, returns, and it leaves no table in COPY mode:
-- each table gets only what libpq takes in its mode. The server takes what libpq allows, and lists no
-- way with exactly one node; every location is found and valid; GEOS makes a line of any other number
-- of points; the WKB factory makes something of valid locations or says that it cannot; ways that are
-- not deleted have nodes, and not more than 2^16 - 1; and before the pass the tables are connected
-- and not in COPY mode.
pub second_pass-returns :
    (env : Environment) (geo : Geometries) (arrivals : List Arrival) (h : DiffHandler2)
    → ((name : TableName) → Takes (env.server name))
    → Obliging env geo
    → Prepared ⊥ h
    → Ordered points arrivals
    → last_phase points arrivals ≡ relations_progress
    → (after : DiffHandler2) × (second_pass env geo arrivals h ≡ ok after)
      × ((name : TableName) → (after.tables name).m_copy_mode ≡ false)
second_pass-returns env geo arrivals h takes obliging prepared ordered last =
    let (after, e, s) = returns-Holds (
      second_pass-Holds env geo (λ name. inl (takes name)) (inl obliging) arrivals (inl ordered)
        (inl last) prepared) in
    (after, e, λ name. (s.modes name).0 ∙ ap (λ p. closed p name) last ∙ closed_off name)

-- If a diff has no relation, but a way or an area, the second pass leaves the tables of ways in COPY
-- mode if it returns.
pub second_pass-without_relations :
    (env : Environment) (geo : Geometries) (arrivals : List Arrival) (h after : DiffHandler2)
    → Prepared (Unit {0}) h
    → last_phase points arrivals ≡ ways
    → second_pass env geo arrivals h ≡ ok after
    → ((after.tables ways_linear).m_copy_mode ≡ true)
      × ((after.tables node_ways).m_copy_mode ≡ true)
unfolding copies
second_pass-without_relations env geo arrivals h after prepared last e =
    let s =
      ok-Holds
        (second_pass-Holds env geo (λ name. inr tt) (inr tt) arrivals (inr tt) (inr tt) prepared)
        e in
    (
      (s.modes ways_linear).0 ∙ ap (λ p. closed p ways_linear) last,
      (s.modes node_ways).0 ∙ ap (λ p. closed p node_ways) last,
    )

-- The states that the handler comes to, in whatever order the objects arrive. Between the calls the
-- location index and the manager of multipolygons may change.
pub data Reached (env : Environment) (geo : Geometries) : DiffHandler2 → Type 0 where
  opened :
      {h h' : DiffHandler2}
      → Prepared (Unit {0}) h
      → SecondPass.open_nodes env geo h ≡ ok h'
      → Reached env geo h'
  arrived :
      {h h' : DiffHandler2} (a : Arrival)
      → Reached env geo h
      → arrive env geo a h ≡ ok h'
      → Reached env geo h'
  informed :
      {h : DiffHandler2} (index : LocationIndex) (manager : Option (ℤ → Option MemberWay))
      → Reached env geo h
      → Reached env geo (record h { m_location_index = index; m_mp_manager = manager })

-- Whatever the server answers and in whatever order objects arrive: as long as the calls return,
-- `m_progress` says for each table whether it is in COPY mode.
pub Reached-modes :
    (env : Environment) (geo : Geometries) (h : DiffHandler2)
    → Reached env geo h
    → (name : TableName) → (h.tables name).m_copy_mode ≡ copies h.m_progress name
Reached-modes env geo h r name = ((in_phase r).modes name).0
  where
    at_progress :
        {p : TypeProgress} {h : DiffHandler2}
        → InPhase (Unit {0}) p h
        → InPhase (Unit {0}) h.m_progress h
    at_progress {p} {h} s = subst (λ q. InPhase (Unit {0}) q h) (sym s.progress) s

    in_phase : {h : DiffHandler2} → Reached env geo h → InPhase (Unit {0}) h.m_progress h
    in_phase (opened prepared e) =
        at_progress (ok-Holds (open_nodes-Holds env geo (λ n. inr tt) (inr tt) prepared) e)
    in_phase (arrived a r e) =
        at_progress
          (ok-Holds (arrive-Holds env geo (λ n. inr tt) (inr tt) a (inr tt) (in_phase r)) e)
    in_phase (informed index manager r) =
        let s = in_phase r in
        record {
          modes = s.modes;
          progress = s.progress;
          locates = inr tt;
          manager = inr tt;
          no_new_areas = s.no_new_areas;
        }
