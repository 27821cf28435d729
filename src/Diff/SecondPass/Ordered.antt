-- ===== src/Diff/SecondPass/Ordered.antt =====
-- The step from nodes to ways in the second pass, and ways and areas.
use cerepso.Base.{
  Bool, true, false, List, [], ◌∷◌, none, some, ◌≡◌, refl, sym, ap, ◌∙◌, arith, subst, ◌⊎◌, inl,
  inr, if◌then◌else◌, Holds, returned, bind-Holds, if-Holds, decide-Holds, map-Holds, bad-Holds,
  ◌>>=◌, length, ◌≤◌, ◌^◌, ◌-◌,
}
use cerepso.Base.Int.{ℤ}
use cerepso.Osm.{Location, OsmObject}
use cerepso.Database.{last}
use cerepso.Database.Sending.{prepare_node_way_query-Holds}
use cerepso.Handler.Members
use cerepso.Connections.{
  TableName, nodes, untagged_nodes, ways_linear, areas, node_ways, node_relations, way_relations,
  relation_relations, relations, Environment, Tables,
}
use cerepso.Import
use cerepso.Diff.Shared.{ExpiryCall, Geometries}
use cerepso.Diff.SecondPass
use cerepso.Diff.SecondPass.{DiffHandler2, TypeProgress, points, ways, relations_progress}
use cerepso.Diff.SecondPass.Calls.{Takes}
use cerepso.Diff.SecondPass.Modes.{
  copies, put, Modes, Sound, with_tables-Holds, send-Holds, start-Holds, end-Holds, with_lists,
  with_progress,
}
use cerepso.Diff.SecondPass.Arrivals.{Mode, line-Holds, handle_area-Holds, relation_ids-Holds}

abbrev pub InPhase : Type 0 → TypeProgress → DiffHandler2 → Type 0
InPhase Bad p h = Sound Bad (copies p) p h

abbrev pub behind_nodes : TypeProgress → TypeProgress
behind_nodes points = ways
behind_nodes ways = ways
behind_nodes relations_progress = relations_progress

-- A list of nodes that is not empty, nor longer than positions reach.
abbrev pub Listed : List ℤ → Type 0
Listed refs = (ref : ℤ) × (rest : List ℤ) × (refs ≡ ref ∷ rest) × (length refs ≤ 2 ^ 16 - 1)

-- A way that is deleted or has such nodes.
abbrev pub Complete : OsmObject → Type 0
Complete object = (object.deleted ≡ true) ⊎ Listed object.nodes

pub or_bad {ℓ κ} : {Bad : Type 0} {A : Type ℓ} {B : Type κ} → (A → B) → A ⊎ Bad → B ⊎ Bad
or_bad f (inl a) = inl (f a)
or_bad f (inr bad) = inr bad

-- The mode of a table in a phase that is `q`.
pub phase-Mode :
    {Bad : Type 0} {p : TypeProgress} (q : TypeProgress) (name : TableName) (b : Bool)
    → copies q name ≡ b
    → (p ≡ q) ⊎ Bad
    → Mode Bad (copies p) name b
phase-Mode q name b m = or_bad (λ e. ap (λ r. copies r name) e ∙ m)

module _ {Bad : Type 0} (env : Environment) (geo : Geometries)
    (takes : (name : TableName) → Takes (env.server name) ⊎ Bad) where
  write_new_nodes-Holds :
      {h : DiffHandler2}
      → InPhase Bad points h
      → Holds Bad (InPhase Bad ways) (SecondPass.write_new_nodes env geo h)
  unfolding SecondPass.write_new_nodes copies
  write_new_nodes-Holds {h} s =
      bind-Holds
        (bind-Holds
          (bind-Holds
            (bind-Holds
              (bind-Holds (end-Holds env geo takes nodes s)
                λ _ s1. end-Holds env geo takes untagged_nodes s1)
              λ _ s2. start-Holds env geo takes ways_linear (inl refl) s2)
            λ _ s3. start-Holds env geo takes areas (inl refl) s3)
          λ _ s4. start-Holds env geo takes node_ways (inl refl) s4)
        λ _ s5. returned (with_lists _ _ _ _ (with_progress ways same s5))
    where
      same :
          (name : TableName)
          → put node_ways true
              (put areas true
                (put ways_linear true (put untagged_nodes false (put nodes false (copies points)))))
              name
            ≡ copies ways name
      same nodes = refl
      same untagged_nodes = refl
      same ways_linear = refl
      same areas = refl
      same node_ways = refl
      same node_relations = refl
      same way_relations = refl
      same relation_relations = refl
      same relations = refl

  pub after_nodes-Holds :
      {p : TypeProgress} {h : DiffHandler2}
      → InPhase Bad p h
      → Holds Bad (InPhase Bad (behind_nodes p)) (SecondPass.after_nodes env geo h)
  unfolding SecondPass.after_nodes
  after_nodes-Holds {p} {h} s =
      subst (λ q. Holds Bad (InPhase Bad (behind_nodes p)) (SecondPass.after_nodes_in env geo q h))
        (sym s.progress) (by_progress p s)
    where
      by_progress :
          (p : TypeProgress)
          → InPhase Bad p h
          → Holds Bad (InPhase Bad (behind_nodes p)) (SecondPass.after_nodes_in env geo p h)
      by_progress points s = write_new_nodes-Holds s
      by_progress ways s = returned s
      by_progress relations_progress s = returned s

  send_way-Holds :
      (object : OsmObject) (f : TableName → Bool) (ts : Tables)
      → Mode Bad f ways_linear true
      → Modes Bad f ts
      → Holds Bad (Modes Bad f) (SecondPass.send_way env geo object ts)
  unfolding SecondPass.send_way
  send_way-Holds object f ts w m =
      if-Holds _ (line-Holds env geo takes ways_linear object none f ts w m) (returned m)

  node_list-Holds :
      (object : OsmObject)
      → Listed object.nodes ⊎ Bad
      → Holds Bad (λ line. (last line ≡ some b'\n') ⊎ Bad) (Members.prepare_node_way_query object)
  node_list-Holds object (inl (ref, rest, e, few)) =
      map-Holds (λ line l. inl l) (prepare_node_way_query-Holds object ref rest e few)
  node_list-Holds object (inr bad) = bad-Holds _ bad λ line. inr bad

  pub expired-Sound :
      (b : Bool) (call : ExpiryCall) {f : TableName → Bool} {p : TypeProgress} {h : DiffHandler2}
      → Sound Bad f p h
      → Sound Bad f p (if b then SecondPass.expire call h else h)
  expired-Sound true call s = with_lists _ _ _ _ s
  expired-Sound false call s = s

  insert_way-Holds :
      (object : OsmObject) {f : TableName → Bool} {p : TypeProgress} {h : DiffHandler2}
      → Listed object.nodes ⊎ Bad
      → Mode Bad f ways_linear true
      → Mode Bad f node_ways true
      → Mode Bad f way_relations false
      → Sound Bad f p h
      → Holds Bad (Sound Bad f p) (SecondPass.insert_way env geo object h)
  unfolding SecondPass.insert_way
  insert_way-Holds object {f} filled w n r s =
      let sent =
        with_tables-Holds env geo takes (SecondPass.send_way env geo object)
          (λ ts. send_way-Holds object f ts w) s in
      bind-Holds
        (bind-Holds sent λ h1 s1. relation_ids-Holds env geo takes way_relations object.id r s1)
        λ a s2.
          bind-Holds
            (with_tables-Holds env geo takes
              (λ ts.
                Members.prepare_node_way_query object >>= λ line. Import.send env node_ways line ts)
              (λ ts m.
                bind-Holds (node_list-Holds object filled)
                  λ line l. send-Holds env geo takes node_ways line f ts n l m)
              (with_lists _ _ _ _ s2))
            λ h3 s3. returned (with_lists _ _ _ _ (expired-Sound _ _ s3))

  filled : (object : OsmObject) → object.deleted ≡ false → Complete object → Listed object.nodes
  filled object d (inl e) = absurd (ground (arith, d, e))
  filled object d (inr listed) = listed

  -- A way in the phase of ways keeps the modes of that phase.
  pub way-Holds :
      (object : OsmObject) {p : TypeProgress} {h : DiffHandler2}
      → Complete object ⊎ Bad
      → (behind_nodes p ≡ ways) ⊎ Bad
      → InPhase Bad p h
      → Holds Bad (InPhase Bad (behind_nodes p)) (SecondPass.way env geo object h)
  unfolding SecondPass.way copies
  way-Holds object {p} complete q s = bind-Holds (after_nodes-Holds s) λ h1 s1.
      decide-Holds object.deleted (λ _. returned s1)
        λ kept.
          insert_way-Holds object (or_bad (filled object kept) complete)
            (phase-Mode ways ways_linear true refl q) (phase-Mode ways node_ways true refl q)
            (phase-Mode ways way_relations false refl q) s1

  expire_rings-Sound :
      (rings : List (List Location)) {f : TableName → Bool} {p : TypeProgress} {h : DiffHandler2}
      → Sound Bad f p h
      → Sound Bad f p (SecondPass.expire_rings env geo rings h)
  unfolding SecondPass.expire_rings
  expire_rings-Sound [] s = s
  expire_rings-Sound (ring ∷ rings) s = expire_rings-Sound rings (with_lists _ _ _ _ s)

  rings-Sound :
      (object : OsmObject) (b : Bool) {f : TableName → Bool} {p : TypeProgress} {h : DiffHandler2}
      → Sound Bad f p h
      → Sound Bad f p (if b then SecondPass.expire_rings env geo (geo.outer_rings object) h else h)
  rings-Sound object true s = expire_rings-Sound (geo.outer_rings object) s
  rings-Sound object false s = s

  areas_copy : (p : TypeProgress) → copies (behind_nodes p) areas ≡ true
  unfolding copies
  areas_copy points = refl
  areas_copy ways = refl
  areas_copy relations_progress = refl

  -- An area keeps the modes of the phase of ways, or of that of relations.
  pub area-Holds :
      (object : OsmObject) {p : TypeProgress} {h : DiffHandler2}
      → InPhase Bad p h
      → Holds Bad (InPhase Bad (behind_nodes p)) (SecondPass.area env geo object h)
  unfolding SecondPass.area
  area-Holds object {p} s =
      bind-Holds
        (bind-Holds (after_nodes-Holds s) λ h1 s1.
          with_tables-Holds env geo takes (Import.handle_area env object)
            (λ ts.
              handle_area-Holds env geo takes object (copies (behind_nodes p)) ts
                (inl (areas_copy p)))
            s1)
        λ h2 s2. returned (rings-Sound object env.config.m_expiry_enabled s2)

  after_nodes_stays :
      {f : TableName → Bool} {h : DiffHandler2}
      → Sound Bad f ways h
      → Holds Bad (Sound Bad f ways) (SecondPass.after_nodes env geo h)
  unfolding SecondPass.after_nodes
  after_nodes_stays {f} {h} s =
      subst (λ q. Holds Bad (Sound Bad f ways) (SecondPass.after_nodes_in env geo q h))
        (sym s.progress) (returned s)

  -- An area behind the nodes, in any modes.
  pub area_keeps :
      (object : OsmObject) {f : TableName → Bool} {h : DiffHandler2}
      → Mode Bad f areas true
      → Sound Bad f ways h
      → Holds Bad (Sound Bad f ways) (SecondPass.area env geo object h)
  unfolding SecondPass.area
  area_keeps object {f} m s =
      bind-Holds
        (bind-Holds (after_nodes_stays s) λ h1 s1.
          with_tables-Holds env geo takes (Import.handle_area env object)
            (λ ts. handle_area-Holds env geo takes object f ts m) s1)
        λ h2 s2. returned (rings-Sound object env.config.m_expiry_enabled s2)
