-- ===== src/Diff/SecondPass/Turning.antt =====
-- The step from ways to relations in the second pass: it turns the modes of one phase into those of
-- the other.
use cerepso.Base.{
  Bool, true, false, List, [], ◌∷◌, ◌≡◌, refl, sym, ap, ◌∙◌, subst, ◌⊎◌, inl, inr, Holds, returned,
  bind-Holds, if-Holds, decide-Holds,
}
use cerepso.Osm.{OsmObject}
use cerepso.Connections.{
  TableName, nodes, untagged_nodes, ways_linear, areas, node_ways, node_relations, way_relations,
  relation_relations, relations, Environment,
}
use cerepso.Diff.Shared.{Geometries}
use cerepso.Diff.SecondPass.{DiffHandler2, TypeProgress, points, ways, relations_progress}
use cerepso.Diff.SecondPass.Relations
use cerepso.Diff.SecondPass.Calls.{Takes}
use cerepso.Diff.SecondPass.Modes.{
  copies, put, put_same, Sound, start-Holds, end-Holds, with_lists, with_progress,
}
use cerepso.Diff.SecondPass.Arrivals.{Mode}
use cerepso.Diff.SecondPass.Ordered.{InPhase, behind_nodes, area_keeps}
use cerepso.Diff.SecondPass.Updating.{
  Obliging, work_on_pending_ways-Holds, update_area_geometry-Holds,
}

module _ {Bad : Type 0} (env : Environment) (geo : Geometries)
    (takes : (name : TableName) → Takes (env.server name) ⊎ Bad)
    (obliging : Obliging env geo ⊎ Bad) where
  put-false :
      (name : TableName) {f : TableName → Bool} {p : TypeProgress} {h : DiffHandler2}
      → f name ≡ false
      → Sound Bad f p h
      → Sound Bad (put name false f) p h
  put-false name {f} {p} {h} e s =
      subst (λ g. Sound Bad g p h) (sym (ap (λ b. put name b f) (sym e) ∙ put_same name f)) s

  end_copy_if-Holds :
      (name : TableName) {f : TableName → Bool} {p : TypeProgress} {h : DiffHandler2}
      → Sound Bad f p h
      → Holds Bad (Sound Bad (put name false f) p) (Relations.end_copy_if env geo name h)
  unfolding Relations.end_copy_if
  end_copy_if-Holds name {f} {p} {h} s =
      decide-Holds (h.tables name).m_copy_mode (λ _. end-Holds env geo takes name s)
        λ out. returned (put-false name (sym (s.modes name).0 ∙ out) s)

  flush_updated-Holds :
      (buffer : List OsmObject) {f : TableName → Bool} {p : TypeProgress} {h : DiffHandler2}
      → Mode Bad f areas false
      → Sound Bad f p h
      → Holds Bad (Sound Bad f p) (Relations.flush_updated env geo buffer h)
  unfolding Relations.flush_updated
  flush_updated-Holds [] m s = returned s
  flush_updated-Holds (object ∷ buffer) m s =
      if-Holds (Relations.is_area object)
        (bind-Holds (update_area_geometry-Holds env geo takes obliging object m s)
          λ h1 s1. flush_updated-Holds buffer m s1)
        (flush_updated-Holds buffer m s)

  flush_new_keeps :
      (buffer : List OsmObject) {f : TableName → Bool} {h : DiffHandler2}
      → Bad
      → Sound Bad f ways h
      → Holds Bad (Sound Bad f ways) (Relations.flush_new env geo buffer h)
  unfolding Relations.flush_new
  flush_new_keeps [] bad s = returned s
  flush_new_keeps (object ∷ buffer) bad s =
      if-Holds (Relations.is_area object)
        (bind-Holds (area_keeps env geo takes object (inr bad) s)
          λ h1 s1. flush_new_keeps buffer bad s1)
        (flush_new_keeps buffer bad s)

  without_new :
      {f : TableName → Bool} {p : TypeProgress} {h : DiffHandler2}
      → Sound Bad f p h
      → Sound Bad f p (record h { m_new_areas_buffer = [] })
  without_new s = record {
    modes = s.modes;
    progress = s.progress;
    locates = s.locates;
    manager = s.manager;
    no_new_areas = inl refl;
  }

  flush_new-Holds :
      {f : TableName → Bool} {h : DiffHandler2}
      → Sound Bad f ways h
      → Holds Bad
          (Sound Bad f ways)
          (Relations.flush_new env geo h.m_new_areas_buffer (record h { m_new_areas_buffer = [] }))
  unfolding Relations.flush_new
  flush_new-Holds {f} {h} s = elim s.no_new_areas [
    | inr bad ↦ flush_new_keeps h.m_new_areas_buffer bad (without_new s)
    | inl e ↦
        subst
          (λ b.
            Holds Bad (Sound Bad f ways)
              (Relations.flush_new env geo b (record h { m_new_areas_buffer = [] })))
          (sym e) (returned (without_new s))
  ]

  flush-Holds :
      {f : TableName → Bool} {h : DiffHandler2}
      → Mode Bad f areas false
      → Sound Bad f ways h
      → Holds Bad (Sound Bad f ways) (Relations.flush env geo h)
  unfolding Relations.flush
  flush-Holds m s =
      bind-Holds (flush_new-Holds s)
        λ h1 s1. flush_updated-Holds h1.m_updated_areas_buffer m (with_lists _ _ _ _ s1)

  -- The tables of ways and of areas leave COPY mode.
  abbrev between : TableName → Bool
  between = put areas false (put node_ways false (put ways_linear false (copies ways)))

  end_ways-Holds :
      {h : DiffHandler2}
      → InPhase Bad ways h
      → Holds Bad (Sound Bad between ways) (Relations.end_ways env geo h)
  unfolding Relations.end_ways
  end_ways-Holds s =
      bind-Holds
        (bind-Holds (end_copy_if-Holds ways_linear s) λ h1 s1. end_copy_if-Holds node_ways s1)
        λ h2 s2. end_copy_if-Holds areas s2

  start_relations-Holds :
      {h : DiffHandler2}
      → Sound Bad between ways h
      → Holds Bad (InPhase Bad relations_progress) (Relations.start_relations env geo h)
  unfolding Relations.start_relations copies
  start_relations-Holds s =
      bind-Holds
        (bind-Holds
          (bind-Holds
            (bind-Holds
              (bind-Holds (start-Holds env geo takes areas (inl refl) s)
                λ _ s1. start-Holds env geo takes relations (inl refl) s1)
              λ _ s2. start-Holds env geo takes node_relations (inl refl) s2)
            λ _ s3. start-Holds env geo takes way_relations (inl refl) s3)
          λ _ s4. start-Holds env geo takes relation_relations (inl refl) s4)
        λ _ s5. returned (with_progress relations_progress same s5)
    where
      same :
          (name : TableName)
          → put relation_relations true
              (put way_relations true
                (put node_relations true (put relations true (put areas true between))))
              name
            ≡ copies relations_progress name
      same nodes = refl
      same untagged_nodes = refl
      same ways_linear = refl
      same areas = refl
      same node_ways = refl
      same node_relations = refl
      same way_relations = refl
      same relation_relations = refl
      same relations = refl

  write_new_ways-Holds :
      {h : DiffHandler2}
      → InPhase Bad ways h
      → Holds Bad (InPhase Bad relations_progress) (Relations.write_new_ways env geo h)
  unfolding Relations.write_new_ways copies
  write_new_ways-Holds s =
      bind-Holds
        (bind-Holds (end_ways-Holds s) λ h1 s1.
          work_on_pending_ways-Holds env geo takes obliging (inl refl, inl refl, inl refl, inl refl)
            s1)
        λ h2 s2.
          bind-Holds (flush-Holds (inl refl) (with_lists _ _ _ _ s2))
            λ h3 s3. start_relations-Holds s3

  -- Behind the nodes, the test for `write_new_ways` leads to the phase of relations.
  pub after_ways-Holds :
      (p : TypeProgress) {h : DiffHandler2}
      → InPhase Bad (behind_nodes p) h
      → Holds Bad (InPhase Bad relations_progress) (Relations.after_ways env geo h)
  unfolding Relations.after_ways
  after_ways-Holds p {h} s =
      subst (λ q. Holds Bad (InPhase Bad relations_progress) (Relations.after_ways_in env geo q h))
        (sym s.progress) (by_progress p s)
    where
      by_progress :
          (p : TypeProgress)
          → InPhase Bad (behind_nodes p) h
          → Holds Bad
              (InPhase Bad relations_progress)
              (Relations.after_ways_in env geo (behind_nodes p) h)
      by_progress points s = write_new_ways-Holds s
      by_progress ways s = write_new_ways-Holds s
      by_progress relations_progress s = returned s
