-- ===== src/Diff/SecondPass/Updating.antt =====
-- The updates of ways and areas in the second pass: when they return, and that they keep the modes.
use cerepso.Base.{
  Bytes, length, Bool, true, false, List, [], ◌∷◌, Option, none, some, map, Result, ok, err, ◌≡◌,
  ◌≢◌, refl, ◌⊎◌, inl, inr, codes, Holds, returned, thrown, bind-Holds, bad-Holds, if-Holds,
}
use cerepso.Base.Int.{ℤ}
use cerepso.Osm.{Location, OsmObject}
use cerepso.Database.{Server, Table}
use cerepso.Database.Queries
use cerepso.Connections.{TableName, ways_linear, areas, node_ways, way_relations, Environment}
use cerepso.Import.{all_valid}
use cerepso.Diff.Shared.{
  Fault, database, not_found, invalid_location, illegal_argument, null_pointer, out_of_range,
  assertion, FactoryFault, geometry_error, invalid_coordinates, LocationIndex, Geometries,
}
use cerepso.Diff.SecondPass.{DiffHandler2, TypeProgress, run}
use cerepso.Diff.SecondPass.Ways
use cerepso.Diff.SecondPass.Ways.{built_or, catch_not_found, found_or_none}
use cerepso.Diff.SecondPass.Calls.{Takes, Ready, require_connected, run_guarded-Holds}
use cerepso.Diff.SecondPass.Modes.{Locates, Sound, run_keeps, with_lists}
use cerepso.Diff.SecondPass.Arrivals.{Mode, relation_ids-Holds, way_nodes-Holds, count-Holds}

-- A WKB factory and a GEOS that make something of valid locations, or say that they cannot. GEOS
-- throws for a line of one point, so no way in the table has one node only. Tile expiry is off.
pub record Obliging (env : Environment) (geo : Geometries) : Type 0 where
  pub no_expiry : env.config.m_expiry_enabled ≡ false
  pub way_nodes :
      (id : ℤ) (t : Table) (r : List (ℤ × ℤ) × Table)
      → Queries.get_way_nodes (env.server node_ways) id t ≡ ok r
      → length r.0 ≢ 1
  pub linestring :
      (locs : List Location) → all_valid locs ≡ true → geo.linestring locs ≢ err invalid_coordinates
  pub polygon :
      (locs : List Location) → all_valid locs ≡ true → geo.polygon locs ≢ err invalid_coordinates
  pub multipolygon : (object : OsmObject) → geo.multipolygon object ≢ err invalid_coordinates
  pub create_linestring :
      (locs : List Location)
      → length locs ≢ 1
      → (line : List Location) × (geo.create_linestring locs ≡ ok line)

module _ {Bad : Type 0} where
  built-Holds :
      (wkb : Bytes) (r : Result FactoryFault Bytes)
      → (r ≢ err invalid_coordinates) ⊎ Bad
      → Holds Bad (λ w. Unit {0}) (built_or wkb r)
  built-Holds wkb (ok built) p = returned tt
  built-Holds wkb (err geometry_error) p = returned tt
  built-Holds wkb (err invalid_coordinates) (inl n) = absurd (n refl)
  built-Holds wkb (err invalid_coordinates) (inr bad) = thrown bad

  pub found-Holds :
      (index : LocationIndex) (id : ℤ)
      → Locates index ⊎ Bad
      → Holds Bad (λ loc. (loc.valid ≡ true) ⊎ Bad) (index.get_node_location id)
  found-Holds index id (inl l) = let (loc, e, v) = l id in rw e (returned (inl v))
  found-Holds index id (inr bad) = bad-Holds _ bad λ loc. inr bad

  pub both_valid :
      (loc : Location) (locs : List Location)
      → (loc.valid ≡ true) ⊎ Bad
      → (all_valid locs ≡ true) ⊎ Bad
      → (all_valid (loc ∷ locs) ≡ true) ⊎ Bad
  both_valid loc locs (inl a) (inl b) = inl (rw (a, b) refl)
  both_valid loc locs (inr bad) q = inr bad
  both_valid loc locs p (inr bad) = inr bad

  pub locate-Holds :
      (index : LocationIndex) (ids : List ℤ)
      → Locates index ⊎ Bad
      → Holds Bad (λ locs. (all_valid locs ≡ true) ⊎ Bad) (Ways.locate index ids)
  unfolding Ways.locate
  locate-Holds index [] l = returned (inl refl)
  locate-Holds index (id ∷ ids) l =
      bind-Holds (found-Holds index id l)
        λ loc v. bind-Holds (locate-Holds index ids l) λ locs w. returned (both_valid loc locs v w)

  catch-Holds :
      {r : Result Fault (List Location)}
      → Holds Bad (λ locs. (all_valid locs ≡ true) ⊎ Bad) r
      → Holds Bad (λ o. (all_valid (found_or_none o) ≡ true) ⊎ Bad) (catch_not_found r)
  catch-Holds (returned v) = returned v
  catch-Holds (thrown {e = not_found} bad) = returned (inl refl)
  catch-Holds (thrown {e = database x} bad) = thrown bad
  catch-Holds (thrown {e = invalid_location} bad) = thrown bad
  catch-Holds (thrown {e = illegal_argument} bad) = thrown bad
  catch-Holds (thrown {e = null_pointer} bad) = thrown bad
  catch-Holds (thrown {e = out_of_range} bad) = thrown bad
  catch-Holds (thrown {e = assertion} bad) = thrown bad

  -- A fact of the factory on valid locations.
  made {ℓ} :
      {A : List Location → Type ℓ} (locs : List Location)
      → ((ls : List Location) → all_valid ls ≡ true → A ls) ⊎ Bad
      → (all_valid locs ≡ true) ⊎ Bad
      → A locs ⊎ Bad
  made locs (inl f) (inl e) = inl (f locs e)
  made locs (inr bad) e = inr bad
  made locs f (inr bad) = inr bad

  update_geometry-Holds :
      (server : Server) (b : Bool) (id : ℤ) (wkb : Bytes) (t : Table)
      → Takes server ⊎ Bad
      → (b ≡ false) ⊎ Bad
      → Ready Bad b t
      → Holds Bad (Ready Bad b) (Queries.update_geometry server id wkb t)
  unfolding Queries.update_geometry
  update_geometry-Holds server b id wkb t k m r =
      bind-Holds (require_connected server k b t r)
        λ _ c. run_guarded-Holds server k b (codes "update_geometry") _ t m r

module _ {Bad : Type 0} (env : Environment) (geo : Geometries)
    (takes : (name : TableName) → Takes (env.server name) ⊎ Bad)
    (obliging : Obliging env geo ⊎ Bad) where
  line_fact :
      ((ls : List Location) → all_valid ls ≡ true → geo.linestring ls ≢ err invalid_coordinates)
      ⊎ Bad
  line_fact = elim obliging [ inl o ↦ inl o.linestring | inr bad ↦ inr bad ]

  polygon_fact :
      ((ls : List Location) → all_valid ls ≡ true → geo.polygon ls ≢ err invalid_coordinates) ⊎ Bad
  polygon_fact = elim obliging [ inl o ↦ inl o.polygon | inr bad ↦ inr bad ]

  area_fact : (object : OsmObject) → (geo.multipolygon object ≢ err invalid_coordinates) ⊎ Bad
  area_fact object = elim obliging [ inl o ↦ inl (o.multipolygon object) | inr bad ↦ inr bad ]

  geometry-Holds :
      (name : TableName) (id : ℤ) (wkb : Bytes) {f : TableName → Bool} {p : TypeProgress}
      {h : DiffHandler2}
      → Mode Bad f name false
      → Sound Bad f p h
      → Holds Bad
          (Sound Bad f p)
          (run env geo name (λ server. Queries.update_geometry server id wkb) h)
  geometry-Holds name id wkb {f} m =
      run_keeps env geo takes name (λ server. Queries.update_geometry server id wkb)
        (λ t. update_geometry-Holds (env.server name) (f name) id wkb t (takes name) m)

  line_built-Holds :
      (id : ℤ) (r : Result FactoryFault Bytes) {f : TableName → Bool} {p : TypeProgress}
      {h : DiffHandler2}
      → (r ≢ err invalid_coordinates) ⊎ Bad
      → Mode Bad f way_relations false
      → Sound Bad f p h
      → Holds Bad (λ w. Sound Bad f p w.1) (Ways.line_built env geo id r h)
  unfolding Ways.line_built
  line_built-Holds id (ok wkb) n m s =
      bind-Holds (relation_ids-Holds env geo takes way_relations id m s)
        λ r s1. returned (with_lists _ _ _ _ s1)
  line_built-Holds id (err geometry_error) n m s = returned s
  line_built-Holds id (err invalid_coordinates) (inl n) m s = absurd (n refl)
  line_built-Holds id (err invalid_coordinates) (inr bad) m s = thrown bad

  line_of-Holds :
      (id : ℤ) (locs : Option (List Location)) {f : TableName → Bool} {p : TypeProgress}
      {h : DiffHandler2}
      → (all_valid (found_or_none locs) ≡ true) ⊎ Bad
      → Mode Bad f way_relations false
      → Sound Bad f p h
      → Holds Bad (λ w. Sound Bad f p w.1) (Ways.line_of env geo id locs h)
  unfolding Ways.line_of
  line_of-Holds id none v m s = returned s
  line_of-Holds id (some locs) v m s =
      line_built-Holds id (geo.linestring locs) (made locs line_fact v) m s

  pub has_area-Holds :
      (id : ℤ) {f : TableName → Bool} {p : TypeProgress} {h : DiffHandler2}
      → Mode Bad f areas false
      → Sound Bad f p h
      → Holds Bad (λ a. Sound Bad f p a.1) (Ways.has_area env geo id h)
  unfolding Ways.has_area
  has_area-Holds id m s =
      if-Holds _ (returned s)
        (bind-Holds (count-Holds env geo takes areas id m s) λ r s1. returned s1)

  way_area-Holds :
      (id : ℤ) (b : Bool) (locs : List Location) {f : TableName → Bool} {p : TypeProgress}
      {h : DiffHandler2}
      → (all_valid locs ≡ true) ⊎ Bad
      → Mode Bad f areas false
      → Sound Bad f p h
      → Holds Bad (Sound Bad f p) (Ways.update_way_area env geo id b locs h)
  unfolding Ways.update_way_area
  way_area-Holds id false locs v m s = returned s
  way_area-Holds id true locs v m s =
      bind-Holds (built-Holds _ (geo.polygon locs) (made locs polygon_fact v))
        λ wkb _. geometry-Holds areas id wkb m s

  -- The four tables that the update of a way reads and writes are not in COPY mode.
  abbrev pub Updatable : (TableName → Bool) → Type 0
  Updatable f =
      Mode Bad f areas false
      × Mode Bad f node_ways false
      × Mode Bad f way_relations false
      × Mode Bad f ways_linear false

  update_way-Holds :
      (id : ℤ) {f : TableName → Bool} {p : TypeProgress} {h : DiffHandler2}
      → Updatable f
      → Sound Bad f p h
      → Holds Bad (Sound Bad f p) (Ways.update_way env geo id h)
  unfolding Ways.update_way
  update_way-Holds id (a, n, r, l) s = bind-Holds (has_area-Holds id a s) λ flag s1.
      bind-Holds (way_nodes-Holds env geo takes node_ways id n s1) λ listed s2.
        bind-Holds
          (catch-Holds
            (locate-Holds listed.1.m_location_index (map (λ m. m.0) listed.0) s2.locates))
          λ locs v. bind-Holds (line_of-Holds id locs v r s2) λ w s3.
            bind-Holds (geometry-Holds ways_linear id w.0 l s3)
              λ h4 s4. way_area-Holds id flag.0 (found_or_none locs) v a s4

  update_ways-Holds :
      (ids : List ℤ) {f : TableName → Bool} {p : TypeProgress} {h : DiffHandler2}
      → Updatable f
      → Sound Bad f p h
      → Holds Bad (Sound Bad f p) (Ways.update_ways env geo ids h)
  unfolding Ways.update_ways
  update_ways-Holds [] u s = returned s
  update_ways-Holds (id ∷ ids) u s =
      bind-Holds (update_way-Holds id u s) λ h1 s1. update_ways-Holds ids u s1

  pub work_on_pending_ways-Holds :
      {f : TableName → Bool} {p : TypeProgress} {h : DiffHandler2}
      → Updatable f
      → Sound Bad f p h
      → Holds Bad (Sound Bad f p) (Ways.work_on_pending_ways env geo h)
  unfolding Ways.work_on_pending_ways
  work_on_pending_ways-Holds u s = update_ways-Holds _ u (with_lists _ _ _ _ s)

  pub update_area_geometry-Holds :
      (object : OsmObject) {f : TableName → Bool} {p : TypeProgress} {h : DiffHandler2}
      → Mode Bad f areas false
      → Sound Bad f p h
      → Holds Bad (Sound Bad f p) (Ways.update_area_geometry env geo object h)
  unfolding Ways.update_area_geometry
  update_area_geometry-Holds object m s =
      bind-Holds (built-Holds _ (geo.multipolygon object) (area_fact object))
        λ wkb _. geometry-Holds areas object.orig_id wkb m s
