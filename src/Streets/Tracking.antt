-- ===== src/Streets/Tracking.antt =====
-- What the first pass leaves in the members databases.
use cerepso.Base.{
  ℕ, ◌+◌, Bool, true, false, ◌&&◌, ◌||◌, List, [], ◌∷◌, ◌++◌, if◌then◌else◌, ◌==◌, length, Result,
  ok, ◌>>=◌, ◌≡◌, refl, sym, ap, ◌∙◌, Bool-cases, inl, inr, Holds, returned, bind-Holds, map-Holds,
  returns-Holds, ok-Holds, All, append-nil, append_assoc, subst,
}
use cerepso.Base.Int.{ℤ}
use cerepso.Osm
use cerepso.Osm.{ItemType, Tag, Member, OsmObject}
use cerepso.Handler.Members.{same_type}
use cerepso.Streets
use cerepso.Streets.Members.{
  Tracked, is_tracked, has_member, streets, is_member_at, pushed, is_tracked-pushed, get_elem-last,
}
use cerepso.Streets.{
  MembersDatabase, Fault, new_relation, Manager, manager, track_in, track_members,
  get_relation_tags,
}

module _ (lib : MembersDatabase) where
  open lib use {Db, fresh, track}

  -- The database behind so many calls, the last one first.
  unfoldable pub tracks : List Tracked → Db
  tracks [] = fresh
  tracks (e ∷ es) = track e.at e.ref e.num (tracks es)

  unfoldable pub all_relations : List OsmObject → Manager lib → Result Fault (Manager lib)
  unfolding Streets.relation
  all_relations [] m = ok m
  all_relations (r ∷ relations) m = Streets.relation lib r m >>= all_relations relations

  abbrev pub members_of : ItemType → Manager lib → Db
  members_of Osm.node m = m.node_members
  members_of Osm.way m = m.way_members
  members_of Osm.relation m = m.relation_members
  members_of Osm.area m = fresh

  -- The database of a type holds these members, and the relations are as they are.
  pub record Keeps (type : ItemType) (es : List Tracked) (relations : List OsmObject)
      (m : Manager lib) : Type 0 where
    pub tracked : members_of type m ≡ tracks es
    pub same : m.relations ≡ relations

  -- No member is an area, as in every file.
  abbrev pub NoAreas : List Member → Type 0
  NoAreas members = All (λ member. same_type member.type Osm.area ≡ false) members

  track_in-Keeps :
      (type kind : ItemType) (at : ℕ) (ref : ℤ) (n : ℕ) (es : List Tracked)
      (relations : List OsmObject) (m : Manager lib)
      → same_type kind Osm.area ≡ false
      → Keeps type es relations m
      → Holds ⊥
          (Keeps type
            (if same_type kind type then record { at = at; ref = ref; num = n } ∷ es else es)
            relations)
          (track_in lib kind at ref n m)
  unfolding tracks
  track_in-Keeps type Osm.area at ref n es relations m a k = cc
  track_in-Keeps Osm.node Osm.node at ref n es relations m a k =
      returned (record { tracked = ap (track at ref n) k.tracked; same = k.same })
  track_in-Keeps Osm.way Osm.way at ref n es relations m a k =
      returned (record { tracked = ap (track at ref n) k.tracked; same = k.same })
  track_in-Keeps Osm.relation Osm.relation at ref n es relations m a k =
      returned (record { tracked = ap (track at ref n) k.tracked; same = k.same })
  track_in-Keeps Osm.node Osm.way at ref n es relations m a k =
      returned (record { tracked = k.tracked; same = k.same })
  track_in-Keeps Osm.node Osm.relation at ref n es relations m a k =
      returned (record { tracked = k.tracked; same = k.same })
  track_in-Keeps Osm.way Osm.node at ref n es relations m a k =
      returned (record { tracked = k.tracked; same = k.same })
  track_in-Keeps Osm.way Osm.relation at ref n es relations m a k =
      returned (record { tracked = k.tracked; same = k.same })
  track_in-Keeps Osm.relation Osm.node at ref n es relations m a k =
      returned (record { tracked = k.tracked; same = k.same })
  track_in-Keeps Osm.relation Osm.way at ref n es relations m a k =
      returned (record { tracked = k.tracked; same = k.same })
  track_in-Keeps Osm.area Osm.node at ref n es relations m a k =
      returned (record { tracked = k.tracked; same = k.same })
  track_in-Keeps Osm.area Osm.way at ref n es relations m a k =
      returned (record { tracked = k.tracked; same = k.same })
  track_in-Keeps Osm.area Osm.relation at ref n es relations m a k =
      returned (record { tracked = k.tracked; same = k.same })

  track_members-Keeps :
      (type : ItemType) (at : ℕ) (members : List Member) (n : ℕ) (es : List Tracked)
      (relations : List OsmObject) (m : Manager lib)
      → NoAreas members
      → Keeps type es relations m
      → Holds ⊥
          (Keeps type (pushed type at members n es) relations)
          (track_members lib at members n m)
  unfolding track_members pushed
  track_members-Keeps type at [] n es relations m a k = returned k
  track_members-Keeps type at (member ∷ members) n es relations m a k =
      bind-Holds (track_in-Keeps type member.type at member.ref n es relations m a.0 k)
        (λ m1 k1. track_members-Keeps type at members (n + 1) _ relations m1 a.1 k1)

  -- The tracked members of a type are those of the relations.
  pub record Knows (type : ItemType) (relations : List OsmObject) (m : Manager lib) : Type 0 where
    pub es : List Tracked
    pub keeps : Keeps type es relations m
    pub exact : (at : ℕ) (id : ℤ) → is_tracked at id es ≡ is_member_at type at id relations

  pub manager-Knows : (type : ItemType) → Knows type [] (manager lib)
  unfolding tracks is_tracked is_member_at
  manager-Knows type = record {
    es = [];
    keeps = record { tracked = empty type; same = refl };
    exact = λ at id. refl;
  }
    where
      empty : (t : ItemType) → members_of t (manager lib) ≡ fresh
      empty Osm.node = refl
      empty Osm.way = refl
      empty Osm.relation = refl
      empty Osm.area = refl

  with_relation :
      (type : ItemType) (es : List Tracked) (relations rs : List OsmObject) (m : Manager lib)
      → Keeps type es relations m
      → Keeps type es rs (record m { relations = rs })
  with_relation Osm.node es relations rs m k = record { tracked = k.tracked; same = refl }
  with_relation Osm.way es relations rs m k = record { tracked = k.tracked; same = refl }
  with_relation Osm.relation es relations rs m k = record { tracked = k.tracked; same = refl }
  with_relation Osm.area es relations rs m k = record { tracked = k.tracked; same = refl }

  abbrev and_street : List OsmObject → OsmObject → List OsmObject
  and_street relations r = if new_relation r then relations ++ r ∷ [] else relations

  relation-Knows :
      (type : ItemType) (relations : List OsmObject) (r : OsmObject) (m : Manager lib)
      → NoAreas r.members
      → Knows type relations m
      → Holds ⊥ (Knows type (and_street relations r)) (Streets.relation lib r m)
  unfolding Streets.relation
  relation-Knows type relations r m a k = elim (Bool-cases (new_relation r)) [
    | inl street ↦ rw street (
        map-Holds
          (λ m1 k1.
            subst (λ rs. Knows type (rs ++ r ∷ []) m1) k.keeps.same
              (record {
                es = pushed type (length m.relations) r.members 0 k.es;
                keeps = k1;
                exact = λ at id.
                    is_tracked-pushed type at id (length m.relations) r.members 0 k.es
                    ∙ ap (λ b. (at == length m.relations && has_member type id r.members) || b)
                        (k.exact at id)
                    ∙ ap
                        (λ rs.
                          (at == length m.relations && has_member type id r.members)
                          || is_member_at type at id rs)
                        (sym k.keeps.same)
                    ∙ sym (get_elem-last m.relations r type at id);
              }))
          (track_members-Keeps type (length m.relations) r.members 0 k.es (m.relations ++ r ∷ []) _
            a (with_relation type k.es relations _ m k.keeps)))
    | inr other ↦ rw other (returned k)
  ]

  pub all_relations-Knows :
      (type : ItemType) (objects relations : List OsmObject) (m : Manager lib)
      → All (λ r. NoAreas r.members) objects
      → Knows type relations m
      → Holds ⊥ (Knows type (relations ++ streets objects)) (all_relations objects m)
  unfolding all_relations streets
  all_relations-Knows type [] relations m a k = returned (rw (append-nil relations) k)
  all_relations-Knows type (r ∷ objects) relations m a k =
      bind-Holds (relation-Knows type relations r m a.0 k) (λ m1 k1.
        map-Holds (λ m2 k2. subst (λ rs. Knows type rs m2) (in_order (new_relation r)) k2)
          (all_relations-Knows type objects (and_street relations r) m1 a.1 k1))
    where
      in_order :
          (b : Bool)
          → (if b then relations ++ r ∷ [] else relations) ++ streets objects
            ≡ relations ++ (if b then r ∷ streets objects else streets objects)
      in_order true = append_assoc relations (r ∷ []) (streets objects)
      in_order false = refl

  member_database-members_of :
      (type : ItemType) (m : Manager lib)
      → same_type type Osm.area ≡ false
      → Streets.member_database lib type m ≡ ok (members_of type m)
  member_database-members_of Osm.node m a = refl
  member_database-members_of Osm.way m a = refl
  member_database-members_of Osm.relation m a = refl
  member_database-members_of Osm.area m a = cc

  -- The first pass over relations whose members are nodes, ways and relations returns. The manager
  -- then holds exactly the associated streets, in order, and in the database of nodes, ways or
  -- relations exactly their members of that type have been tracked, each under the position of its
  -- street.
  pub all_relations-tracks :
      (objects : List OsmObject)
      → All (λ r. NoAreas r.members) objects
      → (m : Manager lib) × (all_relations objects (Streets.manager lib) ≡ ok m)
        × (m.relations ≡ streets objects)
        × ((type : ItemType)
            → same_type type Osm.area ≡ false
            → (es : List Tracked) × (Streets.member_database lib type m ≡ ok (tracks es))
              × ((at : ℕ) (id : ℤ)
                  → is_tracked at id es ≡ is_member_at type at id (streets objects)))
  all_relations-tracks objects areas =
      let run = returns-Holds (known Osm.node) in
      let nodes_known = ok-Holds (known Osm.node) run.1 in
      (
        run.0,
        run.1,
        nodes_known.keeps.same,
        λ type a.
            let k = ok-Holds (known type) run.1 in
            (k.es, member_database-members_of type run.0 a ∙ ap ok k.keeps.tracked, k.exact),
      )
    where
      known :
          (type : ItemType)
          → Holds ⊥ (Knows type (streets objects)) (all_relations objects (Streets.manager lib))
      known type =
          all_relations-Knows type objects [] (Streets.manager lib) areas (manager-Knows type)
