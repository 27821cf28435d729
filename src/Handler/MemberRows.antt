-- ===== src/Handler/MemberRows.antt =====
-- The tables of way nodes and relation members as COPY reads them.
use cerepso.Base.{
  ℕ, ◌+◌, ◌-◌, ◌^◌, ◌<◌, ◌≤◌, Bytes, List, [], ◌∷◌, ◌++◌, some, if◌then◌else◌, leb, Bool-cases, inl,
  inr, ◌≡◌, refl, sym, ap, ◌∙◌, arith, append_assoc, append-nil, length, lt→ltb, ok,
}
use cerepso.Base.Int.{ℤ, ◌<ℤ◌}
use cerepso.CopyText.{rows, line_text, rows-line_text}
use cerepso.Decimal.{decimal_ℤ, decimal_ℤ-StaysInside}
use cerepso.Escape.{escape, add_separator_to_stringstream}
use cerepso.Escape.RoundTrip.{escape-StaysInside, escape-append}
use cerepso.Osm.{ItemType, Member, OsmObject}
use cerepso.Handler.Append
use cerepso.Handler.Append.{to_int16}
use cerepso.Handler.Members
use cerepso.Handler.Members.{same_type}

-- The row of a member: its id, the relation's, the position and the role.
pub member_row : ℤ → ℕ → Member → List Bytes
member_row relation_id i m =
    decimal_ℤ m.ref ∷ decimal_ℤ relation_id ∷ decimal_ℤ (to_int16 i) ∷ escape (some m.role) [] ∷ []

-- The rows of the members of one type, of the first 2^16 - 1 members of the list.
pub member_rows : ItemType → ℤ → ℕ → List Member → List (List Bytes)
unfolding member_row
member_rows type relation_id i [] = []
member_rows type relation_id i (m ∷ members) =
    let later = member_rows type relation_id (i + 1) members in
    if leb (2 ^ 16 - 1) i
    then []
    else if same_type m.type type
    then member_row relation_id i m ∷ later
    else later

member_text : ℤ → ℕ → Member → Bytes
member_text relation_id i m =
    line_text (decimal_ℤ m.ref)
      (decimal_ℤ relation_id ∷ decimal_ℤ (to_int16 i) ∷ escape (some m.role) [] ∷ [])

member_text-rows :
    (relation_id : ℤ) (i : ℕ) (m : Member) (more : Bytes)
    → rows (member_text relation_id i m ++ more) ≡ member_row relation_id i m ∷ rows more
unfolding member_text member_row
member_text-rows relation_id i m more =
    rows-line_text (decimal_ℤ m.ref) _ more (decimal_ℤ-StaysInside m.ref) (
      decimal_ℤ-StaysInside relation_id,
      (decimal_ℤ-StaysInside (to_int16 i), (escape-StaysInside (some m.role), tt)),
    )

member_line-text :
    (relation_id : ℤ) (i : ℕ) (m : Member) (q : Bytes)
    → Members.member_line relation_id i m q ≡ q ++ member_text relation_id i m
unfolding Members.member_line member_text line_text Append.add_osm_id Append.add_int16
    add_separator_to_stringstream
member_line-text relation_id i m q =
    ap (λ t. t ++ b'\n' ∷ []) (escape-append (some m.role) _) ∙ (simp append_assoc)

member_list_loop-append :
    (type : ItemType) (relation_id : ℤ) (i : ℕ) (members : List Member) (q : Bytes)
    → Members.member_list_loop type relation_id i members q
      ≡ q ++ Members.member_list_loop type relation_id i members []
unfolding Members.member_list_loop
member_list_loop-append type relation_id i [] q = sym (append-nil q)
member_list_loop-append type relation_id i (m ∷ members) q =
    elim (Bool-cases (leb (2 ^ 16 - 1) i)) [
      | inl past ↦ rw past (sym (append-nil q))
      | inr before ↦ elim (Bool-cases (same_type m.type type)) [
        | inl same ↦
            rw (before, same)
              (member_list_loop-append type relation_id (i + 1) members
                  (Members.member_line relation_id i m q)
                ∙ rw (member_line-text relation_id i m q) (append_assoc q _ _)
                ∙ ap (◌++◌ q) (
                    sym (
                      member_list_loop-append type relation_id (i + 1) members
                        (member_text relation_id i m))
                    ∙ ap (Members.member_list_loop type relation_id (i + 1) members)
                        (sym (member_line-text relation_id i m []))))
        | inr other ↦
            rw (before, other) (member_list_loop-append type relation_id (i + 1) members q)
      ]
    ]

member_list_loop-rows :
    (type : ItemType) (relation_id : ℤ) (i : ℕ) (members : List Member) (more : Bytes)
    → rows (Members.member_list_loop type relation_id i members [] ++ more)
      ≡ member_rows type relation_id i members ++ rows more
unfolding Members.member_list_loop member_rows
member_list_loop-rows type relation_id i [] more = refl
member_list_loop-rows type relation_id i (m ∷ members) more =
    elim (Bool-cases (leb (2 ^ 16 - 1) i)) [
      | inl past ↦ rw past refl
      | inr before ↦ elim (Bool-cases (same_type m.type type)) [
        | inl same ↦
            rw (before, same)
              (ap (λ t. rows (t ++ more))
                  (member_list_loop-append type relation_id (i + 1) members _
                    ∙ ap (λ t. t ++ Members.member_list_loop type relation_id (i + 1) members [])
                        (member_line-text relation_id i m []))
                ∙ ap rows (append_assoc (member_text relation_id i m) _ more)
                ∙ member_text-rows relation_id i m _
                ∙ ap (◌∷◌ (member_row relation_id i m))
                    (member_list_loop-rows type relation_id (i + 1) members more))
        | inr other ↦
            rw (before, other) (member_list_loop-rows type relation_id (i + 1) members more)
      ]
    ]

-- COPY reads a member list as one row for each member of the type among the first 2^16 - 1
-- members, in order: the member's id, the relation's, the position as `int16_t` and the role. Roles
-- of any bytes keep the rows apart, and what follows the list is read as it would be without it.
pub prepare_relation_member_list_query-rows :
    (r : OsmObject) (type : ItemType) (more : Bytes)
    → rows (Members.prepare_relation_member_list_query r type ++ more)
      ≡ member_rows type r.id 0 r.members ++ rows more
unfolding Members.prepare_relation_member_list_query
prepare_relation_member_list_query-rows r type more =
    member_list_loop-rows type r.id 0 r.members more

-- Below 2^15 the positions of way nodes and relation members rise with the place in the list.
pub to_int16_rises : (i j : ℕ) → i < j → j < 2 ^ 15 → to_int16 i <ℤ to_int16 j
to_int16_rises i j h k = ground arith

node_row : ℤ → ℕ → ℤ → List Bytes
node_row way_id i ref = decimal_ℤ way_id ∷ decimal_ℤ ref ∷ decimal_ℤ (to_int16 i) ∷ []

-- The rows of the nodes of a way.
pub node_rows : ℤ → ℕ → List ℤ → List (List Bytes)
unfolding node_row
node_rows way_id i [] = []
node_rows way_id i (ref ∷ nodes) = node_row way_id i ref ∷ node_rows way_id (i + 1) nodes

node_text : ℤ → ℕ → ℤ → Bytes
node_text way_id i ref = line_text (decimal_ℤ way_id) (decimal_ℤ ref ∷ decimal_ℤ (to_int16 i) ∷ [])

node_line-text :
    (way_id : ℤ) (i : ℕ) (ref : ℤ) (q : Bytes)
    → Members.node_line way_id i ref q ≡ q ++ node_text way_id i ref
unfolding Members.node_line node_text line_text Append.add_osm_id Append.add_int16
    add_separator_to_stringstream
node_line-text way_id i ref q = simp append_assoc

node_text-rows :
    (way_id : ℤ) (i : ℕ) (ref : ℤ) (more : Bytes)
    → rows (node_text way_id i ref ++ more) ≡ node_row way_id i ref ∷ rows more
unfolding node_text node_row
node_text-rows way_id i ref more =
    rows-line_text (decimal_ℤ way_id) _ more (decimal_ℤ-StaysInside way_id)
      (decimal_ℤ-StaysInside ref, (decimal_ℤ-StaysInside (to_int16 i), tt))

-- The rows behind what has been appended before.
node_way_loop-rows :
    (way_id : ℤ) (i : ℕ) (nodes : List ℤ) (q : Bytes) (front : List (List Bytes))
    → i + length nodes ≤ 2 ^ 16 - 1
    → ((more : Bytes) → rows (q ++ more) ≡ front ++ rows more)
    → (line : Bytes) × (Members.node_way_loop way_id i nodes q ≡ ok line)
      × ((more : Bytes) → rows (line ++ more) ≡ (front ++ node_rows way_id i nodes) ++ rows more)
unfolding Members.node_way_loop node_rows
node_way_loop-rows way_id i [] q front h before =
    (q, refl, λ more. before more ∙ rw (append-nil front) refl)
node_way_loop-rows way_id i (ref ∷ nodes) q front h before =
    rw
      (
        lt→ltb i (2 ^ 16 - 1) (omega arith),
        ← append_assoc front (node_row way_id i ref ∷ []) (node_rows way_id (i + 1) nodes),
      )
      (node_way_loop-rows way_id (i + 1) nodes (Members.node_line way_id i ref q)
        (front ++ node_row way_id i ref ∷ []) (omega arith) one_more)
  where
    one_more :
        (more : Bytes)
        → rows (Members.node_line way_id i ref q ++ more)
          ≡ (front ++ node_row way_id i ref ∷ []) ++ rows more
    one_more more =
        ap (λ t. rows (t ++ more)) (node_line-text way_id i ref q)
        ∙ ap rows (append_assoc q (node_text way_id i ref) more)
        ∙ before (node_text way_id i ref ++ more)
        ∙ ap (◌++◌ front) (node_text-rows way_id i ref more)
        ∙ sym (append_assoc front (node_row way_id i ref ∷ []) (rows more))

-- For a way of up to 2^16 - 1 nodes `prepare_node_way_query` returns, and COPY reads the list as one
-- row for each node, in order: the way's id, the node's, and the position as `int16_t`.
pub prepare_node_way_query-rows :
    (way : OsmObject)
    → length way.nodes ≤ 2 ^ 16 - 1
    → (line : Bytes) × (Members.prepare_node_way_query way ≡ ok line)
      × ((more : Bytes) → rows (line ++ more) ≡ node_rows way.id 0 way.nodes ++ rows more)
unfolding Members.prepare_node_way_query
prepare_node_way_query-rows way h =
    node_way_loop-rows way.id 0 way.nodes [] [] (omega (arith, h)) (λ more. refl)
