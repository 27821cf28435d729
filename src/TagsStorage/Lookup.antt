-- ===== src/TagsStorage/Lookup.antt =====
-- `TagsStorage` as a finite map.
use cerepso.Base.{
  ℕ, zero, suc, ◌+◌, ◌-◌, ◌/◌, ◌≤◌, ◌<◌, true, false, List, [], ◌∷◌, ◌++◌, Option, none, some,
  length, get_elem?, length-append, All, if◌then◌else◌, ◌==◌, ◌≡◌, refl, ap, ◌∙◌, arith, Bool-cases,
  inl, inr, sym, ltb, ltb→lt, append-nil, append_assoc,
}
use cerepso.Base.Int.{ℤ, ltb_ℤ, eq_ℤ, ◌<ℤ◌}
use cerepso.Osm.{Tag}
use cerepso.TagsStorage.{
  Element, TagsStorage, add, tags_storage, lies_before, lower_bound_loop, if_equal, get,
}

-- What stands at an index of two lists in a row.
lies_before-front :
    (a b : List Element) (id : ℤ) (i : ℕ)
    → All (λ e. e.m_id <ℤ id) a
    → i < length a
    → lies_before (get_elem? (a ++ b) i) id ≡ true
lies_before-front [] b id i h l = absurd (omega arith)
lies_before-front (e ∷ a) b id zero h l = ground arith
lies_before-front (e ∷ a) b id (suc i) h l = lies_before-front a b id i h.1 (omega arith)

lies_before-back :
    (a b : List Element) (id : ℤ) (i : ℕ)
    → All (λ e. ltb_ℤ e.m_id id ≡ false) b
    → length a ≤ i
    → lies_before (get_elem? (a ++ b) i) id ≡ false
lies_before-back [] [] id i h l = refl
lies_before-back [] (e ∷ b) id zero h l = h.0
lies_before-back [] (e ∷ b) id (suc i) h l = lies_before-back [] b id i h.1 (omega arith)
lies_before-back (e ∷ a) b id zero h l = absurd (omega arith)
lies_before-back (e ∷ a) b id (suc i) h l = lies_before-back a b id i h (omega arith)

module _ (a b : List Element) (id : ℤ) (below : All (λ e. e.m_id <ℤ id) a)
    (above : All (λ e. ltb_ℤ e.m_id id ≡ false) b) where
  front_of : (i : ℕ) → lies_before (get_elem? (a ++ b) i) id ≡ true → i < length a
  front_of i less = elim (Bool-cases (ltb i (length a))) [
    | inl h ↦ ltb→lt i (length a) h
    | inr h ↦ cc (less, lies_before-back a b id i above (ground arith))
  ]

  back_of : (i : ℕ) → lies_before (get_elem? (a ++ b) i) id ≡ false → length a ≤ i
  back_of i other = elim (Bool-cases (ltb i (length a))) [
    | inl h ↦ cc (other, lies_before-front a b id i below (ltb→lt i (length a) h))
    | inr h ↦ ground arith
  ]

  lower_bound_loop-split :
      (fuel first len : ℕ)
      → len ≤ fuel
      → first ≤ length a
      → length a ≤ first + len
      → lower_bound_loop fuel (a ++ b) id first len ≡ length a
  unfolding lower_bound_loop
  lower_bound_loop-split zero first len f l h = omega arith
  lower_bound_loop-split (suc fuel) first len f l h = elim (Bool-cases (len == 0)) [
    | inl done ↦ rw done (ground arith)
    | inr more ↦ elim (Bool-cases (lies_before (get_elem? (a ++ b) (first + len / 2)) id)) [
      | inl less ↦
          rw (more, less)
            (lower_bound_loop-split fuel (first + len / 2 + 1) (len - len / 2 - 1) (ground arith)
              (omega (arith, front_of (first + len / 2) less)) (ground arith))
      | inr other ↦
          rw (more, other)
            (lower_bound_loop-split fuel first (len / 2) (ground arith) l
              (back_of (first + len / 2) other))
    ]
  ]

  get-split : get id (record { m_index = a ++ b }) ≡ if_equal (get_elem? b 0) id
  unfolding get
  get-split =
      ap (λ i. if_equal (get_elem? (a ++ b) i) id)
        (lower_bound_loop-split (length (a ++ b)) 0 (length (a ++ b)) (omega arith) (omega arith)
          (omega (arith, length-append a b)))
      ∙ ap (λ e. if_equal e id) (at_end a)
    where
      at_end : (c : List Element) → get_elem? (c ++ b) (length c) ≡ get_elem? b 0
      at_end [] = refl
      at_end (e ∷ c) = at_end c

-- The element with the id, wherever it stands.
unfoldable pub find : ℤ → List Element → Option (List Tag)
find id [] = none
find id (e ∷ es) = if eq_ℤ e.m_id id then some e.m_tags else find id es

abbrev pub RisingIds : List Element → Type 0
RisingIds [] = Unit {0}
RisingIds (e ∷ es) = All (λ f. e.m_id <ℤ f.m_id) es × RisingIds es

find-above : (id : ℤ) (es : List Element) → All (λ e. id <ℤ e.m_id) es → find id es ≡ none
unfolding find
find-above id [] h = refl
find-above id (e ∷ es) h = ground (arith, find-above id es h.1)

record Split (id : ℤ) (es : List Element) : Type 0 where
  front : List Element
  back : List Element
  joined : front ++ back ≡ es
  below : All (λ e. e.m_id <ℤ id) front
  above : All (λ e. ltb_ℤ e.m_id id ≡ false) back
  found : if_equal (get_elem? back 0) id ≡ find id es

not_before :
    (id x : ℤ) (es : List Element)
    → ltb_ℤ x id ≡ false
    → All (λ f. x <ℤ f.m_id) es
    → All (λ e. ltb_ℤ e.m_id id ≡ false) es
not_before id x [] h a = tt
not_before id x (e ∷ es) h a = (ground arith, not_before id x es h a.1)

above_each :
    (id x : ℤ) (es : List Element)
    → ltb_ℤ x id ≡ false
    → All (λ f. x <ℤ f.m_id) es
    → All (λ e. id <ℤ e.m_id) es
above_each id x [] h a = tt
above_each id x (e ∷ es) h a = (ground arith, above_each id x es h a.1)

split : (id : ℤ) (es : List Element) → RisingIds es → Split id es
unfolding find
split id [] r = record {
  front = [];
  back = [];
  joined = refl;
  below = tt;
  above = tt;
  found = refl;
}
split id (e ∷ es) (a, r) = elim (Bool-cases (ltb_ℤ e.m_id id)) [
  | inl less ↦
      let s = split id es r in
      record {
        front = e ∷ s.front;
        back = s.back;
        joined = ap (λ l. e ∷ l) s.joined;
        below = (ground arith, s.below);
        above = s.above;
        found = s.found ∙ ground arith;
      }
  | inr other ↦ record {
    front = [];
    back = e ∷ es;
    joined = refl;
    below = tt;
    above = (other, not_before id e.m_id es other a);
    found = ground (arith, find-above id es (above_each id e.m_id es other a));
  }
]

unfoldable pub adds : List Element → TagsStorage → TagsStorage
unfolding add
adds [] s = s
adds (e ∷ es) s = adds es (add e.m_id e.m_tags s)

adds-append : (es : List Element) (s : TagsStorage) → (adds es s).m_index ≡ s.m_index ++ es
unfolding adds
adds-append [] s = sym (append-nil s.m_index)
adds-append (e ∷ es) s = adds-append es (add e.m_id e.m_tags s) ∙ append_assoc s.m_index (e ∷ []) es

-- The storage is a finite map: after tags have been added for ascending ids, `get` gives the tags of
-- an id if they were added, and the null pointer if not.
pub get-adds :
    (es : List Element) (id : ℤ) → RisingIds es → get id (adds es tags_storage) ≡ find id es
get-adds es id r =
    let s = split id es r in
    ap (λ l. get id (record { m_index = l })) (adds-append es tags_storage ∙ sym s.joined)
    ∙ get-split s.front s.back id s.below s.above
    ∙ s.found
