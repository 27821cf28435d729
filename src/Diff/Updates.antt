-- ===== src/Diff/Updates.antt =====
-- Which pending objects are worked on.
use cerepso.Base.{
  List, [], ◌∷◌, ◌++◌, map, drop, if◌then◌else◌, Bool-cases, inl, inr, ◌≡◌, refl, ap, ◌∙◌, arith,
  All,
}
use cerepso.Base.Int.{ℤ, pos, ◌<ℤ◌, ◌≤ℤ◌}
use cerepso.Diff.Pending.{
  Pending, sort, insert, unique, sort_unique, find_positive, work, work_behind,
  clean_up_container_and_work_on,
}
use cerepso.Diff.Marks.{Rising, is_in, zero_if_in, marks, marks-map_all}
use cerepso.Diff.Sorting.{sort_unique_lem}

-- The ids that are not among the others.
pub others : List ℤ → List ℤ → List ℤ
unfolding is_in
others ids [] = []
others ids (x ∷ xs) = if is_in ids x then others ids xs else x ∷ others ids xs

-- The zeros that the marks leave.
zeros : List ℤ → List ℤ → List ℤ
unfolding is_in
zeros ids [] = []
zeros ids (x ∷ xs) = if is_in ids x then pos 0 ∷ zeros ids xs else zeros ids xs

others-All : (y : ℤ) (ids xs : List ℤ) → All (λ x. y <ℤ x) xs → All (λ x. y <ℤ x) (others ids xs)
unfolding others
others-All y ids [] p = tt
others-All y ids (x ∷ xs) p = ground (arith, others-All y ids xs p.1)

others-Rising : (ids xs : List ℤ) → Rising xs → Rising (others ids xs)
unfolding others
others-Rising ids [] r = tt
others-Rising ids (x ∷ xs) r = ground (arith, others-Rising ids xs r.1, others-All x ids xs r.0)

insert_zero : (ys : List ℤ) → All (λ y. pos 0 ≤ℤ y) ys → insert (pos 0) ys ≡ pos 0 ∷ ys
unfolding insert
insert_zero [] p = refl
insert_zero (y ∷ ys) p = ground arith

zeros_first :
    (ids xs ys : List ℤ) → All (λ y. pos 0 <ℤ y) ys → All (λ y. pos 0 ≤ℤ y) (zeros ids xs ++ ys)
unfolding zeros
zeros_first ids [] [] p = tt
zeros_first ids [] (y ∷ ys) p = (omega arith, zeros_first ids [] ys p.1)
zeros_first ids (x ∷ xs) ys p = ground (arith, zeros_first ids xs ys p)

insert_least : (x : ℤ) (ys : List ℤ) → All (λ y. x <ℤ y) ys → insert x ys ≡ x ∷ ys
unfolding insert
insert_least x [] p = refl
insert_least x (y ∷ ys) p = ground arith

insert-zeros :
    (x : ℤ) (ids xs ys : List ℤ)
    → pos 0 <ℤ x
    → All (λ y. x <ℤ y) ys
    → insert x (zeros ids xs ++ ys) ≡ zeros ids xs ++ x ∷ ys
unfolding zeros insert
insert-zeros x ids [] ys h p = insert_least x ys p
insert-zeros x ids (z ∷ xs) ys h p = ground (arith, insert-zeros x ids xs ys h p)

sort-map :
    (ids xs : List ℤ)
    → Rising (pos 0 ∷ xs)
    → sort (map (zero_if_in ids) xs) ≡ zeros ids xs ++ others ids xs
unfolding sort zeros others zero_if_in
sort-map ids [] r = refl
sort-map ids (x ∷ xs) r = elim (Bool-cases (is_in ids x)) [
  | inl marked ↦ rw marked (
      ap (insert (pos 0)) (sort-map ids xs (r.0.1, r.1.1))
      ∙ insert_zero _ (zeros_first ids xs _ (others-All (pos 0) ids xs r.0.1)))
  | inr kept ↦ rw kept (
      ap (insert x) (sort-map ids xs (r.0.1, r.1.1))
      ∙ insert-zeros x ids xs _ r.0.0 (others-All x ids xs r.1.0))
]

find_positive-zeros :
    (ids xs ys : List ℤ) → All (λ y. pos 0 <ℤ y) ys → find_positive (zeros ids xs ++ ys) ≡ ys
unfolding find_positive zeros
find_positive-zeros ids [] [] p = refl
find_positive-zeros ids [] (y ∷ ys) p = ground arith
find_positive-zeros ids (x ∷ xs) ys p = ground (arith, find_positive-zeros ids xs ys p)

work-Rising : (last : ℤ) (xs : List ℤ) → Rising (last ∷ xs) → work last xs ≡ xs
unfolding work
work-Rising last [] r = refl
work-Rising last (x ∷ xs) r = ground (arith, work-Rising x xs r.1)

work_behind-Rising : (xs : List ℤ) → Rising (pos 0 ∷ xs) → work_behind xs ≡ drop 1 xs
work_behind-Rising [] r = refl
work_behind-Rising (x ∷ xs) r = work-Rising (pos 0) xs (r.0.1, r.1.1)

-- What the second pass updates: of the pending objects, sorted and without duplicates, those that
-- do not arrive in the diff themselves, in ascending order, but for the first of them, which is
-- left out. The objects arrive in ascending order, and all ids are positive.
pub pending_updates :
    (p : Pending) (ids : List ℤ)
    → p.idx ≡ 0
    → Rising (pos 0 ∷ ids)
    → All (λ z. pos 0 <ℤ z) (sort_unique p).ids
    → clean_up_container_and_work_on (marks (sort_unique p) ids).ids
      ≡ drop 1 (others ids (sort_unique p).ids)
unfolding clean_up_container_and_work_on sort_unique
pending_updates p ids start r h =
    ap (λ ids'. work_behind (find_positive (sort ids')))
      (ap (λ i. (marks (record { ids = unique (sort p.ids); idx = i }) ids).ids) start
        ∙ marks-map_all ids (unique (sort p.ids)) r up)
    ∙ ap (λ ids'. work_behind (find_positive ids')) (sort-map ids (unique (sort p.ids)) up)
    ∙ ap work_behind (find_positive-zeros ids (unique (sort p.ids)) _ (others-All (pos 0) ids _ h))
    ∙ work_behind-Rising (others ids (unique (sort p.ids)))
        (others-All (pos 0) ids _ h, others-Rising ids _ up.1)
  where
    up : Rising (pos 0 ∷ (sort_unique p).ids)
    up = (h, (sort_unique_lem p).0)
