-- ===== src/Diff/Sorting.antt =====
-- What sorting a pending list and removing its duplicates gives.
use cerepso.Base.{◌||◌, List, [], ◌∷◌, Bool-cases, inl, inr, ◌≡◌, refl, ap, ◌∙◌, arith, All}
use cerepso.Base.Int.{ℤ, eq_ℤ, ◌<ℤ◌, ◌≤ℤ◌}
use cerepso.Diff.Pending.{Pending, sort, insert, unique, unique_behind, sort_unique}
use cerepso.Diff.Marks.{Rising, is_in, All-above}

abbrev Sorted : List ℤ → Type 0
Sorted [] = Unit {0}
Sorted (x ∷ xs) = All (λ y. x ≤ℤ y) xs × Sorted xs

is_in-insert : (z x : ℤ) (xs : List ℤ) → is_in (insert x xs) z ≡ (eq_ℤ x z || is_in xs z)
unfolding is_in insert
is_in-insert z x [] = refl
is_in-insert z x (y ∷ ys) = ground (arith, is_in-insert z x ys)

is_in-sort : (z : ℤ) (xs : List ℤ) → is_in (sort xs) z ≡ is_in xs z
unfolding is_in sort
is_in-sort z [] = refl
is_in-sort z (x ∷ xs) = is_in-insert z x (sort xs) ∙ ap (λ b. eq_ℤ x z || b) (is_in-sort z xs)

All-above_le : (x y : ℤ) (xs : List ℤ) → x ≤ℤ y → All (λ z. y ≤ℤ z) xs → All (λ z. x ≤ℤ z) xs
All-above_le x y [] h p = tt
All-above_le x y (z ∷ xs) h p = (omega arith, All-above_le x y xs h p.1)

All-insert :
    (a x : ℤ) (xs : List ℤ) → a ≤ℤ x → All (λ y. a ≤ℤ y) xs → All (λ y. a ≤ℤ y) (insert x xs)
unfolding insert
All-insert a x [] h p = (h, tt)
All-insert a x (y ∷ ys) h p = ground (arith, All-insert a x ys h p.1)

insert-Sorted : (x : ℤ) (xs : List ℤ) → Sorted xs → Sorted (insert x xs)
unfolding insert
insert-Sorted x [] p = (tt, tt)
insert-Sorted x (y ∷ ys) p =
    ground (arith, insert-Sorted x ys p.1, All-insert y x ys, All-above_le x y ys)

sort-Sorted : (xs : List ℤ) → Sorted (sort xs)
unfolding sort
sort-Sorted [] = tt
sort-Sorted (x ∷ xs) = insert-Sorted x (sort xs) (sort-Sorted xs)

is_in-unique_behind :
    (z last : ℤ) (xs : List ℤ)
    → (eq_ℤ last z || is_in (unique_behind last xs) z) ≡ (eq_ℤ last z || is_in xs z)
unfolding is_in unique_behind
is_in-unique_behind z last [] = refl
is_in-unique_behind z last (x ∷ xs) =
    ground (arith, is_in-unique_behind z last xs, is_in-unique_behind z x xs)

unique_behind-Rising :
    (last : ℤ) (xs : List ℤ)
    → Sorted (last ∷ xs)
    → All (λ y. last <ℤ y) (unique_behind last xs) × Rising (unique_behind last xs)
unfolding unique_behind
unique_behind-Rising last [] p = (tt, tt)
unique_behind-Rising last (x ∷ xs) p = elim (Bool-cases (eq_ℤ last x)) [
  | inl same ↦ rw same (unique_behind-Rising last xs (p.0.1, p.1.1))
  | inr other ↦ rw other (
    (ground arith, All-above last x _ (ground arith) (unique_behind-Rising x xs p.1).0),
    unique_behind-Rising x xs p.1,
  )
]

-- Sorting and removing duplicates gives a strictly ascending list of the same ids.
pub sort_unique_lem :
    (p : Pending)
    → Rising (sort_unique p).ids × ((z : ℤ) → is_in (sort_unique p).ids z ≡ is_in p.ids z)
unfolding sort_unique unique is_in
sort_unique_lem p = (
  (unique-Rising (sort p.ids) (sort-Sorted p.ids)),
  λ z. is_in-unique z (sort p.ids) ∙ is_in-sort z p.ids,
)
  where
    unique-Rising : (xs : List ℤ) → Sorted xs → Rising (unique xs)
    unique-Rising [] h = tt
    unique-Rising (x ∷ xs) h = unique_behind-Rising x xs h

    is_in-unique : (z : ℤ) (xs : List ℤ) → is_in (unique xs) z ≡ is_in xs z
    is_in-unique z [] = refl
    is_in-unique z (x ∷ xs) = is_in-unique_behind z x xs
