-- ===== src/Diff/Marks.antt =====
-- Which pending objects the second pass updates.
use cerepso.Base.{
  ℕ, ◌+◌, Bool, false, ◌||◌, List, [], ◌∷◌, ◌++◌, map, Option, none, some, length, take-append,
  drop-append, length-append, append_assoc, if◌then◌else◌, Bool-cases, inl, inr, ◌≡◌, refl, sym, ap,
  ◌∙◌, arith, All, All-append, subst,
}
use cerepso.Base.Int.{ℤ, pos, ltb_ℤ, eq_ℤ, ◌<ℤ◌, eq_of_parts}
use cerepso.Diff.Pending
use cerepso.Diff.Pending.{Pending, scan, mark, sort, insert, unique, unique_behind}

abbrev pub Rising : List ℤ → Type 0
Rising [] = Unit {0}
Rising (x ∷ xs) = All (λ y. x <ℤ y) xs × Rising xs

unfoldable pub is_in : List ℤ → ℤ → Bool
is_in [] x = false
is_in (y ∷ ys) x = eq_ℤ y x || is_in ys x

-- What `mark` makes of an id.
unfoldable pub zero_if_in : List ℤ → ℤ → ℤ
unfolding is_in
zero_if_in ids x = if is_in ids x then pos 0 else x

-- What the loop finds: nothing, and it changes nothing, or the id at some offset.
data Scanned (id : ℤ) : List ℤ → List ℤ × Option ℕ → Type 0 where
  missing : {xs : List ℤ} → All (λ x. eq_ℤ x id ≡ false) xs → Scanned id xs (xs, none)
  found :
      (a b : List ℤ)
      → All (λ x. x <ℤ id) a
      → Scanned id (a ++ id ∷ b) (a ++ pos 0 ∷ b, some (length a))

pub All-above : (x y : ℤ) (xs : List ℤ) → x <ℤ y → All (λ z. y <ℤ z) xs → All (λ z. x <ℤ z) xs
All-above x y [] h p = tt
All-above x y (z ∷ xs) h p = (omega arith, All-above x y xs h p.1)

All-other : (id : ℤ) (xs : List ℤ) → All (λ z. id <ℤ z) xs → All (λ x. eq_ℤ x id ≡ false) xs
All-other id [] p = tt
All-other id (x ∷ xs) p = (ground arith, All-other id xs p.1)

Scanned-behind :
    (id x : ℤ) {xs : List ℤ} {r : List ℤ × Option ℕ}
    → x <ℤ id
    → eq_ℤ x id ≡ false
    → Scanned id xs r
    → Scanned id (x ∷ xs) (x ∷ r.0, Pending.next r.1)
Scanned-behind id x below other (missing p) = missing (other, p)
Scanned-behind id x below other (found a b p) = found (x ∷ a) b (below, p)

scan-Scanned : (id : ℤ) (xs : List ℤ) → Rising xs → Scanned id xs (scan xs id)
unfolding scan
scan-Scanned id [] r = missing tt
scan-Scanned id (x ∷ xs) r = elim (Bool-cases (eq_ℤ x id)) [
  | inl same ↦ rw same (
      subst (λ y. Scanned id (y ∷ xs) (pos 0 ∷ xs, some 0)) (eq_of_parts id x (ground arith))
        (found [] xs tt))
  | inr other ↦ elim (Bool-cases (ltb_ℤ id x)) [
    | inl above ↦
        rw (other, above) (missing (other, All-other id xs (All-above id x xs (ground arith) r.0)))
    | inr below ↦
        rw (other, below) (Scanned-behind id x (ground arith) other (scan-Scanned id xs r.1))
  ]
]

pub is_in-below : (x : ℤ) (ids : List ℤ) → All (λ i. x <ℤ i) ids → is_in ids x ≡ false
unfolding is_in
is_in-below x [] p = refl
is_in-below x (i ∷ ids) p = ground (arith, is_in-below x ids p.1)

-- The marks of the objects that arrive.
unfoldable pub marks : Pending → List ℤ → Pending
marks p [] = p
marks p (id ∷ ids) = marks (mark p id) ids

zero_if_in_zero : (ids : List ℤ) → zero_if_in ids (pos 0) ≡ pos 0
unfolding zero_if_in
zero_if_in_zero ids = ground arith

map_none : (xs : List ℤ) → map (zero_if_in []) xs ≡ xs
unfolding zero_if_in is_in
map_none [] = refl
map_none (x ∷ xs) = ap (◌∷◌ x) (map_none xs)

map_other :
    (id : ℤ) (ids xs : List ℤ)
    → All (λ x. eq_ℤ x id ≡ false) xs
    → map (zero_if_in ids) xs ≡ map (zero_if_in (id ∷ ids)) xs
unfolding zero_if_in is_in
map_other id ids [] p = refl
map_other id ids (x ∷ xs) p = ground (arith, map_other id ids xs p.1)

map_found :
    (id : ℤ) (ids a b : List ℤ)
    → All (λ x. x <ℤ id) a
    → All (λ i. id <ℤ i) ids
    → map (zero_if_in (id ∷ ids)) (a ++ id ∷ b) ≡ a ++ pos 0 ∷ map (zero_if_in (id ∷ ids)) b
unfolding zero_if_in is_in
map_found id ids [] b p q = ground arith
map_found id ids (x ∷ a) b p q =
    ground (arith, map_found id ids a b p.1 q, is_in-below x ids (All-above x id ids p.0 q))

Rising-behind : (a b : List ℤ) → Rising (a ++ b) → Rising b
Rising-behind [] b r = r
Rising-behind (x ∷ a) b r = Rising-behind a b r.1

abbrev Below : List ℤ → List ℤ → Type 0
Below ids done = All (λ x. All (λ i. x <ℤ i) ids) done

Below-tail : (id : ℤ) (ids done : List ℤ) → Below (id ∷ ids) done → Below ids done
Below-tail id ids [] p = tt
Below-tail id ids (x ∷ done) p = (p.0.1, Below-tail id ids done p.1)

Below-All : (id : ℤ) (ids a : List ℤ) → All (λ x. x <ℤ id) a → All (λ i. id <ℤ i) ids → Below ids a
Below-All id ids [] p q = tt
Below-All id ids (x ∷ a) p q = (All-above x id ids p.0 q, Below-All id ids a p.1 q)

abbrev MarksMap : List ℤ → Type 0
MarksMap ids =
    (done rest : List ℤ)
    → Rising rest
    → Below ids done
    → (marks (record { ids = done ++ rest; idx = length done }) ids).ids
      ≡ done ++ map (zero_if_in ids) rest

marks_step :
    (id : ℤ) (ids done : List ℤ) {rest : List ℤ} {t : List ℤ × Option ℕ}
    → MarksMap ids
    → pos 0 <ℤ id
    → All (λ i. id <ℤ i) ids
    → Rising rest
    → Below (id ∷ ids) done
    → Scanned id rest t
    → (marks (record { ids = done ++ t.0; idx = Pending.moved (length done) t.1 }) ids).ids
      ≡ done ++ map (zero_if_in (id ∷ ids)) rest
unfolding zero_if_in
marks_step id ids done ih h q s p (missing {xs} o) =
    ih done xs s (Below-tail id ids done p) ∙ ap (◌++◌ done) (map_other id ids xs o)
marks_step id ids done ih h q s p (found a b o) =
    ap (λ r. (marks r ids).ids) (regroup done a (pos 0 ∷ b))
    ∙ ih (done ++ a) (pos 0 ∷ b) (All-above (pos 0) id b h up.0, up.1)
        (All-append _ done a (Below-tail id ids done p) (Below-All id ids a o q))
    ∙ append_assoc done a _
    ∙ ap (λ y. done ++ (a ++ y ∷ map (zero_if_in ids) b)) (zero_if_in_zero ids)
    ∙ ap (◌++◌ done) (
        ap (λ y. a ++ pos 0 ∷ y) (map_other id ids b (All-other id b up.0))
        ∙ sym (map_found id ids a b o q))
  where
    up : Rising (id ∷ b)
    up = Rising-behind a (id ∷ b) s

    regroup :
        (done a c : List ℤ)
        → Path Pending
            (record { ids = done ++ (a ++ c); idx = length done + length a })
            (record { ids = (done ++ a) ++ c; idx = length (done ++ a) })
    regroup done a c =
        λ i. record { ids = sym (append_assoc done a c) i; idx = sym (length-append done a) i }

marks-map : (ids : List ℤ) → Rising (pos 0 ∷ ids) → MarksMap ids
unfolding marks mark
marks-map [] r done rest s p = ap (◌++◌ done) (sym (map_none rest))
marks-map (id ∷ ids) r done rest s p =
    ap (λ q. (marks q ids).ids) (at_index done rest id)
    ∙ marks_step id ids done (marks-map ids (r.0.1, r.1.1)) r.0.0 r.1.0 s p (scan-Scanned id rest s)
  where
    at_index :
        (done rest : List ℤ) (id : ℤ)
        → mark (record { ids = done ++ rest; idx = length done }) id ≡ record {
          ids = done ++ (scan rest id).0;
          idx = Pending.moved (length done) (scan rest id).1;
        }
    at_index done rest id = rw (take-append done rest, drop-append done rest) refl

-- Objects that arrive in ascending order are marked in a pending list without duplicates: each id
-- of theirs becomes 0, and every other id stays, whatever the index does. All ids are positive.
pub marks-map_all :
    (ids pending : List ℤ)
    → Rising (pos 0 ∷ ids)
    → Rising (pos 0 ∷ pending)
    → (marks (record { ids = pending; idx = 0 }) ids).ids ≡ map (zero_if_in ids) pending
marks-map_all ids pending r s = marks-map ids r [] pending s.1 tt
