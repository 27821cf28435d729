-- ===== src/Diff/Pending.antt =====
-- src/diff_handler2.cpp: the lists of pending ways and relations.
use cerepso.Base.{ℕ, suc, ◌+◌, List, [], ◌∷◌, ◌++◌, Option, none, some, if◌then◌else◌, take, drop}
use cerepso.Base.Int.{ℤ, pos, leb_ℤ, ltb_ℤ, eq_ℤ}

-- `std::sort`
unfoldable pub insert : ℤ → List ℤ → List ℤ
insert x [] = x ∷ []
insert x (y ∷ ys) = let later = insert x ys in if leb_ℤ x y then x ∷ y ∷ ys else y ∷ later

unfoldable pub sort : List ℤ → List ℤ
unfolding insert
sort [] = []
sort (x ∷ xs) = insert x (sort xs)

-- `erase(std::unique(begin, end), end)`, behind the element `last`.
unfoldable pub unique_behind : ℤ → List ℤ → List ℤ
unique_behind last [] = []
unique_behind last (x ∷ xs) =
    let later = unique_behind x xs in if eq_ℤ last x then unique_behind last xs else x ∷ later

unfoldable pub unique : List ℤ → List ℤ
unfolding unique_behind
unique [] = []
unique (x ∷ xs) = x ∷ unique_behind x xs

abbrev pub next : Option ℕ → Option ℕ
next none = none
next (some k) = some (suc k)

-- The loop of `way` and `relation` that replaces the id of the object by 0, from the index on. It
-- gives the list and the offset at which it has found the id.
unfoldable pub scan : List ℤ → ℤ → List ℤ × Option ℕ
scan [] id = ([], none)
scan (x ∷ xs) id =
    let (xs', found) = scan xs id in
    if eq_ℤ x id
    then (pos 0 ∷ xs, some 0)
    else if ltb_ℤ id x
    then (x ∷ xs, none)
    else (x ∷ xs', next found)

-- `m_pending_ways` with `m_pending_ways_idx`, and the same for relations.
pub record Pending : Type 0 where
  pub ids : List ℤ
  pub idx : ℕ

abbrev pub moved : ℕ → Option ℕ → ℕ
moved idx none = idx
moved idx (some k) = idx + k

unfoldable pub mark : Pending → ℤ → Pending
unfolding scan
mark p id =
    let (later, found) = scan (drop p.idx p.ids) id in
    record { ids = take p.idx p.ids ++ later; idx = moved p.idx found }

-- `push_back` of each id that the database answers with.
abbrev pub push : Pending → List ℤ → Pending
push p new = record p { ids = p.ids ++ new }

-- The sorting of `write_new_nodes` and `write_new_ways`.
unfoldable pub sort_unique : Pending → Pending
unfolding sort unique
sort_unique p = record p { ids = unique (sort p.ids) }

-- `find_if` of an id above 0, and what stands behind it.
unfoldable pub find_positive : List ℤ → List ℤ
find_positive [] = []
find_positive (x ∷ xs) = if ltb_ℤ (pos 0) x then x ∷ xs else find_positive xs

-- The calls of `func` in the loop.
unfoldable pub work : ℤ → List ℤ → List ℤ
work last [] = []
work last (x ∷ xs) = let later = work x xs in if eq_ℤ last x then work last xs else x ∷ later

-- `++it`, then the loop.
abbrev pub work_behind : List ℤ → List ℤ
work_behind [] = []
work_behind (x ∷ xs) = work (pos 0) xs

-- `clean_up_container_and_work_on`: the ids that `func` is called with, in order.
unfoldable pub clean_up_container_and_work_on : List ℤ → List ℤ
unfolding sort find_positive work
clean_up_container_and_work_on container = work_behind (find_positive (sort container))
