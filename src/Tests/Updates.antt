-- ===== src/Tests/Updates.antt =====
-- Pending ways and relations.
use cerepso.Base.{◌≡◌, refl, arith, [], ◌∷◌, map, drop}
use cerepso.Base.Int.{pos}
use cerepso.Diff.Pending.{
  Pending, sort, insert, unique, unique_behind, sort_unique, clean_up_container_and_work_on,
}
use cerepso.Diff.Marks.{marks, zero_if_in, marks-map_all}
use cerepso.Diff.Updates.{others, pending_updates}

abbrev pending : Pending
pending = record { ids = pos 9 ∷ pos 4 ∷ pos 9 ∷ pos 2 ∷ []; idx = 0 }

-- Of ways 2, 4 and 9, of which the diff holds 4, only 9 is updated.
updated : clean_up_container_and_work_on (pos 2 ∷ pos 0 ∷ pos 9 ∷ []) ≡ pos 9 ∷ []
unfolding clean_up_container_and_work_on
updated = refl

marks-map_all_example :
    (marks (record { ids = pos 2 ∷ pos 4 ∷ pos 9 ∷ []; idx = 0 }) (pos 4 ∷ pos 5 ∷ [])).ids
    ≡ map (zero_if_in (pos 4 ∷ pos 5 ∷ [])) (pos 2 ∷ pos 4 ∷ pos 9 ∷ [])
marks-map_all_example =
    marks-map_all (pos 4 ∷ pos 5 ∷ []) (pos 2 ∷ pos 4 ∷ pos 9 ∷ [])
      ((omega arith, (omega arith, tt)), ((omega arith, tt), (tt, tt)))
      (
        (omega arith, (omega arith, (omega arith, tt))),
        ((omega arith, (omega arith, tt)), ((omega arith, tt), (tt, tt))),
      )

pending_updates_example :
    clean_up_container_and_work_on (marks (sort_unique pending) (pos 4 ∷ [])).ids
    ≡ drop 1 (others (pos 4 ∷ []) (sort_unique pending).ids)
unfolding sort_unique sort insert unique unique_behind
pending_updates_example =
    pending_updates pending (pos 4 ∷ []) refl ((omega arith, tt), (tt, tt))
      (omega arith, (omega arith, (omega arith, tt)))
