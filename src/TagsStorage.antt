-- ===== src/TagsStorage.antt =====
-- src/tags_storage.cpp: `TagsStorage`, the tags of nodes by their ids. A handle of the stash gives
-- back the tags that were put into it, so the index holds them here.
pub mod Lookup
use cerepso.Base.{
  ℕ, zero, suc, ◌+◌, ◌-◌, ◌/◌, Bool, true, false, List, [], ◌∷◌, ◌++◌, Option, none, some, length,
  get_elem?, if◌then◌else◌, ◌==◌,
}
use cerepso.Base.Int.{ℤ, ltb_ℤ, eq_ℤ}
use cerepso.Osm.{Tag}

pub record Element : Type 0 where
  pub m_id : ℤ
  pub m_tags : List Tag

pub record TagsStorage : Type 0 where
  pub m_index : List Element

abbrev pub tags_storage : TagsStorage
tags_storage = record { m_index = [] }

unfoldable pub add : ℤ → List Tag → TagsStorage → TagsStorage
add id tags s = record { m_index = s.m_index ++ record { m_id = id; m_tags = tags } ∷ [] }

-- `operator<` with the element of the id. Behind the end it is not asked.
abbrev pub lies_before : Option Element → ℤ → Bool
lies_before none id = false
lies_before (some e) id = ltb_ℤ e.m_id id

-- `std::lower_bound` of the standard library, which halves the range of `len` elements from `first`
-- on, on as much fuel as the range has elements.
unfoldable pub lower_bound_loop : ℕ → List Element → ℤ → ℕ → ℕ → ℕ
lower_bound_loop zero index id first len = first
lower_bound_loop (suc fuel) index id first len =
    let half : ℕ = len / 2 in
    let upper = lower_bound_loop fuel index id (first + half + 1) (len - half - 1) in
    let lower = lower_bound_loop fuel index id first half in
    if len == 0
    then first
    else if lies_before (get_elem? index (first + half)) id
    then upper
    else lower

unfoldable pub lower_bound : List Element → ℤ → ℕ
unfolding lower_bound_loop
lower_bound index id = lower_bound_loop (length index) index id 0 (length index)

abbrev pub if_equal : Option Element → ℤ → Option (List Tag)
if_equal none id = none
if_equal (some e) id = if eq_ℤ e.m_id id then some e.m_tags else none

-- `none` is the null pointer.
unfoldable pub get : ℤ → TagsStorage → Option (List Tag)
unfolding lower_bound
get id s = if_equal (get_elem? s.m_index (lower_bound s.m_index id)) id
