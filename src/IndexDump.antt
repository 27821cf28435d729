-- ===== src/IndexDump.antt =====
-- src/pgimporter.cpp: `dump_index_manually`, which writes the locations of nodes as an array.
pub mod Cells
use cerepso.Base.{
  ℕ, zero, suc, ◌+◌, ◌<◌, Bool, true, false, List, [], ◌∷◌, ◌++◌, Option, none, some, get_elem?,
  length, if◌then◌else◌, ◌==◌, ◌≡◌, refl, sym, ap, ◌∙◌, arith, All, Bool-cases, inl, inr,
}
use cerepso.Osm.{Location}

-- An element of the index: the id of a node and its location.
pub record Entry : Type 0 where
  pub first : ℕ
  pub second : Location

-- `array_size`: one more than the id of the last element. An empty index has no last element.
unfoldable pub array_size : List Entry → Option ℕ
array_size [] = none
array_size (e ∷ []) = some (e.first + 1)
array_size (e ∷ f ∷ index) = array_size (f ∷ index)

-- The loop, with so many cells left and the iterator at the head of the list. At the end of the
-- index the source still reads the element.
unfoldable pub dump_loop : Location → ℕ → ℕ → List Entry → List Location
dump_loop empty_value zero array_idx index = []
dump_loop empty_value (suc left) array_idx [] =
    empty_value ∷ dump_loop empty_value left (array_idx + 1) []
dump_loop empty_value (suc left) array_idx (it ∷ index) =
    let next = dump_loop empty_value left (array_idx + 1) index in
    let same = dump_loop empty_value left (array_idx + 1) (it ∷ index) in
    if it.first == array_idx then it.second ∷ next else empty_value ∷ same

abbrev dump_sized : Location → List Entry → Option ℕ → List Location
dump_sized empty_value index none = []
dump_sized empty_value index (some size) = dump_loop empty_value size 0 index

unfoldable pub dump_index_manually : Location → List Entry → List Location
unfolding array_size dump_loop
dump_index_manually empty_value index = dump_sized empty_value index (array_size index)

-- What the array is to hold for an id.
unfoldable pub location_or : Location → List Entry → ℕ → Location
location_or empty_value [] id = empty_value
location_or empty_value (e ∷ index) id =
    let later = location_or empty_value index id in if e.first == id then e.second else later

abbrev pub Ascending : List Entry → Type 0
Ascending [] = Unit {0}
Ascending (e ∷ index) = All (λ f. e.first < f.first) index × Ascending index
