-- ===== src/IndexDump/Cells.antt =====
-- What the cells of the dumped array hold.
use cerepso.Base.{
  ℕ, zero, suc, ◌+◌, ◌<◌, ◌≤◌, true, false, List, [], ◌∷◌, some, get_elem?, ◌==◌, ◌≡◌, refl, ap,
  ◌∙◌, arith, All, Bool-cases, inl, inr, length,
}
use cerepso.Osm.{Location}
use cerepso.IndexDump.{Entry, array_size, dump_loop, dump_index_manually, location_or, Ascending}

module _ (empty_value : Location) where
  -- Below all ids of the index there is nothing.
  location_or-below :
      (index : List Entry) (id : ℕ)
      → All (λ e. id < e.first) index
      → location_or empty_value index id ≡ empty_value
  unfolding location_or
  location_or-below [] id p = refl
  location_or-below (e ∷ index) id p = ground (arith, location_or-below index id p.1)

  All-next :
      (index : List Entry) (a b : ℕ)
      → a ≤ b
      → All (λ e. b < e.first) index
      → All (λ e. a + 1 ≤ e.first) index
  All-next [] a b h p = tt
  All-next (e ∷ index) a b h p = (omega arith, All-next index a b h p.1)

  All-lower :
      (index : List Entry) (a b : ℕ)
      → a < b
      → All (λ e. b < e.first) index
      → All (λ e. a < e.first) index
  All-lower [] a b h p = tt
  All-lower (e ∷ index) a b h p = (omega arith, All-lower index a b h p.1)

  shifted :
      (index : List Entry) (i k : ℕ)
      → location_or empty_value index (i + 1 + k) ≡ location_or empty_value index (i + suc k)
  shifted index i k = ap (location_or empty_value index) (omega arith)

  above : {i n : ℕ} → i ≤ n → (n == i) ≡ false → i < n
  above p later = ground (arith, p, later)

  dump_loop-get :
      (left i k : ℕ) (index : List Entry)
      → Ascending index
      → All (λ e. i ≤ e.first) index
      → k < left
      → get_elem? (dump_loop empty_value left i index) k
        ≡ some (location_or empty_value index (i + k))
  unfolding dump_loop location_or
  dump_loop-get zero i k index a p h = absurd (omega arith)
  dump_loop-get (suc left) i zero [] a p h = refl
  dump_loop-get (suc left) i (suc k) [] a p h = dump_loop-get left (i + 1) k [] tt tt (omega arith)
  dump_loop-get (suc left) i zero (it ∷ index) a p h = elim (Bool-cases (it.first == i)) [
    | inl here ↦ ground (arith, here)
    | inr later ↦
        ground (
          arith,
          later,
          location_or-below index i (All-lower index i it.first (above p.0 later) a.0),
        )
  ]
  dump_loop-get (suc left) i (suc k) (it ∷ index) a p h = elim (Bool-cases (it.first == i)) [
    | inl here ↦ rw here (
        dump_loop-get left (i + 1) k index a.1 (All-next index i it.first p.0 a.0) (omega arith)
        ∙ ap some (behind here))
    | inr later ↦ rw later (
        dump_loop-get left (i + 1) k (it ∷ index) a
          (next (above p.0 later), All-next index i it.first p.0 a.0) (omega arith)
        ∙ ap some (shifted (it ∷ index) i k))
  ]
    where
      behind :
          (it.first == i) ≡ true
          → location_or empty_value index (i + 1 + k)
            ≡ location_or empty_value (it ∷ index) (i + suc k)
      behind here = ground (arith, here, shifted index i k)

      next : i < it.first → i + 1 ≤ it.first
      next q = omega arith

  length-dump_loop :
      (left i : ℕ) (index : List Entry) → length (dump_loop empty_value left i index) ≡ left
  unfolding dump_loop
  length-dump_loop zero i index = refl
  length-dump_loop (suc left) i [] = ap suc (length-dump_loop left (i + 1) [])
  length-dump_loop (suc left) i (it ∷ index) =
      ground
        (arith, length-dump_loop left (i + 1) index, length-dump_loop left (i + 1) (it ∷ index))

  below_size :
      (index : List Entry) (size : ℕ)
      → Ascending index
      → array_size index ≡ some size
      → All (λ e. e.first < size) index
  unfolding array_size
  below_size [] size a h = tt
  below_size (e ∷ []) size a h = (ground (arith, h), tt)
  below_size (e ∷ f ∷ index) size a h =
      let below = below_size (f ∷ index) size a.1 h in (omega (arith, below), below)

  from_zero : (index : List Entry) → All (λ e. 0 ≤ e.first) index
  from_zero [] = tt
  from_zero (e ∷ index) = (omega arith, from_zero index)

  -- An index whose ids ascend is dumped as an array with one cell for each id up to the last one.
  -- Each cell holds the location that the index has for its number, or the empty value.
  pub dump_index_manually-get :
      (index : List Entry) (size : ℕ)
      → Ascending index
      → array_size index ≡ some size
      → (length (dump_index_manually empty_value index) ≡ size)
        × All (λ e. e.first < size) index
        × ((id : ℕ)
            → id < size
            → get_elem? (dump_index_manually empty_value index) id
              ≡ some (location_or empty_value index id))
  unfolding dump_index_manually
  dump_index_manually-get index size a h = rw h (
    length-dump_loop size 0 index,
    below_size index size a h,
    λ id q.
        dump_loop-get size 0 id index a (from_zero index) q
        ∙ ap (λ n. some (location_or empty_value index n)) (omega arith),
  )
