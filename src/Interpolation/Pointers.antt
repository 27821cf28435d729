-- ===== src/Interpolation/Pointers.antt =====
-- Which faults a way leads to.
use cerepso.Base.{
  ℕ, ◌+◌, Bytes, Bool, true, false, ◌||◌, List, [], ◌∷◌, Option, none, some, All, if◌then◌else◌,
  ltb, length, Result, ok, err, ◌≡◌, ◌≢◌, refl, ap, arith,
}
use cerepso.Base.Int.{ℤ}
use cerepso.Osm.{Tag, OsmObject}
use cerepso.Columns.{Column}
use cerepso.Doubles.{Doubles}
use cerepso.HouseNumber.{
  HouseNumber, InterpolationType, unknown, odd, even, every, alphabetic, out_of_range, assertion,
  Fault, Message, runtime_error, null_pointer, parse_number,
}
use cerepso.Interpolation.{Geometry, house_number_of, add_points_to_str}
use cerepso.Interpolation.Ways.{
  search_loop, first_stand, second_stand, valid_interpolation, type_of_text, or_empty,
  interpolation_of, interpolate, interpolate_as, handle_way, catch_runtime_error,
  AddrInterpolationHandler,
}
use cerepso.TagsStorage.{TagsStorage, get}
use cerepso.Database.{Server, Table}

-- The search for a second house number ends at the last node with nothing.
search_loop-none :
    (storage : TagsStorage) (n : ℕ) (b : ℤ) (nodes : List ℤ)
    → All (λ c. get c storage ≡ none) (b ∷ nodes)
    → (search_loop storage n (get b storage) (b ∷ nodes)).tags ≡ none
unfolding search_loop
search_loop-none storage n b [] h = h.0
search_loop-none storage n b (c ∷ nodes) h = rw h.0 (search_loop-none storage (n + 1) c nodes h.1)

abbrev IsKnown : InterpolationType → Type 0
IsKnown unknown = ⊥
IsKnown _ = Unit

known_if :
    (b1 b2 b3 b4 : Bool)
    → (b1 || b2 || b3 || b4) ≡ true
    → IsKnown (
        if b1
        then odd
        else if b2
        then even
        else if b3
        then every
        else if b4
        then alphabetic
        else unknown)
known_if true b2 b3 b4 h = tt
known_if false true b3 b4 h = tt
known_if false false true b4 h = tt
known_if false false false true h = tt
known_if false false false false h = cc

-- A type that is valid is supported.
valid-known :
    (value : Option Bytes)
    → valid_interpolation value ≡ true
    → IsKnown (type_of_text (or_empty value))
unfolding valid_interpolation
valid-known none v = cc
valid-known (some value) v = known_if _ _ _ _ v

module _ (d : Doubles) (g : Geometry d) where
  add_points_to_str-none :
      (columns : List Column) (id : ℤ) (type : InterpolationType) (nodes : List ℤ) (n : ℕ)
      (t1 : List Tag) (hn1 : HouseNumber) (query : Bytes)
      → parse_number (house_number_of t1) ≡ ok hn1
      → add_points_to_str d g columns id type nodes n (some t1) none query ≡ err null_pointer
  unfolding add_points_to_str
  add_points_to_str-none columns id type nodes n t1 hn1 query h = rw h refl

  second_stand-none :
      (columns : List Column) (id : ℤ) (type : InterpolationType) (storage : TagsStorage) (a b : ℤ)
      (rest : List ℤ) (t1 : List Tag) (hn1 : HouseNumber) (query : Bytes)
      → get a storage ≡ some t1
      → parse_number (house_number_of t1) ≡ ok hn1
      → All (λ c. get c storage ≡ none) (b ∷ rest)
      → second_stand storage
          (add_points_to_str d g columns id type)
          (first_stand storage (a ∷ b ∷ rest))
          query
        ≡ err null_pointer
  unfolding second_stand first_stand
  second_stand-none columns id type storage a b rest t1 hn1 query ha hp h =
      rw
        (
          ha,
          search_loop-none storage 1 b rest h,
          add_points_to_str-none columns id type (a ∷ b ∷ rest) _ t1 hn1 query hp,
        )
        refl

  interpolate_as-none :
      (type : InterpolationType) (table : Table) (storage : TagsStorage) (w : OsmObject) (a b : ℤ)
      (rest : List ℤ) (t1 : List Tag) (hn1 : HouseNumber) (query : Bytes)
      → IsKnown type
      → w.nodes ≡ a ∷ b ∷ rest
      → get a storage ≡ some t1
      → parse_number (house_number_of t1) ≡ ok hn1
      → All (λ c. get c storage ≡ none) (b ∷ rest)
      → interpolate_as d g type table storage w query ≡ err null_pointer
  unfolding interpolate_as
  interpolate_as-none unknown table storage w a b rest t1 hn1 query k hw ha hp hs = absurd k
  interpolate_as-none type table storage w a b rest t1 hn1 query k hw ha hp hs =
      rw hw (second_stand-none table.m_columns w.id type storage a b rest t1 hn1 query ha hp hs)

  -- A way with a valid type of interpolation leads to the use of a null pointer if tags are stored
  -- for its first node only, as for a way whose other nodes the file lacks, and if the first node has
  -- no house number or one that can be read.
  pub handle_way_null_pointer :
      (server : Server) (h : AddrInterpolationHandler) (w : OsmObject) (a b : ℤ) (rest : List ℤ)
      (t1 : List Tag) (hn1 : HouseNumber)
      → valid_interpolation (interpolation_of w) ≡ true
      → w.nodes ≡ a ∷ b ∷ rest
      → get a h.m_tags_storage ≡ some t1
      → parse_number (house_number_of t1) ≡ ok hn1
      → All (λ c. get c h.m_tags_storage ≡ none) (b ∷ rest)
      → handle_way server d g w h ≡ err null_pointer
  unfolding handle_way interpolate
  handle_way_null_pointer server h w a b rest t1 hn1 v hw ha hp hs =
      rw
        (
          v,
          long,
          interpolate_as-none _ h.m_table h.m_tags_storage w a b rest t1 hn1 []
              (valid-known (interpolation_of w) v) hw ha hp hs,
        )
        refl
    where
      long : ltb (length w.nodes) 2 ≡ false
      long = ground (arith, ap length hw)

  caught :
      (h : AddrInterpolationHandler) (r : Result Fault AddrInterpolationHandler) (m : Message)
      → catch_runtime_error h r ≢ err (runtime_error m)
  caught h (ok x) m e = cc
  caught h (err (runtime_error k)) m e = cc
  caught h (err null_pointer) m e = cc
  caught h (err out_of_range) m e = cc
  caught h (err assertion) m e = cc
