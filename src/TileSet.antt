-- ===== src/TileSet.antt =====
-- The keys of a `std::map<int, bool>` or a `std::set`: an ascending list.
use cerepso.Base.{
  ℕ, ◌<◌, Bool, false, ◌||◌, List, [], ◌∷◌, ◌≡◌, refl, arith, if◌then◌else◌, ◌==◌, ltb, All,
}

-- `find(key) != end()`
unfoldable pub contains : ℕ → List ℕ → Bool
contains key [] = false
contains key (k ∷ keys) = k == key || contains key keys

-- `insert` of a key: an equal key stays as it is.
unfoldable pub insert : ℕ → List ℕ → List ℕ
insert key [] = key ∷ []
insert key (k ∷ keys) =
    let later = insert key keys in
    if k == key then k ∷ keys else if ltb key k then key ∷ k ∷ keys else k ∷ later

abbrev pub Ascending : List ℕ → Type 0
Ascending [] = Unit {0}
Ascending (k ∷ keys) = All (λ j. k < j) keys × Ascending keys

pub contains-insert :
    (j key : ℕ) (keys : List ℕ) → contains j (insert key keys) ≡ (key == j || contains j keys)
unfolding contains insert
contains-insert j key [] = refl
contains-insert j key (k ∷ keys) = ground (arith, contains-insert j key keys)

pub All-above : {a b : ℕ} (keys : List ℕ) → a < b → All (λ j. b < j) keys → All (λ j. a < j) keys
All-above [] h p = tt
All-above (k ∷ keys) h p = (omega arith, All-above keys h p.1)

pub All-insert :
    (a key : ℕ) (keys : List ℕ)
    → a < key
    → All (λ j. a < j) keys
    → All (λ j. a < j) (insert key keys)
unfolding insert
All-insert a key [] h p = (h, tt)
All-insert a key (k ∷ keys) h p = ground (arith, All-insert a key keys h p.1)

pub insert-Ascending : (key : ℕ) (keys : List ℕ) → Ascending keys → Ascending (insert key keys)
unfolding insert
insert-Ascending key [] p = (tt, tt)
insert-Ascending key (k ∷ keys) p =
    ground (
      arith,
      insert-Ascending key keys p.1,
      All-insert k key keys,
      All-above {a = key} {b = k} keys,
    )
