-- ===== src/Expiry/Loops.antt =====
-- The loops over tiles of Lines.antt.
use cerepso.Base.{ℕ, zero, suc, ◌<◌, true, ◌≡◌, ◌⊎◌, inl, inr, arith, subst}
use cerepso.Base.Int.{ℤ, pos, ◌+ℤ◌, +ℤ_parts, eq_of_parts}
use cerepso.TileSet.{contains}
use cerepso.Expiry.Lines.{Dirty, for_int}

-- The loop index after `k` rounds more.
shift_once : (i : ℤ) (k : ℕ) → i +ℤ pos 1 +ℤ pos k ≡ i +ℤ pos (suc k)
shift_once i k =
    eq_of_parts _ _
      (omega (arith, +ℤ_parts (i +ℤ pos 1) (pos k), +ℤ_parts i (pos 1), +ℤ_parts i (pos (suc k))))

shift_zero : (i : ℤ) → i +ℤ pos 0 ≡ i
shift_zero i = eq_of_parts _ _ (omega (arith, +ℤ_parts i (pos 0)))

-- A body that leaves tile `q` dirty.
abbrev pub Keeps : ℕ → (ℤ → Dirty → Dirty) → Type 0
Keeps q body = (i : ℤ) (dirty : Dirty) → contains q dirty ≡ true → contains q (body i dirty) ≡ true

module _ (q : ℕ) (body : ℤ → Dirty → Dirty) where
  pub for_int-Keeps :
      Keeps q body
      → (n : ℕ) (i : ℤ) (dirty : Dirty) → contains q dirty ≡ true
      → contains q (for_int n i body dirty) ≡ true
  unfolding for_int
  for_int-Keeps keep zero i dirty h = h
  for_int-Keeps keep (suc n) i dirty h = for_int-Keeps keep n _ _ (keep i dirty h)

  pub for_int-hits :
      Keeps q body
      → (n k : ℕ) (i : ℤ) (dirty : Dirty) → k < n
      → ((before : Dirty) → contains q (body (i +ℤ pos k) before) ≡ true)
      → contains q (for_int n i body dirty) ≡ true
  unfolding for_int
  for_int-hits keep zero k i dirty lt hit = absurd (omega arith)
  for_int-hits keep (suc n) zero i dirty lt hit =
      for_int-Keeps keep n _ _
        (subst (λ j. contains q (body j dirty) ≡ true) (shift_zero i) (hit dirty))
  for_int-hits keep (suc n) (suc k) i dirty lt hit =
      for_int-hits keep n k _ _ (omega arith) (λ before. rw (shift_once i k) (hit before))

  -- Whatever is dirty afterwards was so before, or one of the rounds hit it.
  pub for_int-from :
      (Hit : ℤ → Type 0)
      → ((i : ℤ) (before : Dirty)
          → contains q (body i before) ≡ true
          → (contains q before ≡ true) ⊎ Hit i)
      → (n : ℕ) (i : ℤ) (dirty : Dirty) → contains q (for_int n i body dirty) ≡ true
      → (contains q dirty ≡ true) ⊎ ((k : ℕ) × (k < n) × Hit (i +ℤ pos k))
  unfolding for_int
  for_int-from Hit only zero i dirty h = inl h
  for_int-from Hit only (suc n) i dirty h = elim (for_int-from Hit only n _ _ h) [
    | inr (k, lt, hit) ↦ inr (suc k, omega arith, rw (shift_once i k) at hit)
    | inl before ↦ elim (only i dirty before) [
      | inl old ↦ inl old
      | inr hit ↦ inr (0, omega arith, rw (shift_zero i) hit)
    ]
  ]
