-- ===== src/RequiredNodes/Lookup.antt =====
-- What `node_needed` answers while the nodes of a file go by in ascending order.
use cerepso.Base.{
  ℕ, zero, suc, ◌+◌, ◌≤◌, true, false, List, [], ◌∷◌, ◌++◌, length, drop-append, ok, err, All, ◌≡◌,
  refl, ap, ◌∙◌, arith, inl, inr, ◌⊎◌,
}
use cerepso.Base.Int.{ℤ, eq_ℤ, ◌<ℤ◌}
use cerepso.Diff.Marks.{Rising}
use cerepso.HouseNumber.{out_of_range}
use cerepso.RequiredNodes.{
  RequiredNodesTracking, at, nowhere, forward, backward, backward_from, needed_from, node_needed,
}

-- All elements of the list lie below, or above.
forward-found :
    (a b : List ℤ) (x id : ℤ)
    → All (λ y. y <ℤ id) (x ∷ a)
    → forward (x ∷ (a ++ id ∷ b)) id ≡ ok (at (suc (length a)))
unfolding forward
forward-found [] b x id h = ground arith
forward-found (y ∷ a) b x id h = ground (arith, forward-found a b y id h.1)

forward_behind :
    (rest : List ℤ) (x id : ℤ)
    → All (λ y. y <ℤ id) (x ∷ rest)
    → forward (x ∷ rest) id ≡ err out_of_range
unfolding forward
forward_behind [] x id h = ground arith
forward_behind (y ∷ rest) x id h = ground (arith, forward_behind rest y id h.1)

forward_above : (rest : List ℤ) (x id : ℤ) → id <ℤ x → forward (x ∷ rest) id ≡ ok nowhere
unfolding forward
forward_above [] x id h = ground arith
forward_above (y ∷ rest) x id h = ground arith

backward_above :
    (rest : List ℤ) (x id : ℤ)
    → All (λ y. id <ℤ y) (x ∷ rest)
    → backward (x ∷ rest) id ≡ err out_of_range
unfolding backward
backward_above [] x id h = ground arith
backward_above (y ∷ rest) x id h = ground (arith, backward_above rest y id h.1)

forward_between :
    (a b : List ℤ) (x y id : ℤ)
    → All (λ z. z <ℤ id) (x ∷ a)
    → id <ℤ y
    → forward (x ∷ (a ++ y ∷ b)) id ≡ ok nowhere
unfolding forward
forward_between [] b x y id h above = ground (arith, forward_above b y id above)
forward_between (z ∷ a) b x y id h above = ground (arith, forward_between a b z y id h.1 above)

backward_below : (rest : List ℤ) (x id : ℤ) → x <ℤ id → backward (x ∷ rest) id ≡ ok nowhere
unfolding backward
backward_below [] x id h = ground arith
backward_below (y ∷ rest) x id h = ground arith

backward_from_below :
    (k : ℕ) (rest : List ℤ) (x id : ℤ) → x <ℤ id → backward_from k (x ∷ rest) id ≡ ok nowhere
backward_from_below zero rest x id h = refl
backward_from_below (suc k) rest x id h = backward_below rest x id h

abbrev pub standing : List ℤ → List ℤ → RequiredNodesTracking
standing passed rest = record { m_vector = passed ++ rest; m_last_node_iter = length passed }

needed_from_eq :
    (passed rest : List ℤ) (id : ℤ)
    → node_needed id (standing passed rest) ≡ needed_from rest id (standing passed rest)
unfolding node_needed
needed_from_eq passed rest id =
    ap (λ r. needed_from r id (standing passed rest)) (drop-append passed rest)

Rising-before : (a b : List ℤ) (id : ℤ) → Rising (a ++ id ∷ b) → All (λ y. y <ℤ id) a
Rising-before [] b id r = tt
Rising-before (x ∷ a) b id (above, r) = (member a above, Rising-before a b id r)
  where
    member : (c : List ℤ) → All (λ y. x <ℤ y) (c ++ id ∷ b) → x <ℤ id
    member [] h = h.0
    member (y ∷ c) h = member c h.1

-- A node whose id stands in the rest of the vector is needed, and the iterator moves behind it. The
-- rest is strictly ascending.
pub node_needed-found :
    (passed a b : List ℤ) (id : ℤ)
    → Rising (a ++ id ∷ b)
    → node_needed id (standing passed (a ++ id ∷ b))
      ≡ ok (
        true,
        record {
          m_vector = passed ++ (a ++ id ∷ b);
          m_last_node_iter = length passed + length a + 1;
        },
      )
unfolding needed_from
node_needed-found passed [] b id r = needed_from_eq passed (id ∷ b) id ∙ rw same refl
  where
    same : eq_ℤ id id ≡ true
    same = ground arith
node_needed-found passed (x ∷ a) b id r =
    needed_from_eq passed (x ∷ (a ++ id ∷ b)) id
    ∙ rw (other, forward-found a b x id (Rising-before (x ∷ a) b id r)) refl
  where
    below : x <ℤ id
    below = (Rising-before (x ∷ a) b id r).0

    other : eq_ℤ id x ≡ false
    other = ground (arith, below)

-- Reading behind the end of the vector: a node whose id lies above all that are left of the vector,
-- or below all that are left of it once a needed node has been found.
pub node_needed_out_of_range :
    (passed rest : List ℤ) (x id : ℤ)
    → All (λ y. y <ℤ id) (x ∷ rest) ⊎ (All (λ y. id <ℤ y) (x ∷ rest) × 1 ≤ length passed)
    → node_needed id (standing passed (x ∷ rest)) ≡ err out_of_range
unfolding needed_from
node_needed_out_of_range passed rest x id (inl below) =
    needed_from_eq passed (x ∷ rest) id ∙ rw (other, forward_behind rest x id below) refl
  where
    other : eq_ℤ id x ≡ false
    other = ground (arith, below)
node_needed_out_of_range (p ∷ passed) rest x id (inr (above, n)) =
    needed_from_eq (p ∷ passed) (x ∷ rest) id
    ∙ rw (other, forward_above rest x id above.0, backward_above rest x id above) refl
  where
    other : eq_ℤ id x ≡ false
    other = ground (arith, above)
node_needed_out_of_range [] rest x id (inr (above, n)) = absurd (omega arith)

-- A node whose id stands between two neighbours of the rest is not needed, and nothing moves.
pub node_needed_between :
    (passed a b : List ℤ) (x y id : ℤ)
    → All (λ z. z <ℤ id) (x ∷ a)
    → id <ℤ y
    → node_needed id (standing passed (x ∷ (a ++ y ∷ b)))
      ≡ ok (false, standing passed (x ∷ (a ++ y ∷ b)))
unfolding needed_from
node_needed_between passed a b x y id below above =
    needed_from_eq passed (x ∷ (a ++ y ∷ b)) id
    ∙ rw
        (
          other,
          forward_between a b x y id below above,
          backward_from_below (length passed) (a ++ y ∷ b) x id below.0,
        )
        refl
  where
    other : eq_ℤ id x ≡ false
    other = ground (arith, below)
