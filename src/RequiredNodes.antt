-- ===== src/RequiredNodes.antt =====
-- src/addr_interpolation_handler.cpp: `RequiredNodesTracking`, the sorted ids of the nodes that the
-- interpolations need.
pub mod Lookup
use cerepso.Base.{
  ℕ, zero, suc, ◌+◌, Bool, true, false, not, ◌&&◌, List, [], ◌∷◌, ◌++◌, drop, if◌then◌else◌, ◌==◌,
  Result, ok, err, ◌>>=◌,
}
use cerepso.Base.Int.{ℤ, eq_ℤ, ltb_ℤ}
use cerepso.Diff.Pending.{sort, unique}
use cerepso.HouseNumber.{Fault, out_of_range}

-- The iterator is an index into the vector.
pub record RequiredNodesTracking : Type 0 where
  pub m_vector : List ℤ
  pub m_last_node_iter : ℕ

abbrev pub required_nodes_tracking : RequiredNodesTracking
required_nodes_tracking = record { m_vector = []; m_last_node_iter = 0 }

unfoldable pub track : ℤ → RequiredNodesTracking → RequiredNodesTracking
track id t = record t { m_vector = t.m_vector ++ id ∷ [] }

-- The result of `std::unique` is not erased. `left` is what it leaves behind the elements that it
-- keeps.
unfoldable pub prepare_for_lookup : List ℤ → RequiredNodesTracking → RequiredNodesTracking
unfolding sort unique
prepare_for_lookup left t = record {
  m_vector = unique (sort t.m_vector) ++ left;
  m_last_node_iter = 0;
}

-- The way forward from `it`, which stands at the head of the list, to an element with the id: how
-- far, or `none`. Reading the element at the end of the vector is a fault.
pub data Found : Type 0 where
  at : ℕ → Found
  nowhere : Found

abbrev pub one_further : Result Fault Found → Result Fault Found
one_further (ok (at k)) = ok (at (suc k))
one_further r = r

unfoldable pub forward : List ℤ → ℤ → Result Fault Found
forward [] id = ok nowhere
forward (x ∷ []) id = if ltb_ℤ x id then err out_of_range else ok nowhere
forward (x ∷ y ∷ rest) id =
    let later = one_further (forward (y ∷ rest) id) in
    if not (ltb_ℤ x id) then ok nowhere else if eq_ℤ id y then ok (at 1) else later

-- The loop that is meant to go backward, and goes forward too. Its test reads the element at `it`
-- before the body compares `it` with the end.
unfoldable pub backward : List ℤ → ℤ → Result Fault Found
backward [] id = err out_of_range
backward (x ∷ []) id = if ltb_ℤ id x then err out_of_range else ok nowhere
backward (x ∷ y ∷ rest) id =
    let later = one_further (backward (y ∷ rest) id) in
    if not (ltb_ℤ id x) then ok nowhere else if eq_ℤ id y then ok (at 1) else later

-- At the begin of the vector the loop does not start.
abbrev pub backward_from : ℕ → List ℤ → ℤ → Result Fault Found
backward_from zero rest id = ok nowhere
backward_from (suc k) rest id = backward rest id

abbrev pub behind : ℕ → RequiredNodesTracking → Bool × RequiredNodesTracking
behind k t = (true, record t { m_last_node_iter = t.m_last_node_iter + k + 1 })

abbrev pub or_backward :
    RequiredNodesTracking → Result Fault Found → Found → Result Fault (Bool × RequiredNodesTracking)
or_backward t back (at k) = ok (behind k t)
or_backward t back nowhere =
    back >>= λ found. elim found [ at k ↦ ok (behind k t) | nowhere ↦ ok (false, t) ]

-- The list is what stands from the iterator on.
unfoldable pub needed_from :
    List ℤ → ℤ → RequiredNodesTracking → Result Fault (Bool × RequiredNodesTracking)
unfolding forward backward
needed_from [] id t = ok (false, t)
needed_from (x ∷ rest) id t =
    if eq_ℤ id x
    then ok (behind 0 t)
    else (forward (x ∷ rest) id >>= or_backward t (backward_from t.m_last_node_iter (x ∷ rest) id))

unfoldable pub node_needed : ℤ → RequiredNodesTracking → Result Fault (Bool × RequiredNodesTracking)
unfolding needed_from
node_needed id t = needed_from (drop t.m_last_node_iter t.m_vector) id t
