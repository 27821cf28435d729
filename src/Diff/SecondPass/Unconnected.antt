-- ===== src/Diff/SecondPass/Unconnected.antt =====
-- The second pass without areas: src/pgimporter.cpp connects the table of areas only if areas are
-- enabled, but always passes it.
use cerepso.Base.{false, ◌≡◌}
use cerepso.Connections.{areas, Tables}
use cerepso.Diff.SecondPass
use cerepso.Diff.SecondPass.{DiffHandler2}

record Unconnected (ts : Tables) : Type 0 where
  areas_out : (ts areas).m_connected ≡ false

record Out (h : DiffHandler2) : Type 0 where
  out : Unconnected h.tables

-- What never returns.
abbrev Never {ℓ} : {A : Type ℓ} → A → Type 0
Never a = ⊥
