-- ===== src/Listener/Quorum/Counts.antt =====
-- An independent description of what the observations say: how many report a value, and the least
-- depth among those.
use zettapay.Prelude.{ℕ, ◌+◌, ◌≤◌, ◌≡◌, List, [], ◌∷◌, if◌then◌else◌, ◌==◌}
use zettapay.Listener.Quorum.{RpcObservation}

-- How many observations report `v`.
abbrev pub reporters : ℕ → List RpcObservation → ℕ
reporters v [] = 0
reporters v (o ∷ os) = if o.value == v then reporters v os + 1 else reporters v os

-- `c` is at most every depth reported with `v`.
abbrev pub IsLeast : ℕ → ℕ → List RpcObservation → Type 0
IsLeast v c [] = Unit
IsLeast v c (o ∷ os) = (o.value ≡ v → c ≤ o.confirmations) × IsLeast v c os
