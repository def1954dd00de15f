-- ===== src/Listener/Quorum/Tests.antt =====
-- Runs of packages/listener/src/rpc-quorum.ts at concrete inputs.
use zettapay.Prelude.{ℕ, ◌≤◌, ◌≡◌, refl, List, [], ◌∷◌, arith}
use zettapay.Listener.Quorum.{
  RpcObservation, agreed, decide_transfer_quorum, group_from, add_observation, top_from,
}
use zettapay.Listener.Quorum.Counts.{reporters, IsLeast}
use zettapay.Listener.Quorum.Decision.{agreed_sound, agreed_complete}

-- Two endpoints report 50, at depths 7 and 3, and a third reports 51.
abbrev observations : List RpcObservation
observations =
    record { value = 50; confirmations = 7 }
    ∷ record { value = 51; confirmations = 9 }
    ∷ record { value = 50; confirmations = 3 }
    ∷ []

agreed_sound_example :
    (2 ≤ 2)
    × (reporters 50 observations ≡ 2)
    × ((w : ℕ) → reporters w observations ≤ 2)
    × IsLeast 50 3 observations
unfolding decide_transfer_quorum group_from add_observation top_from
agreed_sound_example = agreed_sound observations 2 refl

agreed_complete_example :
    (v : ℕ) × (c : ℕ) × (n : ℕ) × (decide_transfer_quorum observations 2 ≡ agreed v c n)
agreed_complete_example = agreed_complete observations 2 50 (omega arith) (omega arith)
