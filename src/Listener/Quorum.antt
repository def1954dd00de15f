-- ===== src/Listener/Quorum.antt =====
-- packages/listener/src/rpc-quorum.ts: a transfer counts only when enough endpoints report it alike.
pub mod Counts
pub mod Laws
pub mod Decision
mod Tests
use zettapay.Prelude.{
  ℕ, ◌+◌, ◌≤◌, min, max, Bool, true, false, not, ◌&&◌, Option, none, some, List, [], ◌∷◌, ◌++◌,
  Text, codes, length, leb, ltb, if◌then◌else◌, ◌==◌, ◌===◌, elem, split, trim, to_lower_case,
}
use zettapay.Prelude.Dict.{Dict, lookup}

abbrev pub default_quorum : ℕ
default_quorum = 2

abbrev pub default_rpc_urls : Dict (List Text)
default_rpc_urls =
    (
      codes "base",
      codes "https://mainnet.base.org"
          ∷ codes "https://base.llamarpc.com"
          ∷ codes "https://base-rpc.publicnode.com"
          ∷ [],
    )
    ∷ (
      codes "ethereum",
      codes "https://eth.llamarpc.com"
          ∷ codes "https://ethereum-rpc.publicnode.com"
          ∷ codes "https://rpc.ankr.com/eth"
          ∷ [],
    )
    ∷ (
      codes "polygon",
      codes "https://polygon-rpc.com"
          ∷ codes "https://polygon.llamarpc.com"
          ∷ codes "https://polygon-bor-rpc.publicnode.com"
          ∷ [],
    )
    ∷ []

is_empty : Text → Bool
is_empty [] = true
is_empty (_ ∷ _) = false

-- The loop of `parseRpcCsv`; `out` is also the set of the urls that were seen.
dedup_from : List Text → List Text → List Text
dedup_from out [] = out
dedup_from out (part ∷ parts) =
    let u = trim part in
    dedup_from (if not (is_empty u) && not (elem u out) then out ++ u ∷ [] else out) parts

unfoldable pub parse_rpc_csv : Option Text → List Text
unfolding dedup_from is_empty
parse_rpc_csv none = []
parse_rpc_csv (some csv) = if is_empty csv then [] else dedup_from [] (split b',' csv)

urls_or_none : Option (List Text) → List Text
urls_or_none none = []
urls_or_none (some urls) = urls

unfoldable pub resolve_rpc_urls : Text → Option Text → List Text
unfolding parse_rpc_csv urls_or_none
resolve_rpc_urls alias override = elim (parse_rpc_csv override) [
  | [] ↦ urls_or_none (lookup (to_lower_case (trim alias)) default_rpc_urls)
  | u ∷ us ↦ u ∷ us
]

unfoldable pub quorum_threshold : ℕ → ℕ → ℕ
quorum_threshold configured quorum = max 1 (min configured quorum)

pub record RpcObservation : Type 0 where
  pub value : ℕ
  pub confirmations : ℕ

-- What `byValue` holds for one value.
pub record Group : Type 0 where
  pub count : ℕ
  pub min_conf : ℕ
  pub value : ℕ

pub data QuorumDecision : Type 0 where
  agreed : ℕ → ℕ → ℕ → QuorumDecision
  conflict : ℕ → QuorumDecision
  insufficient : ℕ → QuorumDecision

-- One round of the grouping loop; the groups are in the order in which their values came.
unfoldable pub add_observation : RpcObservation → List Group → List Group
add_observation o [] = record { count = 1; min_conf = o.confirmations; value = o.value } ∷ []
add_observation o (g ∷ gs) =
    if g.value == o.value
    then record g { count = g.count + 1; min_conf = min g.min_conf o.confirmations } ∷ gs
    else g ∷ add_observation o gs

unfoldable pub group_from : List Group → List RpcObservation → List Group
group_from groups [] = groups
group_from groups (o ∷ os) = group_from (add_observation o groups) os

-- The first of the largest groups.
unfoldable pub top_from : Option Group → List Group → Option Group
top_from top [] = top
top_from none (g ∷ gs) = top_from (some g) gs
top_from (some t) (g ∷ gs) = top_from (some (if ltb t.count g.count then g else t)) gs

decide_top : ℕ → ℕ → Option Group → QuorumDecision
decide_top size threshold none = insufficient 0
decide_top size threshold (some t) =
    if leb threshold t.count
    then agreed t.value t.min_conf t.count
    else if ltb 1 size
    then conflict t.count
    else insufficient t.count

unfoldable pub decide_transfer_quorum : List RpcObservation → ℕ → QuorumDecision
unfolding decide_top
decide_transfer_quorum observations threshold =
    let groups = group_from [] observations in
    decide_top (length groups) threshold (top_from none groups)
