-- ===== src/Listener/Watcher/Scan.antt =====
-- One chain's scan: the endpoints' logs, the observations of each transfer, and what is decided.
use zettapay.Prelude.{
  ℕ, ◌+◌, ◌-◌, Bool, true, false, not, ◌&&◌, Option, none, some, List, [], ◌∷◌, ◌++◌, Text, codes,
  length, keep, leb, ltb, if◌then◌else◌, ◌===◌, elem, to_lower_case, to_upper_case, map,
}
use zettapay.Prelude.Dict.{Dict, lookup, insert}
use zettapay.Prelude.Numerals.{big_int}
use zettapay.Listener.Errors.{Error, bad_big_int, Result, ok, err, or_throw}
use zettapay.Listener.Errors
use zettapay.Listener.Types.{Chain, Invoice, expired}
use zettapay.Listener.Storage.{list_pending_invoices, update_invoice_status}
use zettapay.Listener.Chains.{EvmTokenSpec, default_evm_token}
use zettapay.Listener.Quorum.{
  RpcObservation, QuorumDecision, agreed, conflict, insufficient, decide_transfer_quorum,
  quorum_threshold,
}
use zettapay.Listener.Watcher.{
  RpcLog, eth_block_number, eth_get_logs, null, other, text, logs, State, Poll, pure, from_result,
  gets, from_store, ◌>>=◌, ◌>>◌, add_seen, Config, FixedChainConfig, handle_transfer,
  is_hex_address,
}

-- `hexToBigInt`; `none` is the SyntaxError that `BigInt` throws.
unfoldable pub hex_to_big_int : Text → Option ℕ
hex_to_big_int [] = some 0
hex_to_big_int (c ∷ s) = if (c ∷ s) === codes "0x" then some 0 else big_int (c ∷ s)

-- `rpcUrlsFor`
abbrev pub rpc_urls_for : FixedChainConfig → List Text
rpc_urls_for chain = elim chain.rpc_urls [ [] ↦ chain.rpc_url ∷ [] | u ∷ us ↦ u ∷ us ]

-- `tokensToScan`
abbrev pub tokens_to_scan : FixedChainConfig → List EvmTokenSpec
tokens_to_scan chain = elim chain.enabled_tokens [
  | [] ↦ default_evm_token chain.spec ∷ []
  | t ∷ ts ↦ t ∷ ts
]

-- What one endpoint reported: its latest block and its logs.
pub record RpcScan : Type 0 where
  pub latest : ℕ
  pub logs : List RpcLog

block_number : Config → Text → Option ℕ
block_number cfg url = elim (cfg.net url eth_block_number) [
  | null ↦ none
  | other ↦ none
  | text hex ↦ hex_to_big_int hex
  | logs ls ↦ none
]

get_transfer_logs : Config → Text → EvmTokenSpec → ℕ → ℕ → Option (List RpcLog)
get_transfer_logs cfg url token from_block to_block =
    elim (cfg.net url (eth_get_logs token.address from_block to_block cfg.address)) [
      | null ↦ none
      | other ↦ none
      | text t ↦ none
      | logs ls ↦ some ls
    ]

with_logs : ℕ → Option (List RpcLog) → Option RpcScan
with_logs latest none = none
with_logs latest (some ls) = some (record { latest = latest; logs = ls })

-- `latest - window`, or 0
unfoldable pub scan_one_rpc : Config → EvmTokenSpec → Text → Option RpcScan
unfolding block_number get_transfer_logs with_logs
scan_one_rpc cfg token url = elim (block_number cfg url) [
  | none ↦ none
  | some latest ↦
      let from_block = if ltb cfg.block_window latest then latest - cfg.block_window else 0 in
      with_logs latest (get_transfer_logs cfg url token from_block latest)
]

unfoldable pub responded_of : List (Option RpcScan) → List RpcScan
responded_of [] = []
responded_of (none ∷ scans) = responded_of scans
responded_of (some s ∷ scans) = s ∷ responded_of scans

pub record Entry : Type 0 where
  pub tx_hash : Text
  pub observations : List RpcObservation

unfoldable pub log_key : RpcLog → Text
log_key lg = lg.transaction_hash ++ (b':' ∷ lg.log_index)

-- The observation that one endpoint's log is; it throws where a number does not parse.
unfoldable pub observe : ℕ → RpcLog → Result RpcObservation
observe latest lg = Errors.◌>>=◌ (or_throw (hex_to_big_int lg.data_hex) bad_big_int) λ value.
    Errors.◌>>=◌ (or_throw (hex_to_big_int lg.block_number) bad_big_int) λ log_block. ok (record {
      value = value;
      confirmations = if leb log_block latest then latest - log_block + 1 else 0;
    })

abbrev pub add_to_entry : RpcLog → RpcObservation → Option Entry → Entry
add_to_entry lg o none = record { tx_hash = lg.transaction_hash; observations = o ∷ [] }
add_to_entry lg o (some e) = record e { observations = e.observations ++ o ∷ [] }

-- The inner loop: the logs of one endpoint.
unfoldable pub add_logs : ℕ → Dict Entry → List RpcLog → Result (Dict Entry)
add_logs latest by_key [] = ok by_key
add_logs latest by_key (lg ∷ lgs) = Errors.◌>>=◌ (observe latest lg) λ o.
    add_logs latest (insert (log_key lg) (add_to_entry lg o (lookup (log_key lg) by_key)) by_key)
      lgs

-- The outer loop: the endpoints that responded.
unfoldable pub aggregate : Dict Entry → List RpcScan → Result (Dict Entry)
aggregate by_key [] = ok by_key
aggregate by_key (s ∷ scans) =
    Errors.◌>>=◌ (add_logs s.latest by_key s.logs) λ by_key'. aggregate by_key' scans

module _ (cfg : Config) (chain : FixedChainConfig) (token : EvmTokenSpec) where
  abbrev pub seen_key : Text → Text
  seen_key key = token.symbol ++ (b':' ∷ key)

  unfoldable pub mark_seen : Text → Bool → Poll (Unit {0})
  mark_seen key terminal = if terminal then add_seen chain.spec.chain (seen_key key) else pure tt

  abbrev pub dispatch : List Invoice → Text → Entry → QuorumDecision → Poll (Unit {0})
  dispatch active key entry (agreed value confirmations n) =
      handle_transfer cfg chain token active entry.tx_hash value confirmations >>= mark_seen key
  dispatch active key entry (conflict n) = pure tt
  dispatch active key entry (insufficient n) = pure tt

  -- One round of the loop over the transfers.
  unfoldable pub process_entry : List Invoice → ℕ → Text × Entry → Poll (Unit {0})
  process_entry active threshold (key, entry) = do
    done ← gets (λ s. elem (seen_key key) (s.seen chain.spec.chain))
    if done
        then pure tt
        else dispatch active key entry (decide_transfer_quorum entry.observations threshold)

  unfoldable pub process_entries : List Invoice → ℕ → Dict Entry → Poll (Unit {0})
  process_entries active threshold [] = pure tt
  process_entries active threshold (e ∷ es) =
      process_entry active threshold e >> process_entries active threshold es

  -- `false` is a degraded poll.
  unfoldable pub scan_token : List Invoice → Poll Bool
  scan_token active =
      let urls = rpc_urls_for chain in
      let threshold = quorum_threshold (length urls) cfg.quorum in
      let responded = responded_of (map (scan_one_rpc cfg token) urls) in
      if ltb (length responded) threshold then pure false else do
        by_key ← from_result (aggregate [] responded)
        process_entries active threshold by_key
        pure true

-- The invoices of one token.
abbrev pub for_token : EvmTokenSpec → List Invoice → List Invoice
for_token token active = keep (λ inv. to_upper_case inv.asset === token.symbol) active

-- The loop of `scanChain`.
unfoldable pub scan_tokens :
    Config → FixedChainConfig → List Invoice → Bool → List EvmTokenSpec → Poll Bool
scan_tokens cfg chain active all_ok [] = pure all_ok
scan_tokens cfg chain active all_ok (token ∷ tokens) = do
  fine ← scan_token cfg chain token (for_token token active)
  scan_tokens cfg chain active (all_ok && fine) tokens

unfoldable pub scan_chain : Config → FixedChainConfig → List Invoice → Poll Bool
scan_chain cfg chain active = scan_tokens cfg chain active true (tokens_to_scan chain)

abbrev pub at_address : Text → Invoice → Bool
at_address address inv = to_lower_case inv.address === to_lower_case address

unfoldable pub pending_for_chain : Config → Chain → Poll (List Invoice)
pending_for_chain cfg chain = do
  pending ← from_store (list_pending_invoices cfg.now (some chain) 0)
  pure (keep (at_address cfg.address) pending)

abbrev pub is_expired : ℕ → Invoice → Bool
is_expired now inv = ltb inv.expires_at now

-- A failure to write is swallowed.
unfoldable pub expire_one : ℕ → Invoice → Poll (Unit {0})
expire_one now inv s =
    if is_expired now inv
    then (let (_, st) = update_invoice_status now inv.id expired (λ i. i) s.store in
        (ok tt, record s { store = st }))
    else (ok tt, s)

unfoldable pub expire_stale : ℕ → List Invoice → Poll (Unit {0})
expire_stale now [] = pure tt
expire_stale now (inv ∷ pending) = expire_one now inv >> expire_stale now pending

-- The body of the `try` in `pollOnce`, and how many invoices it counts.
unfoldable pub poll_chain : Config → FixedChainConfig → Poll Bool
poll_chain cfg chain = do
  pending ← pending_for_chain cfg chain.spec.chain
  expire_stale cfg.now pending
  scan_chain cfg chain (keep (λ inv. not (is_expired cfg.now inv)) pending)

-- The `try` and `catch`: a chain that throws makes the poll fail, and the next chain is polled.
caught : Result Bool × State → Bool × State
caught (ok fine, s) = (fine, s)
caught (err _, s) = (false, s)

unfoldable pub poll_chains : Config → List FixedChainConfig → Bool → State → Bool × State
unfolding caught
poll_chains cfg [] all_ok s = (all_ok, s)
poll_chains cfg (chain ∷ chains) all_ok s =
    let (fine, s') = caught (poll_chain cfg chain s) in poll_chains cfg chains (all_ok && fine) s'

-- The new `lastPollOk` and the new state.
unfoldable pub poll_once : Config → State → Bool × State
poll_once cfg s =
    if is_hex_address cfg.address then poll_chains cfg cfg.chains true s else (false, s)
