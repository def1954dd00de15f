-- ===== src/Listener/Watcher/Safety.antt =====
-- No invoice is touched by a scan of `FixedAddressWatcher` unless the endpoints' reports pay for it.
use zettapay.Prelude.{
  ℕ, ◌≤◌, ◌≡◌, refl, ◌⊎◌, inl, inr, Bool, true, List, [], ◌∷◌, Text, arith, Bool-cases, ltb, map,
  length, elem, ap,
}
use zettapay.Prelude.Dict.{Dict, lookup, Has, lookup-Has}
use zettapay.Listener.Errors.{Result, ok, err}
use zettapay.Listener.Types.{Invoice}
use zettapay.Listener.Chains.{EvmTokenSpec}
use zettapay.Listener.Quorum.{
  QuorumDecision, agreed, conflict, insufficient, decide_transfer_quorum, quorum_threshold,
}
use zettapay.Listener.Quorum.Counts.{reporters, IsLeast}
use zettapay.Listener.Quorum.Decision.{agreed_sound}
use zettapay.Listener.Watcher.{
  State, Config, FixedChainConfig, handle_transfer, ◌>>=◌, ◌>>◌, from_result, pure,
}
use zettapay.Listener.Watcher.Scan.{
  Entry, RpcScan, process_entry, process_entries, dispatch, mark_seen, scan_token, scan_one_rpc,
  responded_of, rpc_urls_for, aggregate, seen_key,
}
use zettapay.Listener.Watcher.Reports.{
  total_reports, observations_of, aggregate-reporters, aggregate-HasDistinctKeys,
}
use zettapay.Listener.Watcher.Transfers.{Untouched, seq-Untouched, Pays, handle_transfer_safe}

module _ (cfg : Config) (chain : FixedChainConfig) (token : EvmTokenSpec)
    (active : List Invoice) where
  -- A transfer of the poll on which a quorum agreed, and which pays the invoice.
  record Decided (threshold : ℕ) (by_key : Dict Entry) (id : Text) : Type 0 where
    key : Text
    entry : Entry
    there : Has key entry by_key
    value : ℕ
    confirmations : ℕ
    agree : ℕ
    decided : decide_transfer_quorum entry.observations threshold ≡ agreed value confirmations agree
    pays : Pays cfg chain token active id value confirmations

  mark_seen-Untouched :
      (key : Text) (terminal : Bool) (id : Text) (s : State)
      → Untouched id s (mark_seen cfg chain token key terminal s).1
  unfolding mark_seen
  mark_seen-Untouched key terminal id s = ground arith

  -- What the handler leaves alone, marking leaves alone.
  handled-Untouched :
      (key tx_hash : Text) (value confirmations : ℕ) (id : Text) (s : State)
      → Untouched id s (handle_transfer cfg chain token active tx_hash value confirmations s).1
      → Untouched id s
          ((handle_transfer cfg chain token active tx_hash value confirmations
              >>= mark_seen cfg chain token key)
            s).1
  unfolding mark_seen
  handled-Untouched key tx_hash value confirmations id s h = ground arith

  process_entry_safe :
      (threshold : ℕ) (key : Text) (entry : Entry) (id : Text) (s : State)
      → Untouched id s (process_entry cfg chain token active threshold (key, entry) s).1
        ⊎ Decided threshold ((key, entry) ∷ []) id
  unfolding process_entry
  process_entry_safe threshold key entry id s =
      elim (Bool-cases (elem (seen_key cfg chain token key) (s.seen chain.spec.chain))) [
        | inl done ↦ inl (rw done)
        | inr fresh ↦ rw fresh (go (decide_transfer_quorum entry.observations threshold) refl)
      ]
    where
      go :
          (d : QuorumDecision)
          → decide_transfer_quorum entry.observations threshold ≡ d
          → Untouched id s (dispatch cfg chain token active key entry d s).1
            ⊎ Decided threshold ((key, entry) ∷ []) id
      go (conflict n) e = inl refl
      go (insufficient n) e = inl refl
      go (agreed v c n) e =
          elim (handle_transfer_safe cfg chain token active entry.tx_hash v c id s) [
            | inl same ↦ inl (handled-Untouched key entry.tx_hash v c id s same)
            | inr pays ↦ inr (record {
              key = key;
              entry = entry;
              there = inl (refl, refl);
              value = v;
              confirmations = c;
              agree = n;
              decided = e;
              pays = pays;
            })
          ]

  Decided-later :
      {threshold : ℕ} {e : Text × Entry} {es : Dict Entry} {id : Text}
      → Decided threshold es id
      → Decided threshold (e ∷ es) id
  Decided-later d = record {
    key = d.key;
    entry = d.entry;
    there = inr d.there;
    value = d.value;
    confirmations = d.confirmations;
    agree = d.agree;
    decided = d.decided;
    pays = d.pays;
  }

  Decided-here :
      {threshold : ℕ} {e : Text × Entry} {es : Dict Entry} {id : Text}
      → Decided threshold (e ∷ []) id
      → Decided threshold (e ∷ es) id
  Decided-here d = record {
    key = d.key;
    entry = d.entry;
    there = elim d.there [ inl at ↦ inl at | inr none_left ↦ absurd none_left ];
    value = d.value;
    confirmations = d.confirmations;
    agree = d.agree;
    decided = d.decided;
    pays = d.pays;
  }

  process_entries_safe :
      (threshold : ℕ) (es : Dict Entry) (id : Text) (s : State)
      → Untouched id s (process_entries cfg chain token active threshold es s).1
        ⊎ Decided threshold es id
  unfolding process_entries
  process_entries_safe threshold [] id s = inl refl
  process_entries_safe threshold ((key, entry) ∷ es) id s =
      elim (process_entry_safe threshold key entry id s) [
        | inr d ↦ inr (Decided-here d)
        | inl same ↦
            seq-Untouched (process_entry cfg chain token active threshold (key, entry))
              (process_entries cfg chain token active threshold es) id s same
              λ s'. elim (process_entries_safe threshold es id s') [
                | inl same' ↦ inl same'
                | inr d ↦ inr (Decided-later d)
              ]
      ]

  -- What the endpoints of this chain returned in the poll.
  abbrev pub responses : List RpcScan
  responses = responded_of (map (scan_one_rpc cfg token) (rpc_urls_for chain))

  abbrev pub threshold_of : ℕ
  threshold_of = quorum_threshold (length (rpc_urls_for chain)) cfg.quorum

  -- At least a quorum of logs report the value under one key, each at least as deep as the depth
  -- that the value pays the invoice with.
  pub record IsPaidFor (id : Text) : Type 0 where
    pub key : Text
    pub value : ℕ
    pub confirmations : ℕ
    pub pays : Pays cfg chain token active id value confirmations
    pub reported : threshold_of ≤ total_reports key value responses
    pub by_key : Dict Entry
    pub aggregated : aggregate [] responses ≡ ok by_key
    pub least : IsLeast value confirmations (observations_of (lookup key by_key))

  Decided-IsPaidFor :
      (by_key : Dict Entry) (id : Text)
      → aggregate [] responses ≡ ok by_key
      → Decided threshold_of by_key id
      → IsPaidFor id
  unfolding lookup
  Decided-IsPaidFor by_key id e d =
      let distinct = aggregate-HasDistinctKeys [] responses e tt in
      let found = lookup-Has d.key d.entry by_key distinct d.there in
      let (enough, count, _, least) = agreed_sound d.entry.observations threshold_of d.decided in
      let counted = aggregate-reporters d.key d.value [] responses e in
      record {
        key = d.key;
        value = d.value;
        confirmations = d.confirmations;
        pays = d.pays;
        by_key = by_key;
        aggregated = e;
        least = rw found least;
        reported =
            omega (arith, count, counted, ap (λ o. reporters d.value (observations_of o)) found);
      }

  -- A scan of one token leaves an invoice's file as it is, unless an active invoice of that id has
  -- an amount that was reported, under one transfer's key, by at least `quorumThreshold` of the logs
  -- that the endpoints returned, and every one of those logs is at least `minConfirmations` deep.
  pub scan_token_safe :
      (id : Text) (s : State)
      → Untouched id s (scan_token cfg chain token active s).1 ⊎ IsPaidFor id
  unfolding scan_token
  scan_token_safe id s = elim (Bool-cases (ltb (length responses) threshold_of)) [
    | inl degraded ↦ inl (rw degraded)
    | inr enough ↦ rw enough (go (aggregate [] responses) refl)
  ]
    where
      go :
          (r : Result (Dict Entry))
          → aggregate [] responses ≡ r
          → Untouched id s
              ((from_result r >>= λ by_key.
                  process_entries cfg chain token active threshold_of by_key >> pure true)
                s).1
            ⊎ IsPaidFor id
      go (err e) eq = inl refl
      go (ok by_key) eq = elim (process_entries_safe threshold_of by_key id s) [
        | inr d ↦ inr (Decided-IsPaidFor by_key id eq d)
        | inl same ↦
            seq-Untouched (process_entries cfg chain token active threshold_of by_key) (pure true)
              id s same (λ s'. inl refl)
      ]
