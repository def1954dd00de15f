-- ===== src/Listener/Watcher/Outcomes.antt =====
-- What `handleTransfer` leaves behind, and the corners of a poll that its comments do not mention
-- (packages/listener/src/fixed-address-watcher.ts).
use zettapay.Prelude.{
  ℕ, ◌≡◌, refl, true, false, Option, some, List, [], ◌∷◌, Text, arith, ltb, leb, ◌&&◌, Bool-cases,
  inl, inr, ◌===◌, text_eq_refl, if◌then◌else◌, All, keep, All-keep,
}
use zettapay.Prelude.Dict.{Dict, lookup, insert, lookup-insert, insert-insert}
use zettapay.Listener.Errors.{ok}
use zettapay.Listener.Types.{Chain, Invoice, confirmed}
use zettapay.Listener.Storage.{
  File, good, record_webhook_event, list_pending_invoices, is_open, good_files,
}
use zettapay.Listener.Storage.Laws.{update-good}
use zettapay.Listener.Storage.Select.{select_unlimited}
use zettapay.Listener.Chains.{EvmTokenSpec}
use zettapay.Listener.Quorum.{
  RpcObservation, agreed, decide_transfer_quorum, group_from, add_observation, top_from,
}
use zettapay.Listener.Watcher.{
  State, Config, FixedChainConfig, find_invoice_by_value, confirm, handle_transfer,
  emit_confirmed_webhook, emit_orphan_webhook, paid, ◌>>=◌, ◌>>◌, RpcLog,
}
use zettapay.Listener.Watcher.Scan.{
  Entry, observe, aggregate, add_logs, log_key, pending_for_chain, expire_stale, expire_one,
  is_expired, at_address,
}
use zettapay.Listener.Watcher.Reports.{observations_of}

-- The invoice's file after it was paid: confirmed, with the hash and the time, and else as it was.
abbrev pub paid_file : ℕ → Text → Invoice → File Invoice
paid_file now tx_hash f =
    good (record f {
      status = confirmed;
      tx_hash = some tx_hash;
      paid_at = some now;
      updated_at = now;
    })

module _ (cfg : Config) (chain : FixedChainConfig) (token : EvmTokenSpec)
    (active : List Invoice) where
  confirm_invoices :
      (tx_hash : Text) (value nonce : ℕ) (inv f : Invoice) (s : State)
      → lookup inv.id s.store.invoices ≡ some (good f)
      → ((confirm cfg token tx_hash value inv nonce s).0 ≡ ok true)
        × ((confirm cfg token tx_hash value inv nonce s).1.store.invoices
            ≡ insert inv.id (paid_file cfg.now tx_hash f) s.store.invoices)
  unfolding confirm emit_confirmed_webhook record_webhook_event
  confirm_invoices tx_hash value nonce inv f s file =
      let updated = update-good cfg.now inv.id confirmed (paid cfg.now tx_hash) s.store file in
      (ground (arith, updated), ground (arith, updated))

  -- A transfer that pays an active invoice is done with exactly if it is deep enough, and then its
  -- invoice's file is as before but confirmed, with the transaction's hash and the time; else that
  -- file stays. No other invoice's file changes.
  pub handle_transfer_confirms :
      (tx_hash : Text) (value confirmations nonce : ℕ) (inv f : Invoice) (s : State)
      → find_invoice_by_value active value ≡ some (inv, nonce)
      → lookup inv.id s.store.invoices ≡ some (good f)
      → let (r, s') = handle_transfer cfg chain token active tx_hash value confirmations s in
        (r ≡ ok (leb chain.spec.min_confirmations confirmations))
        × ((j : Text)
            → lookup j s'.store.invoices ≡ (
                if leb chain.spec.min_confirmations confirmations && inv.id === j
                then some (paid_file cfg.now tx_hash f)
                else lookup j s.store.invoices))
  unfolding handle_transfer
  handle_transfer_confirms tx_hash value confirmations nonce inv f s found file =
      elim (Bool-cases (leb chain.spec.min_confirmations confirmations)) [
        | inl deep ↦
            let not_shallow : ltb confirmations chain.spec.min_confirmations ≡ false =
              ground arith in
            let (done, files) = confirm_invoices tx_hash value nonce inv f s file in
            rw (found, handle_transfer, not_shallow, deep)
              (
                done,
                λ j.
                    rw files
                      (lookup-insert inv.id j (paid_file cfg.now tx_hash f) s.store.invoices),
              )
        | inr not_deep ↦
            let shallow : ltb confirmations chain.spec.min_confirmations ≡ true = ground arith in
            rw (found, handle_transfer, shallow, not_deep) (refl, λ j. refl)
      ]

-- The first file of `expireStale`'s list that has expired is no pending one: within one poll the
-- list that it is given holds none, so no invoice is ever marked expired.
open_not_expired :
    (now : ℕ) (chain : Option Chain) (inv : Invoice)
    → is_open now chain inv ≡ true
    → is_expired now inv ≡ false
unfolding is_open
open_not_expired now chain inv h = ground arith

kept_not_expired :
    (now : ℕ) (chain : Option Chain) (invs : List Invoice)
    → All (λ (i : Invoice). is_expired now i ≡ false) (keep (is_open now chain) invs)
kept_not_expired now chain [] = tt
kept_not_expired now chain (inv ∷ invs) =
    ground (arith, open_not_expired now chain inv, kept_not_expired now chain invs)

expire_stale_none :
    (now : ℕ) (invs : List Invoice) (s : State)
    → All (λ (i : Invoice). is_expired now i ≡ false) invs
    → expire_stale now invs s ≡ (ok tt, s)
unfolding expire_stale expire_one
expire_stale_none now [] s h = refl
expire_stale_none now (inv ∷ invs) s h = ground (arith, expire_stale_none now invs s h.1)

-- `expireStale` writes nothing: `listPendingInvoices` has already left the expired invoices out.
expire_stale_idle :
    (cfg : Config) (chain : Chain) (s : State)
    → (pending_for_chain cfg chain >>= expire_stale cfg.now) s ≡ (ok tt, s)
unfolding pending_for_chain list_pending_invoices
expire_stale_idle cfg chain s =
    let open_ones = keep (is_open cfg.now (some chain)) (good_files s.store.invoices) in
    let listed = select_unlimited (is_open cfg.now (some chain)) 0 s.store.invoices in
    rw listed (
      expire_stale_none cfg.now (keep (at_address cfg.address) open_ones) s (
        All-keep _ (at_address cfg.address) open_ones
          (kept_not_expired cfg.now (some chain) (good_files s.store.invoices))))

same_twice :
    (o : RpcObservation) → decide_transfer_quorum (o ∷ o ∷ []) 2 ≡ agreed o.value o.confirmations 2
unfolding decide_transfer_quorum group_from add_observation top_from
same_twice o = ground arith

-- One endpoint that returns a log twice makes a quorum of two by itself: the transfer is agreed on
-- although the other endpoint reports nothing.
duplicate_log_agreed :
    (latest latest' : ℕ) (lg : RpcLog) {o : RpcObservation}
    → observe latest lg ≡ ok o
    → (by_key : Dict Entry) × (aggregate [] (
          record { latest = latest; logs = lg ∷ lg ∷ [] }
          ∷ record { latest = latest'; logs = [] }
          ∷ [])
        ≡ ok by_key)
      × (decide_transfer_quorum (observations_of (lookup (log_key lg) by_key)) 2
          ≡ agreed o.value o.confirmations 2)
unfolding aggregate add_logs lookup insert
duplicate_log_agreed latest latest' lg {o} e =
    let entry : Entry = record { tx_hash = lg.transaction_hash; observations = o ∷ o ∷ [] } in
    (
      (log_key lg, entry) ∷ [],
      ground (arith, text_eq_refl (log_key lg)),
      rw (text_eq_refl (log_key lg)) (same_twice o),
    )

-- Two orphan transfers of one transaction share an event id: the second report replaces the first.
orphan_reports_collide :
    (cfg : Config) (chain : Chain) (token : EvmTokenSpec) (tx_hash : Text) (v w : ℕ) (s : State)
    → (emit_orphan_webhook cfg chain token tx_hash v
          >> emit_orphan_webhook cfg chain token tx_hash w)
        s
      ≡ emit_orphan_webhook cfg chain token tx_hash w s
unfolding emit_orphan_webhook record_webhook_event
orphan_reports_collide cfg chain token tx_hash v w s = rw insert-insert
