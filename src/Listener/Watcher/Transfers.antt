-- ===== src/Listener/Watcher/Transfers.antt =====
-- When a transfer that was decided on touches an invoice (`handleTransfer` of
-- packages/listener/src/fixed-address-watcher.ts).
use zettapay.Prelude.{
  ℕ, ◌≤◌, ◌≡◌, refl, ◌≢◌, ◌⊎◌, inl, inr, some, List, Text, arith, Bool-cases, Option-cases, ltb,
  ◌===◌, text_eq_iff, ◌∙◌, ltb_false→le,
}
use zettapay.Prelude.Dict.{lookup}
use zettapay.Prelude.Numerals.{big_int}
use zettapay.Listener.Errors.{Result, ok, err}
use zettapay.Listener.Types.{Invoice, confirmed}
use zettapay.Listener.Storage.{record_webhook_event}
use zettapay.Listener.Storage.Laws.{update-others}
use zettapay.Listener.Chains.{EvmTokenSpec}
use zettapay.Listener.Watcher.{
  State, Config, FixedChainConfig, find_invoice_by_value, confirm, handle_transfer,
  emit_confirmed_webhook, emit_orphan_webhook, paid, Poll, ◌>>◌,
}
use zettapay.Listener.Watcher.Matching.{In, find_invoice_by_value_sound}

-- The invoice's file is the same in both states.
abbrev pub Untouched : Text → State → State → Type 0
Untouched id s s' = lookup id s'.store.invoices ≡ lookup id s.store.invoices

pub seq-Untouched :
    {A B P : Type 0} (m : Poll A) (k : Poll B) (id : Text) (s : State)
    → Untouched id s (m s).1
    → ((s' : State) → Untouched id s' (k s').1 ⊎ P)
    → Untouched id s ((m >> k) s).1 ⊎ P
seq-Untouched {A} {B} {P} m k id s h later = go (m s) h
  where
    go :
        (r : Result A × State)
        → Untouched id s r.1
        → Untouched id s
            (elim r.0 as (λ _. Result B × State) [ ok a ↦ k r.1 | err e ↦ (err e, r.1) ]).1
          ⊎ P
    go (err e, s') same = inl same
    go (ok a, s') same = elim (later s') [ inl same' ↦ inl (same' ∙ same) | inr p ↦ inr p ]

module _ (cfg : Config) (chain : FixedChainConfig) (token : EvmTokenSpec)
    (active : List Invoice) where
  -- The transfer pays an active invoice of this id, exactly and deep enough.
  pub record Pays (id : Text) (value confirmations : ℕ) : Type 0 where
    pub invoice : Invoice
    pub listed : In invoice active
    pub same_id : invoice.id ≡ id
    pub exact : big_int invoice.amount ≡ some value
    pub deep : chain.spec.min_confirmations ≤ confirmations

  pub confirm-Untouched :
      (tx_hash : Text) (value nonce : ℕ) (inv : Invoice) (id : Text) (s : State)
      → inv.id ≢ id
      → Untouched id s (confirm cfg token tx_hash value inv nonce s).1
  unfolding confirm emit_confirmed_webhook record_webhook_event
  confirm-Untouched tx_hash value nonce inv id s ne =
      let others = update-others cfg.now inv.id confirmed (paid cfg.now tx_hash) s.store id ne in
      ground (arith, others)

  pub handle_transfer_safe :
      (tx_hash : Text) (value confirmations : ℕ) (id : Text) (s : State)
      → Untouched id s (handle_transfer cfg chain token active tx_hash value confirmations s).1
        ⊎ Pays id value confirmations
  unfolding handle_transfer
  handle_transfer_safe tx_hash value confirmations id s =
      elim (Option-cases (find_invoice_by_value active value)) [
        | inl orphan ↦
            inl (
              rw (orphan, handle_transfer)
                (unfold emit_orphan_webhook record_webhook_event in refl))
        | inr ((inv, nonce), found) ↦
            elim (Bool-cases (ltb confirmations chain.spec.min_confirmations)) [
              | inl shallow ↦ inl (rw (found, handle_transfer, shallow))
              | inr deep ↦ elim (Bool-cases (inv.id === id)) [
                | inl same ↦
                    let (listed, exact, _, _, _) = find_invoice_by_value_sound active value found in
                    inr (record {
                      invoice = inv;
                      listed = listed;
                      same_id = (text_eq_iff inv.id id).0 same;
                      exact = exact;
                      deep = ltb_false→le _ _ deep;
                    })
                | inr other ↦ inl (
                    rw (found, handle_transfer, deep)
                      (confirm-Untouched tx_hash value nonce inv id s
                        (λ e. cc (other, (text_eq_iff inv.id id).1 e))))
              ]
            ]
      ]
