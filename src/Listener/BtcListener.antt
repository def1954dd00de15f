-- ===== src/Listener/BtcListener.antt =====
-- packages/listener/src/listener.ts: the watcher of Bitcoin addresses. Messages arrive as values;
-- what it sends on its socket, log lines and the reconnection timers are left out.
pub mod Effects
pub mod Laws
pub mod Messages
pub mod Subscriptions
pub mod Settled
mod Tests
pub use Effects.*
use zettapay.Prelude.{
  ℕ, suc, ◌+◌, ◌-◌, max, Bool, true, false, not, ◌&&◌, ◌||◌, Option, none, some, List, [], ◌∷◌,
  ◌++◌, Text, keep, leb, if◌then◌else◌, ◌===◌, elem, codes,
}
use zettapay.Prelude.Dict.{Dict, lookup, insert, remove}
use zettapay.Listener.Types.{
  btc, pending, confirmed, is_pending, Invoice, Payload, btc_confirmed, BtcPayload,
}
use zettapay.Listener.Storage.{
  list_pending_invoices, get_invoice, update_invoice_status, record_webhook_event,
}

abbrev pub webhook_retry_initial_ms : ℕ
webhook_retry_initial_ms = 1000

pub record MempoolTx : Type 0 where
  pub txid : Text
  pub is_confirmed : Bool
  pub block_height : Option ℕ
  -- the outputs: address and satoshis
  pub vout : List (Text × ℕ)

-- What the options fix: the resolver of the required confirmations, and what the clock and
-- `randomUUID` return.
pub record Config : Type 0 where
  pub required : Invoice → ℕ
  pub now : ℕ
  -- What `randomUUID` returns for the event of an invoice.
  pub uuid : Text → Text

abbrev depth_at : Option ℕ → Option ℕ → ℕ
depth_at none tip = 1
depth_at (some block) none = 1
depth_at (some block) (some tip) = max 1 (tip + 1 - block)

-- `tip - block + 1`, at least 1
unfoldable pub compute_confirmations : Option ℕ → MempoolTx → ℕ
compute_confirmations tip tx = if tx.is_confirmed then depth_at tx.block_height tip else 0

-- `this.addressToInvoiceId.set`, for each pending invoice.
abbrev pub address_map : Dict Text → List Invoice → Dict Text
address_map d [] = d
address_map d (inv ∷ invs) = address_map (insert inv.address inv.id d) invs

-- `targets.add`
abbrev pub targets_of : List Text → List Invoice → List Text
targets_of targets [] = targets
targets_of targets (inv ∷ invs) =
    targets_of (if elem inv.address targets then targets else targets ++ inv.address ∷ []) invs

-- The first loop of the diff.
abbrev pub add_all : List Text → List Text → List Text
add_all subscribed [] = subscribed
add_all subscribed (addr ∷ targets) =
    add_all (if elem addr subscribed then subscribed else subscribed ++ addr ∷ []) targets

unfoldable pub reconcile_subscriptions : Config → Listen (Unit {0})
reconcile_subscriptions cfg = do
  invs ← from_store (list_pending_invoices cfg.now (some btc) 0)
  let targets = targets_of [] invs
  modify λ s. record s {
    address_to_invoice = address_map [] invs;
    subscribed = keep (λ addr. elem addr targets) (add_all s.subscribed targets);
  }

abbrev paid_at_or : Option ℕ → ℕ → ℕ
paid_at_or none now = now
paid_at_or (some t) now = t

unfoldable pub emit_confirmed_webhook : Config → Invoice → ℕ → Listen (Unit {0})
emit_confirmed_webhook cfg invoice confirmations =
    from_store (
      record_webhook_event (record {
        id = codes "evt_" ++ cfg.uuid invoice.id;
        invoice_id = invoice.id;
        payload = btc_confirmed (record {
          invoice_id = invoice.id;
          merchant_id = invoice.merchant_id;
          chain = invoice.chain;
          asset = invoice.asset;
          amount = invoice.amount;
          address = invoice.address;
          tx_hash = invoice.tx_hash;
          confirmations = confirmations;
          confirmed_at = paid_at_or invoice.paid_at cfg.now;
        });
        next_retry_at = cfg.now + webhook_retry_initial_ms;
      }))
    >> pure tt

-- `this.subscribed.delete(address)` and `this.addressToInvoiceId.delete(address)`
abbrev untrack : Text → Listen (Unit {0})
untrack address = modify λ s. record s {
  subscribed = keep (λ addr. not (addr === address)) s.subscribed;
  address_to_invoice = remove address s.address_to_invoice;
}

abbrev paid : ℕ → Text → Invoice → Invoice
paid now txid inv = record inv { tx_hash = some txid; paid_at = some now }

abbrev same_hash : Option Text → Text → Bool
same_hash none txid = false
same_hash (some h) txid = h === txid

-- `processTx` behind its guards, for a pending invoice that is tracked at the address.
unfoldable pub settle : Config → Text → MempoolTx → Invoice → Listen (Unit {0})
settle cfg address tx invoice = do
  tip ← gets (λ s. s.last_block_height)
  let confirmations = compute_confirmations tip tx
  if leb (cfg.required invoice) confirmations
      then (from_store (update_invoice_status cfg.now invoice.id confirmed (paid cfg.now tx.txid))
          >>= λ done. emit_confirmed_webhook cfg done confirmations >> untrack address)
      else if same_hash invoice.tx_hash tx.txid
      then pure tt
      else from_store (
          update_invoice_status cfg.now invoice.id pending
            (λ inv. record inv { tx_hash = some tx.txid }))
        >> pure tt

abbrev when_pending : Config → Text → MempoolTx → Option Invoice → Listen (Unit {0})
when_pending cfg address tx none = pure tt
when_pending cfg address tx (some invoice) =
    if is_pending invoice.status then settle cfg address tx invoice else pure tt

abbrev pub when_tracked : Config → Text → MempoolTx → Option Text → Listen (Unit {0})
when_tracked cfg address tx none = pure tt
when_tracked cfg address tx (some invoice_id) = do
  found ← from_store (get_invoice invoice_id)
  when_pending cfg address tx found

unfoldable pub process_tx : Config → Text → MempoolTx → Listen (Unit {0})
process_tx cfg address tx = do
  tracked ← gets (λ s. lookup address s.address_to_invoice)
  when_tracked cfg address tx tracked

-- The transactions of one message, in order.
unfoldable pub process_txs : Config → List (Text × MempoolTx) → Listen (Unit {0})
process_txs cfg [] = pure tt
process_txs cfg ((address, tx) ∷ txs) = process_tx cfg address tx >> process_txs cfg txs
