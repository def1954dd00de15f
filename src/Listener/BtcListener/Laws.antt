-- ===== src/Listener/BtcListener/Laws.antt =====
-- When the Bitcoin listener touches an invoice (packages/listener/src/listener.ts).
use zettapay.Prelude.{
  ℕ, ◌+◌, ◌≤◌, ◌≡◌, refl, ◌≢◌, ◌⊎◌, inl, inr, true, false, Option, none, some, List, Text, ◌===◌,
  text_eq_iff, arith, Bool-cases, Option-cases, ◌∙◌, ap,
}
use zettapay.Prelude.Dict.{lookup}
use zettapay.Listener.Errors.{ok}
use zettapay.Listener.Types.{pending, confirmed, is_pending, Invoice}
use zettapay.Listener.Storage.{
  Store, Action, good, corrupt, read_json_or_null, get_invoice, record_webhook_event,
}
use zettapay.Listener.Storage.Laws.{update-others}
use zettapay.Listener.BtcListener.{
  State, Listen, from_store, ◌>>=◌, Config, MempoolTx, compute_confirmations, depth_at, settle,
  process_tx, when_pending, when_tracked, emit_confirmed_webhook,
}

-- The invoice's file is the same in both states.
abbrev pub Untouched : Text → State → State → Type 0
Untouched id s s' = lookup id s'.store.invoices ≡ lookup id s.store.invoices

-- An unconfirmed transaction has depth 0, a confirmed one at least 1; with the block and the tip
-- known it is the number of blocks from the transaction's to the tip.
pub compute_confirmations_lem :
    (tip : Option ℕ) (tx : MempoolTx)
    → (tx.is_confirmed ≡ false → compute_confirmations tip tx ≡ 0)
      × (tx.is_confirmed ≡ true → 1 ≤ compute_confirmations tip tx)
      × ((h b : ℕ)
          → tip ≡ some h
          → tx.block_height ≡ some b
          → tx.is_confirmed ≡ true
          → b ≤ h
          → compute_confirmations tip tx + b ≡ h + 1)
unfolding compute_confirmations
compute_confirmations_lem tip tx = (
  λ e. rw e refl,
  λ e. rw e (one tx.block_height tip),
  λ h b known_tip known_block e le. ground arith,
)
  where
    one : (block tip : Option ℕ) → 1 ≤ depth_at block tip
    one none tip = omega arith
    one (some b) none = omega arith
    one (some b) (some h) = omega arith

settle-Untouched :
    (cfg : Config) (address : Text) (tx : MempoolTx) (invoice : Invoice) (id : Text) (s : State)
    → invoice.id ≢ id
    → Untouched id s (settle cfg address tx invoice s).1
unfolding settle emit_confirmed_webhook record_webhook_event
settle-Untouched cfg address tx invoice id s ne =
    let others = update-others cfg.now invoice.id in
    ground (
      arith,
      others confirmed (λ inv. record inv { tx_hash = some tx.txid; paid_at = some cfg.now })
          s.store id ne,
      others pending (λ inv. record inv { tx_hash = some tx.txid }) s.store id ne,
    )

get-good :
    (key : Text) (s : Store) {invoice : Invoice}
    → lookup key s.invoices ≡ some (good invoice)
    → get_invoice key s ≡ (ok (some invoice), s)
unfolding get_invoice
get-good key s found = rw (found, read_json_or_null)

from_store-ok :
    {A B : Type 0} (m : Action A) (f : A → Listen B) (s : State) {a : A}
    → m s.store ≡ (ok a, s.store)
    → (from_store m >>= f) s ≡ f a s
from_store-ok m f s e = ap (λ got. (from_store (λ _. got) >>= f) s) e

process-settle :
    (cfg : Config) (address : Text) (tx : MempoolTx) (invoice : Invoice) (s : State) {key : Text}
    → lookup address s.address_to_invoice ≡ some key
    → lookup key s.store.invoices ≡ some (good invoice)
    → is_pending invoice.status ≡ true
    → process_tx cfg address tx s ≡ settle cfg address tx invoice s
unfolding process_tx
process-settle cfg address tx invoice s {key} tracked found is_open =
    rw (tracked, when_tracked)
      (let got =
          from_store-ok (get_invoice key) (when_pending cfg address tx) s
            (get-good key s.store found) in
        got ∙ rw (when_pending, is_open) refl)

-- The invoice is tracked at the address and its file says pending.
pub record IsTracked (address id : Text) (s : State) : Type 0 where
  pub key : Text
  pub invoice : Invoice
  pub tracked : lookup address s.address_to_invoice ≡ some key
  pub file : lookup key s.store.invoices ≡ some (good invoice)
  pub is_open : is_pending invoice.status ≡ true
  pub same_id : invoice.id ≡ id

-- A transaction leaves the file of an id as it is, unless a file that is tracked at the
-- transaction's address holds a pending invoice with that id.
pub process_tx_safe :
    (cfg : Config) (address : Text) (tx : MempoolTx) (id : Text) (s : State)
    → Untouched id s (process_tx cfg address tx s).1 ⊎ IsTracked address id s
unfolding process_tx get_invoice
process_tx_safe cfg address tx id s = elim (Option-cases (lookup address s.address_to_invoice)) [
  | inl unknown ↦ inl (rw (unknown, when_tracked))
  | inr (key, tracked) ↦ elim (Option-cases (lookup key s.store.invoices)) [
    | inl missing ↦ inl (ground arith)
    | inr (corrupt, found) ↦ inl (ground arith)
    | inr (good invoice, found) ↦ elim (Bool-cases (is_pending invoice.status)) [
      | inr settled ↦ inl (ground arith)
      | inl is_open ↦ elim (Bool-cases (invoice.id === id)) [
        | inl same ↦ inr (record {
          key = key;
          invoice = invoice;
          tracked = tracked;
          file = found;
          is_open = is_open;
          same_id = (text_eq_iff invoice.id id).0 same;
        })
        | inr other ↦
            let elsewhere : invoice.id ≢ id = λ e. cc (other, (text_eq_iff invoice.id id).1 e) in
            inl (
              rw (process-settle cfg address tx invoice s tracked found is_open)
                (settle-Untouched cfg address tx invoice id s elsewhere))
      ]
    ]
  ]
]

-- The amount that a transaction pays is not looked at: two transactions that differ only in their
-- outputs have the same effect.
outputs_ignored :
    (cfg : Config) (address : Text) (tx : MempoolTx) (vout : List (Text × ℕ)) (s : State)
    → process_tx cfg address (record tx { vout = vout }) s ≡ process_tx cfg address tx s
unfolding process_tx settle compute_confirmations
outputs_ignored cfg address tx vout s = refl
