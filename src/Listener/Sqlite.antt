-- ===== src/Listener/Sqlite.antt =====
-- packages/listener/src/storage/sqlite.ts: a table for the merchants, one for the invoices and one
-- for the webhook events, each with the id as its primary key. A table is the list of its rows, in
-- the order in which they were inserted. `order_by`, how SQLite sorts, is a parameter.
pub mod Tables
pub mod Calls
pub mod Files
pub mod Refines
mod Tests
pub use Tables.*
use zettapay.Prelude.{
  ℕ, ◌+◌, Bool, true, false, not, ◌&&◌, Option, none, some, List, [], ◌∷◌, Text, keep, take, ltb,
  leb, if◌then◌else◌,
}
use zettapay.Listener.Errors.{
  merchant_not_initialized, key_taken, invoice_not_found, event_not_found,
}
use zettapay.Listener.Types.{
  Chain, InvoiceStatus, Merchant, Invoice, InvoiceInput, WebhookEvent, WebhookEventInput,
  WebhookDeliveryResult,
}
use zettapay.Listener.Storage.{
  MerchantInput, new_merchant, new_invoice, merge, new_event, delivered, is_open, is_due,
}

-- `SELECT * FROM merchants WHERE id = ?`
unfoldable pub get_merchant : Text → Query (Option Merchant)
get_merchant id = gets (λ d. find_row Merchant.id id d.merchants)

abbrev pub first_or_new : Merchant → List Merchant → Query Merchant
first_or_new new (m ∷ rows) = pure m
first_or_new new [] = modify (λ d. record d { merchants = new ∷ [] }) >> pure new

-- `SELECT * FROM merchants LIMIT 1`, and the INSERT when there is none.
unfoldable pub create_merchant : Text → ℕ → MerchantInput → Query Merchant
create_merchant uuid now input =
    gets (λ d. d.merchants) >>= first_or_new (new_merchant uuid now input)

-- What the INSERT comes to.
abbrev pub inserted_invoice : Invoice → Option (List Invoice) → Query Invoice
inserted_invoice new none = throw key_taken
inserted_invoice new (some rows) = modify (λ d. record d { invoices = rows }) >> pure new

unfoldable pub create_invoice : Text → ℕ → InvoiceInput → Query Invoice
create_invoice uuid now input =
    gets (λ d. insert_row Invoice.id (new_invoice uuid now input) d.invoices)
    >>= inserted_invoice (new_invoice uuid now input)

unfoldable pub get_invoice : Text → Query (Option Invoice)
get_invoice id = gets (λ d. find_row Invoice.id id d.invoices)

-- The columns that the UPDATE sets.
abbrev pub invoice_columns : Invoice → Invoice → Invoice
invoice_columns current merged = record current {
  chain = merged.chain;
  asset = merged.asset;
  amount = merged.amount;
  address = merged.address;
  child_index = merged.child_index;
  status = merged.status;
  expires_at = merged.expires_at;
  paid_at = merged.paid_at;
  tx_hash = merged.tx_hash;
  updated_at = merged.updated_at;
}

abbrev pub update_found : Text → (Invoice → Invoice) → Option Invoice → Query Invoice
update_found id merged none = throw (invoice_not_found id)
update_found id merged (some current) =
    modify (λ d. record d {
      invoices =
          update_row Invoice.id (merged current).id (invoice_columns current (merged current))
            d.invoices;
    })
    >> pure (merged current)

unfoldable pub update_invoice_status :
    ℕ → Text → InvoiceStatus → (Invoice → Invoice) → Query Invoice
update_invoice_status now id status patch =
    gets (λ d. find_row Invoice.id id d.invoices)
    >>= update_found id (λ current. merge current status patch now)

-- What the INSERT comes to.
abbrev pub inserted_event : WebhookEvent → Option (List WebhookEvent) → Query WebhookEvent
inserted_event new none = throw key_taken
inserted_event new (some rows) = modify (λ d. record d { events = rows }) >> pure new

unfoldable pub record_webhook_event : WebhookEventInput → Query WebhookEvent
record_webhook_event input =
    gets (λ d. insert_row WebhookEvent.id (new_event input) d.events)
    >>= inserted_event (new_event input)

-- The columns that the UPDATE sets.
abbrev pub event_columns : WebhookEvent → WebhookEvent → WebhookEvent
event_columns current updated = record current {
  attempts = updated.attempts;
  next_retry_at = updated.next_retry_at;
  delivered_at = updated.delivered_at;
  last_status_code = updated.last_status_code;
  last_error = updated.last_error;
}

abbrev pub deliver_found :
    Text → (WebhookEvent → WebhookEvent) → Option WebhookEvent → Query (Unit {0})
deliver_found id updated none = throw (event_not_found id)
deliver_found id updated (some current) = modify (λ d. record d {
  events =
      update_row WebhookEvent.id (updated current).id (event_columns current (updated current))
        d.events;
})

unfoldable pub mark_webhook_delivered : ℕ → Text → WebhookDeliveryResult → Query (Unit {0})
mark_webhook_delivered now id result =
    gets (λ d. find_row WebhookEvent.id id d.events) >>= deliver_found id (delivered now result)

abbrev pub take_found : Text → Option Merchant → Query ℕ
take_found merchant_id none = throw merchant_not_initialized
take_found merchant_id (some m) =
    modify (λ d. record d {
      merchants =
          update_row Merchant.id merchant_id
            (record m { next_child_index = m.next_child_index + 1 }) d.merchants;
    })
    >> pure m.next_child_index

-- The transaction makes the body one step; it throws only before it writes.
unfoldable pub next_child_index : Text → Query ℕ
next_child_index merchant_id =
    gets (λ d. find_row Merchant.id merchant_id d.merchants) >>= take_found merchant_id

-- `LIMIT`, which is added when the limit is positive.
abbrev pub limited : {A : Type 0} → ℕ → List A → List A
limited limit rows = if ltb 0 limit then take limit rows else rows

module _ (order_by : (A : Type 0) → (A → ℕ) → List A → List A) where
  unfoldable pub list_pending_invoices : ℕ → Option Chain → ℕ → Query (List Invoice)
  list_pending_invoices now chain limit = gets (λ d.
      limited limit (order_by Invoice Invoice.created_at (keep (is_open now chain) d.invoices)))

  unfoldable pub get_webhook_events_due : ℕ → ℕ → Query (List WebhookEvent)
  get_webhook_events_due now limit = gets (λ d.
      limited limit (order_by WebhookEvent WebhookEvent.next_retry_at (keep (is_due now) d.events)))
