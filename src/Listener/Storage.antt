-- ===== src/Listener/Storage.antt =====
-- packages/listener/src/storage/json.ts: one JSON file for the merchant, one for each invoice and
-- one for each webhook event, named by its id. A write replaces the whole file. `Store` is what the
-- data directory holds; the lists are in the order in which the directory is read.
pub mod Monad
pub mod Select
pub mod Laws
pub mod WellFormed
pub mod Reachable
mod Tests
pub use Monad.*
pub use Select.{select, good_files}
use zettapay.Prelude.{
  ℕ, ◌+◌, ◌<◌, Bool, true, false, not, ◌&&◌, Option, none, some, List, [], ◌∷◌, ◌++◌, Text, codes,
  leb, ltb, if◌then◌else◌, is_some, ◌===◌, length,
}
use zettapay.Prelude.Dict.{Dict, lookup, insert}
use zettapay.Listener.Errors.{
  merchant_not_initialized, unknown_merchant, corrupted, invoice_not_found, event_not_found,
}
use zettapay.Listener.Types.{
  Chain, same_chain, InvoiceStatus, pending, is_pending, Merchant, Invoice, InvoiceInput,
  WebhookEvent, WebhookEventInput, WebhookDeliveryResult,
}

-- `readJsonOrNull`
abbrev pub read_json_or_null : {A : Type 0} → Option (File A) → Action (Option A)
read_json_or_null none = pure none
read_json_or_null (some corrupt) = throw corrupted
read_json_or_null (some (good a)) = pure (some a)

abbrev pub write_merchant : Merchant → Action (Unit {0})
write_merchant m = modify (λ s. record s { merchant = some (good m) })

abbrev pub write_invoice : Text → Invoice → Action (Unit {0})
write_invoice id inv = modify (λ s. record s { invoices = insert id (good inv) s.invoices })

abbrev pub write_event : Text → WebhookEvent → Action (Unit {0})
write_event id evt = modify (λ s. record s { events = insert id (good evt) s.events })

unfoldable pub read_merchant_or_null : Action (Option Merchant)
read_merchant_or_null = do read_json_or_null (← gets (λ s. s.merchant))

-- The id is not looked at.
unfoldable pub get_merchant : Text → Action (Option Merchant)
unfolding read_merchant_or_null
get_merchant id = read_merchant_or_null

-- What `init` is given.
pub record MerchantInput : Type 0 where
  pub shop_name : Text
  pub email : Text
  pub xpub : Text
  pub webhook_url : Text
  pub webhook_secret_hash : Text

abbrev pub new_merchant : Text → ℕ → MerchantInput → Merchant
new_merchant uuid now input = record {
  id = uuid;
  shop_name = input.shop_name;
  email = input.email;
  xpub = input.xpub;
  webhook_url = input.webhook_url;
  webhook_secret_hash = input.webhook_secret_hash;
  next_child_index = 0;
  created_at = now;
}

-- `uuid` is what `randomUUID` returns, and `now` what the clock does.
unfoldable pub create_merchant : Text → ℕ → MerchantInput → Action Merchant
unfolding read_merchant_or_null
create_merchant uuid now input = do
  existing ← read_merchant_or_null
  elim existing [
    | some m ↦ pure m
    | none ↦ write_merchant (new_merchant uuid now input) >> pure (new_merchant uuid now input)
  ]

-- `input.id || inv_${randomUUID()}`
abbrev pub id_or : Text → Text → Text
id_or [] uuid = codes "inv_" ++ uuid
id_or (c ∷ s) uuid = c ∷ s

abbrev status_or_pending : Option InvoiceStatus → InvoiceStatus
status_or_pending none = pending
status_or_pending (some st) = st

abbrev pub new_invoice : Text → ℕ → InvoiceInput → Invoice
new_invoice uuid now input = record {
  id = id_or input.id uuid;
  merchant_id = input.merchant_id;
  chain = input.chain;
  asset = input.asset;
  amount = input.amount;
  address = input.address;
  child_index = input.child_index;
  status = status_or_pending input.status;
  expires_at = input.expires_at;
  paid_at = none;
  tx_hash = none;
  created_at = now;
  updated_at = now;
}

unfoldable pub create_invoice : Text → ℕ → InvoiceInput → Action Invoice
create_invoice uuid now input =
    write_invoice (id_or input.id uuid) (new_invoice uuid now input)
    >> pure (new_invoice uuid now input)

unfoldable pub get_invoice : Text → Action (Option Invoice)
get_invoice id = do read_json_or_null (← gets (λ s. lookup id s.invoices))

abbrev pub on_chain : Option Chain → Invoice → Bool
on_chain none inv = true
on_chain (some c) inv = same_chain inv.chain c

-- Not paid, not expired at `now`, and on the chain that is asked for.
unfoldable pub is_open : ℕ → Option Chain → Invoice → Bool
is_open now chain inv = is_pending inv.status && not (leb inv.expires_at now) && on_chain chain inv

-- A limit of 0 is no limit.
unfoldable pub list_pending_invoices : ℕ → Option Chain → ℕ → Action (List Invoice)
list_pending_invoices now chain limit = gets (λ s. select (is_open now chain) limit 0 s.invoices)

-- `{ ...current, ...patch, … }`; `patch` lays its fields over the invoice.
abbrev pub merge : Invoice → InvoiceStatus → (Invoice → Invoice) → ℕ → Invoice
merge current status patch now = record (patch current) {
  id = current.id;
  merchant_id = current.merchant_id;
  created_at = current.created_at;
  status = status;
  updated_at = now;
}

unfoldable pub update_invoice_status :
    ℕ → Text → InvoiceStatus → (Invoice → Invoice) → Action Invoice
update_invoice_status now id status patch = do
  file ← gets (λ s. lookup id s.invoices)
  current ← read_json_or_null file
  elim current [
    | none ↦ throw (invoice_not_found id)
    | some inv ↦ write_invoice id (merge inv status patch now) >> pure (merge inv status patch now)
  ]

abbrev pub new_event : WebhookEventInput → WebhookEvent
new_event input = record {
  id = input.id;
  invoice_id = input.invoice_id;
  payload = input.payload;
  attempts = 0;
  next_retry_at = input.next_retry_at;
  delivered_at = none;
  last_status_code = none;
  last_error = none;
}

unfoldable pub record_webhook_event : WebhookEventInput → Action WebhookEvent
record_webhook_event input = write_event input.id (new_event input) >> pure (new_event input)

unfoldable pub is_due : ℕ → WebhookEvent → Bool
is_due now evt = not (is_some evt.delivered_at) && leb evt.next_retry_at now

-- A limit of 0 is no limit.
unfoldable pub get_webhook_events_due : ℕ → ℕ → Action (List WebhookEvent)
get_webhook_events_due now limit = gets (λ s. select (is_due now) limit 0 s.events)

-- `a ?? b`
abbrev pub or_else : {A : Type 0} → Option A → Option A → Option A
or_else none b = b
or_else (some a) b = some a

abbrev retry_or : Option ℕ → ℕ → ℕ
retry_or none old = old
retry_or (some t) old = t

unfoldable pub delivered : ℕ → WebhookDeliveryResult → WebhookEvent → WebhookEvent
delivered now result current = record current {
  attempts = current.attempts + 1;
  delivered_at = if result.is_ok then some now else current.delivered_at;
  last_status_code = or_else result.status_code current.last_status_code;
  last_error = if result.is_ok then none else or_else result.error current.last_error;
  next_retry_at =
      if result.is_ok
      then current.next_retry_at
      else retry_or result.next_retry_at current.next_retry_at;
}

unfoldable pub mark_webhook_delivered : ℕ → Text → WebhookDeliveryResult → Action (Unit {0})
mark_webhook_delivered now id result = do
  file ← gets (λ s. lookup id s.events)
  current ← read_json_or_null file
  elim current [
    | none ↦ throw (event_not_found id)
    | some evt ↦ write_event id (delivered now result evt)
  ]

-- The queue and the lock make the body one step.
unfoldable pub next_child_index : Text → Action ℕ
unfolding read_merchant_or_null
next_child_index merchant_id = do
  found ← read_merchant_or_null
  elim found [
    | none ↦ throw merchant_not_initialized
    | some m ↦
        if m.id === merchant_id
        then write_merchant (record m { next_child_index = m.next_child_index + 1 })
          >> pure m.next_child_index
        else throw unknown_merchant
  ]
