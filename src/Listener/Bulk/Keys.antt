-- ===== src/Listener/Bulk/Keys.antt =====
-- packages/listener/src/storage/sqlite.ts: no call of the adapter breaks the keys of the tables.
use zettapay.Prelude.{ℕ, ◌≡◌, refl, List, [], ◌∷◌, Text, ◌===◌, Option-cases, Bool-cases, inl, inr}
use zettapay.Listener.Errors.{ok, err, Result}
use zettapay.Listener.Types.{
  Merchant, Invoice, WebhookEvent, InvoiceInput, InvoiceStatus, WebhookEventInput,
  WebhookDeliveryResult,
}
use zettapay.Listener.Storage.{
  merge, delivered, new_invoice, new_event, new_merchant, MerchantInput,
}
use zettapay.Listener.Storage.Reachable.{
  Operation, make_merchant, make_invoice, set_status, record_event, mark_event, take_index,
}
use zettapay.Listener.Sqlite as Sqlite
use zettapay.Listener.Sqlite.Tables.{
  Database, find_row, insert_row_free, insert_row_taken, update_row,
}
use zettapay.Listener.Sqlite.Calls.{Answer, answered, sqlite_call, sqlite_calls}
use zettapay.Listener.Bulk.Distinct.{
  HasDistinctIds, append-HasDistinctIds, update_row-HasDistinctIds,
}

abbrev pub IsSingle : List Merchant → Type 0
IsSingle [] = Unit
IsSingle (m ∷ []) = Unit
IsSingle (m ∷ n ∷ rows) = ⊥

-- At most one merchant, and primary keys that are distinct.
pub record HasKeys (d : Database) : Type 0 where
  pub merchants : IsSingle d.merchants
  pub invoices : HasDistinctIds Invoice.id d.invoices
  pub events : HasDistinctIds WebhookEvent.id d.events

abbrev pub empty_database : Database
empty_database = record { merchants = []; invoices = []; events = [] }

update_row-IsSingle :
    (k : Text) (m : Merchant) (rows : List Merchant)
    → IsSingle rows
    → IsSingle (update_row Merchant.id k m rows)
unfolding update_row
update_row-IsSingle k m [] h = tt
update_row-IsSingle k m (n ∷ []) h = elim (Bool-cases (n.id === k)) [
  | inl same ↦ rw same tt
  | inr other ↦ rw other tt
]
update_row-IsSingle k m (n ∷ p ∷ rows) h = absurd h

module _ (d : Database) (keys : HasKeys d) where
  create_invoice-HasKeys :
      (uuid : Text) (now : ℕ) (input : InvoiceInput)
      → HasKeys (Sqlite.create_invoice uuid now input d).1
  unfolding Sqlite.create_invoice
  create_invoice-HasKeys uuid now input =
      elim (Option-cases (find_row Invoice.id (new_invoice uuid now input).id d.invoices)) [
        | inl free ↦
            rw (insert_row_free Invoice.id (new_invoice uuid now input) d.invoices free) (record {
              merchants = keys.merchants;
              invoices = append-HasDistinctIds Invoice.id d.invoices _ keys.invoices free;
              events = keys.events;
            })
        | inr (old, taken) ↦
            rw (insert_row_taken Invoice.id (new_invoice uuid now input) d.invoices taken) keys
      ]

  record_webhook_event-HasKeys :
      (input : WebhookEventInput) → HasKeys (Sqlite.record_webhook_event input d).1
  unfolding Sqlite.record_webhook_event
  record_webhook_event-HasKeys input =
      elim (Option-cases (find_row WebhookEvent.id input.id d.events)) [
        | inl free ↦ rw (insert_row_free WebhookEvent.id (new_event input) d.events free) (record {
          merchants = keys.merchants;
          invoices = keys.invoices;
          events = append-HasDistinctIds WebhookEvent.id d.events _ keys.events free;
        })
        | inr (old, taken) ↦
            rw (insert_row_taken WebhookEvent.id (new_event input) d.events taken) keys
      ]

  update_invoice_status-HasKeys :
      (now : ℕ) (id : Text) (status : InvoiceStatus) (patch : Invoice → Invoice)
      → HasKeys (Sqlite.update_invoice_status now id status patch d).1
  unfolding Sqlite.update_invoice_status
  update_invoice_status-HasKeys now id status patch =
      elim (Option-cases (find_row Invoice.id id d.invoices)) [
        | inl missing ↦ rw missing keys
        | inr (inv, found) ↦ rw found (record {
          merchants = keys.merchants;
          invoices =
              update_row-HasDistinctIds Invoice.id _ (merge inv status patch now) d.invoices refl
                keys.invoices;
          events = keys.events;
        })
      ]

  mark_webhook_delivered-HasKeys :
      (now : ℕ) (id : Text) (result : WebhookDeliveryResult)
      → HasKeys (Sqlite.mark_webhook_delivered now id result d).1
  unfolding Sqlite.mark_webhook_delivered delivered
  mark_webhook_delivered-HasKeys now id result =
      elim (Option-cases (find_row WebhookEvent.id id d.events)) [
        | inl missing ↦ rw missing keys
        | inr (evt, found) ↦ rw found (record {
          merchants = keys.merchants;
          invoices = keys.invoices;
          events =
              update_row-HasDistinctIds WebhookEvent.id _ (delivered now result evt) d.events refl
                keys.events;
        })
      ]

  next_child_index-HasKeys :
      (merchant_id : Text) → HasKeys (Sqlite.next_child_index merchant_id d).1
  unfolding Sqlite.next_child_index
  next_child_index-HasKeys merchant_id =
      elim (Option-cases (find_row Merchant.id merchant_id d.merchants)) [
        | inl missing ↦ rw missing keys
        | inr (m, found) ↦ rw found (record {
          merchants = update_row-IsSingle _ _ d.merchants keys.merchants;
          invoices = keys.invoices;
          events = keys.events;
        })
      ]

create_merchant-HasKeys :
    (uuid : Text) (now : ℕ) (input : MerchantInput) (d : Database)
    → HasKeys d
    → HasKeys (Sqlite.create_merchant uuid now input d).1
unfolding Sqlite.create_merchant
create_merchant-HasKeys uuid now input d keys = kept d.merchants keys
  where
    kept :
        (rows : List Merchant)
        → HasKeys d
        → HasKeys (Sqlite.first_or_new (new_merchant uuid now input) rows d).1
    kept [] h = record { merchants = tt; invoices = h.invoices; events = h.events }
    kept (m ∷ rows) h = h

answered-state : {A B : Type 0} (f : A → Answer) (x : Result A × B) → (answered f x).1 ≡ x.1
answered-state f (ok a, b) = refl
answered-state f (err e, b) = refl

call-HasKeys : (op : Operation) (d : Database) → HasKeys d → HasKeys (sqlite_call op d).1
unfolding sqlite_call
call-HasKeys (make_merchant uuid now input) d keys =
    rw (answered-state _ (Sqlite.create_merchant uuid now input d))
      (create_merchant-HasKeys uuid now input d keys)
call-HasKeys (make_invoice uuid now input) d keys =
    rw (answered-state _ (Sqlite.create_invoice uuid now input d))
      (create_invoice-HasKeys d keys uuid now input)
call-HasKeys (set_status now id status patch) d keys =
    rw (answered-state _ (Sqlite.update_invoice_status now id status patch d))
      (update_invoice_status-HasKeys d keys now id status patch)
call-HasKeys (record_event input) d keys =
    rw (answered-state _ (Sqlite.record_webhook_event input d))
      (record_webhook_event-HasKeys d keys input)
call-HasKeys (mark_event now id result) d keys =
    rw (answered-state _ (Sqlite.mark_webhook_delivered now id result d))
      (mark_webhook_delivered-HasKeys d keys now id result)
call-HasKeys (take_index merchant_id) d keys =
    rw (answered-state _ (Sqlite.next_child_index merchant_id d))
      (next_child_index-HasKeys d keys merchant_id)

-- No call of the SQLite adapter, of whatever kind and whether it throws or not, breaks the keys.
pub calls-HasKeys :
    (ops : List Operation) (d : Database) → HasKeys d → HasKeys (sqlite_calls ops d).1
unfolding sqlite_calls
calls-HasKeys [] d keys = keys
calls-HasKeys (op ∷ ops) d keys = calls-HasKeys ops _ (call-HasKeys op d keys)
