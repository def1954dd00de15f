-- ===== src/Listener/Sqlite/Refines.antt =====
-- The two adapters of packages/listener/src/storage, on the same sequence of calls.
use zettapay.Prelude.{
  keep, ℕ, ◌≡◌, refl, Bool, Option, some, List, [], ◌∷◌, Text, Option-cases, inl, inr, text_eq_iff,
  ap, sym, ◌∙◌,
}
use zettapay.Prelude.Dict.{Dict, insert}
use zettapay.Listener.Errors.{ok, err, key_taken}
use zettapay.Listener.Types.{
  Merchant, Invoice, WebhookEvent, InvoiceInput, InvoiceStatus, Chain, WebhookEventInput,
  WebhookDeliveryResult,
}
use zettapay.Listener.Storage as Json
use zettapay.Listener.Storage.{
  Store, new_invoice, new_event, Action, merge, delivered, is_open, is_due,
}
use zettapay.Listener.Storage.Select.{select_unlimited}
use zettapay.Listener.Storage.Reachable.{
  Operation, make_merchant, make_invoice, set_status, record_event, mark_event, take_index,
}
use zettapay.Listener.Sqlite as Sqlite
use zettapay.Listener.Sqlite.Tables.{
  Database, find_row, insert_row_free, insert_row_taken, update_row,
}
use zettapay.Listener.Sqlite.Calls.{
  invoice_is, event_is, done, answered, json_call, sqlite_call, IsOwn, IsCongruent, same_answer,
  json_calls, sqlite_calls, AreCongruent,
}
use zettapay.Listener.Sqlite.Files.{
  files, files_of, lookup-files_of, good_files-files_of, insert-find_row-none, insert-find_row-some,
  find_row-key,
}

selected :
    {A : Type 0} (id_of : A → Text) (p : A → Bool) (rows : List A)
    → Json.select p 0 0 (files_of id_of rows) ≡ keep p rows
selected id_of p rows =
    select_unlimited p 0 (files_of id_of rows) ∙ ap (keep p) (good_files-files_of id_of rows)

-- An UPDATE of the row that was read, as a write of its file.
set_row :
    {A B : Type 0} (id_of : A → Text) (k : Text) (a : A)
    → k ≡ id_of a
    → (rows : List A) {r : A} → find_row id_of k rows ≡ some r
    → (f : Dict (Json.File A) → B)
    → f (insert k (Json.good a) (files_of id_of rows))
      ≡ f (files_of id_of (update_row id_of (id_of a) a rows))
set_row id_of k a same rows found f =
    ap f (insert-find_row-some id_of k a rows same found)
    ∙ ap (λ j. f (files_of id_of (update_row id_of j a rows))) same

create_merchant_agrees :
    (rows : List Merchant) (invoices : List Invoice) (events : List WebhookEvent) (uuid : Text)
    (now : ℕ) (input : Json.MerchantInput)
    → let d : Database = record { merchants = rows; invoices = invoices; events = events } in
      json_call (make_merchant uuid now input) (files d)
      ≡ same_answer (sqlite_call (make_merchant uuid now input) d)
unfolding json_call sqlite_call Json.create_merchant Sqlite.create_merchant
    Json.read_merchant_or_null
create_merchant_agrees [] invoices events uuid now input = refl
create_merchant_agrees (m ∷ rows) invoices events uuid now input = refl

index_agrees :
    (rows : List Merchant) (invoices : List Invoice) (events : List WebhookEvent)
    (merchant_id : Text)
    → IsOwn merchant_id rows
    → let d : Database = record { merchants = rows; invoices = invoices; events = events } in
      json_call (take_index merchant_id) (files d)
      ≡ same_answer (sqlite_call (take_index merchant_id) d)
unfolding json_call sqlite_call Json.next_child_index Sqlite.next_child_index find_row update_row
    Json.read_merchant_or_null
index_agrees [] invoices events merchant_id own = refl
index_agrees (m ∷ rows) invoices events merchant_id own =
    let same = (text_eq_iff m.id merchant_id).1 own in rw (same, update_row, same) refl

module _ (d : Database) where
  create_invoice_agrees :
      (uuid : Text) (now : ℕ) (input : InvoiceInput)
      → IsCongruent (make_invoice uuid now input) d
      → json_call (make_invoice uuid now input) (files d)
        ≡ same_answer (sqlite_call (make_invoice uuid now input) d)
  unfolding json_call sqlite_call Json.create_invoice Sqlite.create_invoice
  create_invoice_agrees uuid now input free =
      let new = new_invoice uuid now input in
      ap (λ rows. (ok (invoice_is new), record (files d) { invoices = rows }))
        (insert-find_row-none Invoice.id _ new d.invoices refl free)
      ∙ ap (λ rows. same_answer (answered invoice_is (Sqlite.inserted_invoice new rows d)))
          (sym (insert_row_free Invoice.id new d.invoices free))

  update_agrees :
      (now : ℕ) (id : Text) (status : InvoiceStatus) (patch : Invoice → Invoice)
      → json_call (set_status now id status patch) (files d)
        ≡ same_answer (sqlite_call (set_status now id status patch) d)
  unfolding json_call sqlite_call Json.update_invoice_status Sqlite.update_invoice_status
  update_agrees now id status patch = elim (Option-cases (find_row Invoice.id id d.invoices)) [
    | inl missing ↦ rw (lookup-files_of Invoice.id id d.invoices, missing) refl
    | inr (inv, found) ↦
        rw (lookup-files_of Invoice.id id d.invoices, found)
          (set_row Invoice.id id (merge inv status patch now)
            (sym (find_row-key Invoice.id id d.invoices found)) d.invoices found
            (λ rows.
              (ok (invoice_is (merge inv status patch now)), record (files d) { invoices = rows })))
  ]

  record_agrees :
      (input : WebhookEventInput)
      → IsCongruent (record_event input) d
      → json_call (record_event input) (files d) ≡ same_answer (sqlite_call (record_event input) d)
  unfolding json_call sqlite_call Json.record_webhook_event Sqlite.record_webhook_event
  record_agrees input free =
      let new = new_event input in
      ap (λ rows. (ok (event_is new), record (files d) { events = rows }))
        (insert-find_row-none WebhookEvent.id _ new d.events refl free)
      ∙ ap (λ rows. same_answer (answered event_is (Sqlite.inserted_event new rows d)))
          (sym (insert_row_free WebhookEvent.id new d.events free))

  mark_agrees :
      (now : ℕ) (id : Text) (result : WebhookDeliveryResult)
      → json_call (mark_event now id result) (files d)
        ≡ same_answer (sqlite_call (mark_event now id result) d)
  unfolding json_call sqlite_call Json.mark_webhook_delivered Sqlite.mark_webhook_delivered
      delivered
  mark_agrees now id result = elim (Option-cases (find_row WebhookEvent.id id d.events)) [
    | inl missing ↦ rw (lookup-files_of WebhookEvent.id id d.events, missing) refl
    | inr (evt, found) ↦
        rw (lookup-files_of WebhookEvent.id id d.events, found)
          (set_row WebhookEvent.id id (delivered now result evt)
            (sym (find_row-key WebhookEvent.id id d.events found)) d.events found
            (λ rows. (ok done, record (files d) { events = rows })))
  ]

call_agrees :
    (op : Operation) (d : Database)
    → IsCongruent op d
    → json_call op (files d) ≡ same_answer (sqlite_call op d)
unfolding json_call sqlite_call
call_agrees (make_merchant uuid now input) d h =
    create_merchant_agrees d.merchants d.invoices d.events uuid now input
call_agrees (make_invoice uuid now input) d h = create_invoice_agrees d uuid now input h
call_agrees (set_status now id status patch) d h = update_agrees d now id status patch
call_agrees (record_event input) d h = record_agrees d input h
call_agrees (mark_event now id result) d h = mark_agrees d now id result
call_agrees (take_index merchant_id) d h =
    index_agrees d.merchants d.invoices d.events merchant_id h

-- From tables and a directory that hold the same, any sequence of the six calls that write (make
-- the merchant, make an invoice, set a status, record an event, mark an event, take an index) that
-- inserts no key twice and takes an index for no foreign merchant gets the same answers from both
-- adapters, errors included, and leaves tables and a directory that hold the same. The calls that
-- only read are not among them.
pub calls_agree :
    (ops : List Operation) (d : Database)
    → AreCongruent ops d
    → json_calls ops (files d) ≡ ((sqlite_calls ops d).0, files (sqlite_calls ops d).1)
unfolding json_calls sqlite_calls
calls_agree [] d h = refl
calls_agree (op ∷ ops) d h =
    rw (call_agrees op d h.0, calls_agree ops (sqlite_call op d).1 h.1) refl

module _ (d : Database) where
  -- An event whose id is already in the table: SQLite throws and writes nothing, and the directory
  -- gets the new event in place of the old one, undelivered and with no attempts.
  pub record_webhook_event-taken :
      (input : WebhookEventInput) (old : WebhookEvent)
      → find_row WebhookEvent.id input.id d.events ≡ some old
      → (Sqlite.record_webhook_event input d ≡ (err key_taken, d))
        × (Json.record_webhook_event input (files d) ≡ (
          ok (new_event input),
          files (record d {
            events = update_row WebhookEvent.id input.id (new_event input) d.events;
          }),
        ))
  unfolding Sqlite.record_webhook_event Json.record_webhook_event
  record_webhook_event-taken input old taken =
      let new = new_event input in
      (
        ap (λ rows. Sqlite.inserted_event new rows d)
            (insert_row_taken WebhookEvent.id new d.events taken),
        ap (λ rows. (ok new, record (files d) { events = rows }))
            (insert-find_row-some WebhookEvent.id _ new d.events refl taken),
      )

  -- Without a limit SQLite lists the invoices that the directory lists, as it orders them by the
  -- time they were made; and the events that are due, by the time of the next attempt.
  pub lists_agree :
      (order_by : (A : Type 0) → (A → ℕ) → List A → List A) (now : ℕ) (chain : Option Chain)
      → ((open_ones : List Invoice) × (Json.list_pending_invoices now chain 0 (files d)
            ≡ (ok open_ones, files d))
          × (Sqlite.list_pending_invoices order_by now chain 0 d
              ≡ (ok (order_by Invoice Invoice.created_at open_ones), d)))
        × ((due : List WebhookEvent) × (Json.get_webhook_events_due now 0 (files d)
              ≡ (ok due, files d))
            × (Sqlite.get_webhook_events_due order_by now 0 d
                ≡ (ok (order_by WebhookEvent WebhookEvent.next_retry_at due), d)))
  unfolding Sqlite.list_pending_invoices Sqlite.get_webhook_events_due Json.list_pending_invoices
      Json.get_webhook_events_due
  lists_agree order_by now chain = (
    (
      keep (is_open now chain) d.invoices,
      ap (λ xs. (ok xs, files d)) (selected Invoice.id (is_open now chain) d.invoices),
      refl,
    ),
    (
      keep (is_due now) d.events,
      ap (λ xs. (ok xs, files d)) (selected WebhookEvent.id (is_due now) d.events),
      refl,
    ),
  )
