-- ===== src/Listener/Storage/Reachable.antt =====
-- Any sequence of the operations of packages/listener/src/storage/json.ts that write.
use zettapay.Prelude.{
  ℕ, ◌≡◌, refl, none, List, [], ◌∷◌, Text, Option-cases, inl, inr, Bool-cases, ◌===◌,
}
use zettapay.Prelude.Dict.{lookup}
use zettapay.Listener.Types.{
  Invoice, InvoiceStatus, InvoiceInput, WebhookEventInput, WebhookDeliveryResult,
}
use zettapay.Listener.Storage.{
  Store, good, corrupt, read_json_or_null, MerchantInput, create_merchant, create_invoice,
  update_invoice_status, record_webhook_event, mark_webhook_delivered, next_child_index,
}
use zettapay.Listener.Storage.WellFormed.{
  IsWellFormed, create_invoice-IsWellFormed, update-IsWellFormed, record-IsWellFormed,
  mark-IsWellFormed,
}

-- A call of the adapter, with what the clock and `randomUUID` return.
pub data Operation : Type 0 where
  make_merchant : Text → ℕ → MerchantInput → Operation
  make_invoice : Text → ℕ → InvoiceInput → Operation
  set_status : ℕ → Text → InvoiceStatus → (Invoice → Invoice) → Operation
  record_event : WebhookEventInput → Operation
  mark_event : ℕ → Text → WebhookDeliveryResult → Operation
  take_index : Text → Operation

-- What a call leaves in the directory, whether it throws or not.
unfoldable pub run : Operation → Store → Store
run (make_merchant uuid now input) s = (create_merchant uuid now input s).1
run (make_invoice uuid now input) s = (create_invoice uuid now input s).1
run (set_status now id status patch) s = (update_invoice_status now id status patch s).1
run (record_event input) s = (record_webhook_event input s).1
run (mark_event now id result) s = (mark_webhook_delivered now id result s).1
run (take_index merchant_id) s = (next_child_index merchant_id s).1

unfoldable pub run_all : List Operation → Store → Store
run_all [] s = s
run_all (op ∷ ops) s = run_all ops (run op s)

abbrev pub empty_directory : Store
empty_directory = record { merchant = none; invoices = []; events = [] }

-- Only the merchant's file differs.
abbrev SameFiles : Store → Store → Type 0
SameFiles s s' = (s'.invoices ≡ s.invoices) × (s'.events ≡ s.events)

same-IsWellFormed : (s s' : Store) → SameFiles s s' → IsWellFormed s → IsWellFormed s'
same-IsWellFormed s s' same wf = record {
  invoices = rw same.0 wf.invoices;
  events = rw same.1 wf.events;
}

create_merchant-SameFiles :
    (uuid : Text) (now : ℕ) (input : MerchantInput) (s : Store)
    → SameFiles s (create_merchant uuid now input s).1
unfolding create_merchant
create_merchant-SameFiles uuid now input s = elim (Option-cases s.merchant) [
  | inl missing ↦ rw (missing, read_json_or_null) (refl, refl)
  | inr (corrupt, found) ↦ rw (found, read_json_or_null) (refl, refl)
  | inr (good m, found) ↦ rw (found, read_json_or_null) (refl, refl)
]

next_child_index-SameFiles :
    (merchant_id : Text) (s : Store) → SameFiles s (next_child_index merchant_id s).1
unfolding next_child_index
next_child_index-SameFiles merchant_id s = elim (Option-cases s.merchant) [
  | inl missing ↦ rw (missing, read_json_or_null) (refl, refl)
  | inr (corrupt, found) ↦ rw (found, read_json_or_null) (refl, refl)
  | inr (good m, found) ↦ elim (Bool-cases (m.id === merchant_id)) [
    | inl own ↦ rw (found, read_json_or_null, own) (refl, refl)
    | inr other ↦ rw (found, read_json_or_null, other) (refl, refl)
  ]
]

run-IsWellFormed : (op : Operation) (s : Store) → IsWellFormed s → IsWellFormed (run op s)
unfolding run
run-IsWellFormed (make_merchant uuid now input) s wf =
    same-IsWellFormed s _ (create_merchant-SameFiles uuid now input s) wf
run-IsWellFormed (make_invoice uuid now input) s wf =
    create_invoice-IsWellFormed uuid now input s wf
run-IsWellFormed (set_status now id status patch) s wf =
    update-IsWellFormed now id status patch s wf
run-IsWellFormed (record_event input) s wf = record-IsWellFormed input s wf
run-IsWellFormed (mark_event now id result) s wf = mark-IsWellFormed now id result s wf
run-IsWellFormed (take_index merchant_id) s wf =
    same-IsWellFormed s _ (next_child_index-SameFiles merchant_id s) wf

run_all-IsWellFormed :
    (ops : List Operation) (s : Store) → IsWellFormed s → IsWellFormed (run_all ops s)
unfolding run_all
run_all-IsWellFormed [] s wf = wf
run_all-IsWellFormed (op ∷ ops) s wf =
    run_all-IsWellFormed ops (run op s) (run-IsWellFormed op s wf)

-- After any sequence of calls on an empty directory, those that throw included, every file of an
-- invoice or an event holds the one that the file is named by.
pub reachable-IsWellFormed : (ops : List Operation) → IsWellFormed (run_all ops empty_directory)
unfolding lookup
reachable-IsWellFormed ops =
    run_all-IsWellFormed ops empty_directory
      (record { invoices = λ id inv e. cc e; events = λ id evt e. cc e })
