-- ===== src/Listener/InvoiceCore/Above.antt =====
-- packages/listener/src/storage/json.ts: no call of the adapter takes the merchant's counter back.
use zettapay.Prelude.{
  ℕ, ◌+◌, ◌<◌, ◌≡◌, refl, some, List, [], ◌∷◌, Text, ◌===◌, arith, Bool-cases, Option-cases, inl,
  inr,
}
use zettapay.Prelude.Dict.{lookup}
use zettapay.Listener.Types.{Merchant, InvoiceStatus, Invoice, WebhookDeliveryResult}
use zettapay.Listener.Storage.{
  Store, good, corrupt, read_json_or_null, create_merchant, create_invoice, update_invoice_status,
  record_webhook_event, mark_webhook_delivered, next_child_index, read_merchant_or_null,
}
use zettapay.Listener.Storage.Reachable.{
  Operation, make_merchant, make_invoice, set_status, record_event, mark_event, take_index, run,
  run_all,
}

-- The merchant's file is good, with a counter above.
abbrev pub IsAbove : ℕ → Store → Type 0
IsAbove n s = (m : Merchant) × (s.merchant ≡ some (good m)) × (n < m.next_child_index)

update-merchant :
    (now : ℕ) (id : Text) (status : InvoiceStatus) (patch : Invoice → Invoice) (s : Store)
    → (update_invoice_status now id status patch s).1.merchant ≡ s.merchant
unfolding update_invoice_status
update-merchant now id status patch s = elim (Option-cases (lookup id s.invoices)) [
  | inl missing ↦ rw (missing, read_json_or_null) refl
  | inr (corrupt, found) ↦ rw (found, read_json_or_null) refl
  | inr (good inv, found) ↦ rw (found, read_json_or_null) refl
]

mark-merchant :
    (now : ℕ) (id : Text) (result : WebhookDeliveryResult) (s : Store)
    → (mark_webhook_delivered now id result s).1.merchant ≡ s.merchant
unfolding mark_webhook_delivered
mark-merchant now id result s = elim (Option-cases (lookup id s.events)) [
  | inl missing ↦ rw (missing, read_json_or_null) refl
  | inr (corrupt, found) ↦ rw (found, read_json_or_null) refl
  | inr (good evt, found) ↦ rw (found, read_json_or_null) refl
]

take-IsAbove :
    (n : ℕ) (merchant_id : Text) (s : Store) (m : Merchant)
    → s.merchant ≡ some (good m)
    → n < m.next_child_index
    → IsAbove n (next_child_index merchant_id s).1
unfolding next_child_index
take-IsAbove n merchant_id s m there above = elim (Bool-cases (m.id === merchant_id)) [
  | inl own ↦ (
    record m { next_child_index = m.next_child_index + 1 },
    rw (there, read_json_or_null, own) refl,
    omega (arith, above),
  )
  | inr other ↦ (m, rw (there, read_json_or_null, other) refl, above)
]

run-IsAbove : (n : ℕ) (op : Operation) (s : Store) → IsAbove n s → IsAbove n (run op s)
unfolding run create_merchant create_invoice record_webhook_event
run-IsAbove n (make_merchant uuid now input) s (m, there, above) =
    (m, rw (there, read_merchant_or_null) refl, above)
run-IsAbove n (make_invoice uuid now input) s h = h
run-IsAbove n (set_status now id status patch) s (m, there, above) =
    (m, rw update-merchant there, above)
run-IsAbove n (record_event input) s h = h
run-IsAbove n (mark_event now id result) s (m, there, above) = (m, rw mark-merchant there, above)
run-IsAbove n (take_index merchant_id) s (m, there, above) =
    take-IsAbove n merchant_id s m there above

pub run_all-IsAbove :
    (n : ℕ) (ops : List Operation) (s : Store) → IsAbove n s → IsAbove n (run_all ops s)
unfolding run_all
run_all-IsAbove n [] s h = h
run_all-IsAbove n (op ∷ ops) s h = run_all-IsAbove n ops (run op s) (run-IsAbove n op s h)
