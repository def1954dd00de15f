-- ===== src/Listener/Storage/WellFormed.antt =====
-- Every file of the data directory holds what its name says (packages/listener/src/storage/json.ts).
use zettapay.Prelude.{ℕ, ◌≡◌, refl, some, Text, arith, text_eq_iff, Option-cases, inl, inr}
use zettapay.Prelude.Dict.{Dict, lookup, insert, lookup-insert}
use zettapay.Listener.Types.{
  Invoice, InvoiceStatus, InvoiceInput, WebhookEvent, WebhookEventInput, WebhookDeliveryResult,
}
use zettapay.Listener.Storage.{
  Store, File, good, corrupt, read_json_or_null, create_invoice, update_invoice_status,
  record_webhook_event, mark_webhook_delivered, delivered, new_invoice, merge, new_event,
}

module _ {A : Type 0} where
  abbrev pub IsKeyed : (A → Text) → Dict (File A) → Type 0
  IsKeyed key d = (id : Text) (a : A) → lookup id d ≡ some (good a) → key a ≡ id

  pub IsKeyed-insert :
      (key : A → Text) (k : Text) (v : A) (d : Dict (File A))
      → key v ≡ k
      → IsKeyed key d
      → IsKeyed key (insert k (good v) d)
  IsKeyed-insert key k v d own keyed id a e =
      ground (arith, lookup-insert k id (good v) d, text_eq_iff k id, keyed id a)

-- Each invoice and each event stands in the file that is named by its id.
pub record IsWellFormed (s : Store) : Type 0 where
  pub invoices : IsKeyed (λ (i : Invoice). i.id) s.invoices
  pub events : IsKeyed (λ (e : WebhookEvent). e.id) s.events

pub create_invoice-IsWellFormed :
    (uuid : Text) (now : ℕ) (input : InvoiceInput) (s : Store)
    → IsWellFormed s
    → IsWellFormed (create_invoice uuid now input s).1
unfolding create_invoice
create_invoice-IsWellFormed uuid now input s wf = record {
  invoices = IsKeyed-insert (λ i. i.id) _ (new_invoice uuid now input) s.invoices refl wf.invoices;
  events = wf.events;
}

pub update-IsWellFormed :
    (now : ℕ) (id : Text) (status : InvoiceStatus) (patch : Invoice → Invoice) (s : Store)
    → IsWellFormed s
    → IsWellFormed (update_invoice_status now id status patch s).1
unfolding update_invoice_status
update-IsWellFormed now id status patch s wf = elim (Option-cases (lookup id s.invoices)) [
  | inl missing ↦ rw (missing, read_json_or_null) wf
  | inr (corrupt, found) ↦ rw (found, read_json_or_null) wf
  | inr (good inv, found) ↦
      rw (found, read_json_or_null)
        (record {
          invoices =
              IsKeyed-insert (λ i. i.id) id (merge inv status patch now) s.invoices
                (wf.invoices id inv found) wf.invoices;
          events = wf.events;
        })
]

pub record-IsWellFormed :
    (input : WebhookEventInput) (s : Store)
    → IsWellFormed s
    → IsWellFormed (record_webhook_event input s).1
unfolding record_webhook_event
record-IsWellFormed input s wf = record {
  invoices = wf.invoices;
  events = IsKeyed-insert (λ e. e.id) input.id (new_event input) s.events refl wf.events;
}

pub mark-IsWellFormed :
    (now : ℕ) (id : Text) (result : WebhookDeliveryResult) (s : Store)
    → IsWellFormed s
    → IsWellFormed (mark_webhook_delivered now id result s).1
unfolding mark_webhook_delivered delivered
mark-IsWellFormed now id result s wf = elim (Option-cases (lookup id s.events)) [
  | inl missing ↦ rw (missing, read_json_or_null) wf
  | inr (corrupt, found) ↦ rw (found, read_json_or_null) wf
  | inr (good evt, found) ↦
      rw (found, read_json_or_null)
        (record {
          invoices = wf.invoices;
          events =
              IsKeyed-insert (λ e. e.id) id (delivered now result evt) s.events
                (wf.events id evt found) wf.events;
        })
]
