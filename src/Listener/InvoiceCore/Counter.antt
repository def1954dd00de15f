-- ===== src/Listener/InvoiceCore/Counter.antt =====
-- The child index of an invoice with an address of its own (`createInvoiceForMerchant` of
-- packages/listener/src/invoice-core.ts over `nextChildIndex` of storage/json.ts).
use zettapay.Prelude.{
  ℕ, ◌+◌, ◌≡◌, refl, Option, some, List, Text, ltb, arith, Bool-cases, inl, inr, text_eq_refl,
}
use zettapay.Listener.Errors.{Result, ok, Result-cases}
use zettapay.Listener.Types.{Merchant}
use zettapay.Listener.Storage.{
  Store, good, get_merchant, next_child_index, create_invoice, read_merchant_or_null,
}
use zettapay.Listener.Storage.Reachable.{Operation, run_all}
use zettapay.Listener.InvoiceCore.Above.{IsAbove, run_all-IsAbove}
use zettapay.Listener.InvoiceCore.{Derived, BtcInvoice, create_invoice_for_merchant}

-- The merchant with the counter one further.
abbrev pub advanced : Merchant → Merchant
advanced m = record m { next_child_index = m.next_child_index + 1 }

next_child_index_lem :
    (s : Store) (m : Merchant)
    → s.merchant ≡ some (good m)
    → next_child_index m.id s
      ≡ (ok m.next_child_index, record s { merchant = some (good (advanced m)) })
unfolding next_child_index
next_child_index_lem s m there = rw (there, text_eq_refl m.id) refl

-- The index is the counter, and the counter moves on.
create_invoice-counter :
    (derive : Text → ℕ → Result Derived) (now : ℕ) (uuid merchant_id : Text) (amount_sats : ℕ)
    (expires : Option ℕ) (s : Store) (m : Merchant) {s' : Store} {r : BtcInvoice}
    → s.merchant ≡ some (good m)
    → create_invoice_for_merchant derive now uuid merchant_id amount_sats expires s ≡ (ok r, s')
    → (r.invoice.child_index ≡ some m.next_child_index)
      × (derive m.xpub m.next_child_index
          ≡ ok (record { path = r.path; address = r.invoice.address }))
      × (s'.merchant ≡ some (good (advanced m)))
unfolding create_invoice_for_merchant get_merchant read_merchant_or_null create_invoice
create_invoice-counter derive now uuid merchant_id amount_sats expires s m there e =
    elim (Bool-cases (ltb 0 amount_sats)) [
      | inr zero_sats ↦ absurd (ground arith)
      | inl positive ↦ elim (Result-cases (derive m.xpub m.next_child_index)) [
        | inr (x, failed) ↦ absurd (ground (arith, next_child_index_lem s m there))
        | inl (derived, found) ↦ ground (arith, next_child_index_lem s m there)
      ]
    ]

-- A new Bitcoin invoice takes the merchant's counter as its child index, its address is the one
-- derived from the merchant's key at that index, and the counter moves on by one. Whatever of the six
-- calls that write the directory follow (make the merchant, make an invoice, set a status, record an
-- event, mark an event, take an index), the counter stays above that index.
pub create_invoice_index :
    (derive : Text → ℕ → Result Derived) (now : ℕ) (uuid merchant_id : Text) (amount_sats : ℕ)
    (expires : Option ℕ) (s : Store) (m : Merchant) {s' : Store} {r : BtcInvoice}
    → s.merchant ≡ some (good m)
    → create_invoice_for_merchant derive now uuid merchant_id amount_sats expires s ≡ (ok r, s')
    → (r.invoice.child_index ≡ some m.next_child_index)
      × (derive m.xpub m.next_child_index
          ≡ ok (record { path = r.path; address = r.invoice.address }))
      × (s'.merchant ≡ some (good (advanced m)))
      × ((ops : List Operation) → IsAbove m.next_child_index (run_all ops s'))
create_invoice_index derive now uuid merchant_id amount_sats expires s m {s'} there e =
    let (index, found, moved) =
      create_invoice-counter derive now uuid merchant_id amount_sats expires s m there e in
    (
      index,
      found,
      moved,
      λ ops. run_all-IsAbove m.next_child_index ops s' (advanced m, moved, omega arith),
    )
