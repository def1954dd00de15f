-- ===== src/Listener/Storage/Laws.antt =====
-- What each write of packages/listener/src/storage/json.ts does to the files.
use zettapay.Prelude.{ℕ, ◌≡◌, ◌≢◌, inl, inr, none, some, Text, arith, Option-cases, text_eq_iff}
use zettapay.Prelude.Dict.{lookup, insert, lookup-insert}
use zettapay.Listener.Errors.{ok, err, invoice_not_found, corrupted}
use zettapay.Listener.Types.{Invoice, InvoiceStatus}
use zettapay.Listener.Storage.{
  Store, good, corrupt, read_json_or_null, update_invoice_status, merge,
}

module _ (now : ℕ) (id : Text) (status : InvoiceStatus) (patch : Invoice → Invoice)
    (st : Store) where
  pub update-good :
      {inv : Invoice}
      → lookup id st.invoices ≡ some (good inv)
      → update_invoice_status now id status patch st ≡ (
        ok (merge inv status patch now),
        record st { invoices = insert id (good (merge inv status patch now)) st.invoices },
      )
  unfolding update_invoice_status
  update-good found = rw (found, read_json_or_null)

  pub update-missing :
      lookup id st.invoices ≡ none
      → update_invoice_status now id status patch st ≡ (err (invoice_not_found id), st)
  unfolding update_invoice_status
  update-missing found = rw (found, read_json_or_null)

  pub update-corrupt :
      lookup id st.invoices ≡ some corrupt
      → update_invoice_status now id status patch st ≡ (err corrupted, st)
  unfolding update_invoice_status
  update-corrupt found = rw (found, read_json_or_null)

  -- The other files stay as they are.
  pub update-others :
      (j : Text)
      → id ≢ j
      → lookup j (update_invoice_status now id status patch st).1.invoices ≡ lookup j st.invoices
  update-others j ne = elim (Option-cases (lookup id st.invoices)) [
    | inl missing ↦ rw (update-missing missing)
    | inr (good inv, found) ↦ rw (update-good found) (
        let new = good (merge inv status patch now) in
        ground (arith, text_eq_iff id j, lookup-insert id j new st.invoices))
    | inr (corrupt, found) ↦ rw (update-corrupt found)
  ]
