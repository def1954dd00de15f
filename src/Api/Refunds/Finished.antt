-- ===== src/Api/Refunds/Finished.antt =====
-- packages/api/src/services/refunds.ts: how a refund ends whose transfer was signed.
use zettapay.Prelude.{
  ◌≡◌, refl, true, false, Option, none, some, List, [], ◌∷◌, Text, ◌===◌, find, map, if◌then◌else◌,
  Bool-cases, inl, inr, ap, sym, ◌∙◌,
}
use zettapay.Api.Errors.{ok, err, conflict}
use zettapay.Api.Refunds.{
  Db, Refund, refund_failed, refund_completed, Waiting, finish, signed, get_refund, update_refund,
  mark_refund_completed, mark_refund_failed, mark_payment_refunded, append_audit, after_completed,
  after_payment, or_payment, find_payment_by_id,
}
use zettapay.Api.Refunds.Rows.{unless}

module _ {Amount : Type 0} where
  abbrev mapped : (Refund Amount → Refund Amount) → Option (Refund Amount) → Option (Refund Amount)
  mapped f none = none
  mapped f (some r) = some (f r)

  -- An UPDATE of the row with an id, as it is read back.
  find-map :
      (id : Text) (f : Refund Amount → Refund Amount) (rows : List (Refund Amount))
      {r : Refund Amount}
      → ((x : Refund Amount) → Refund.id (f x) ≡ x.id)
      → find (λ x. x.id === id) rows ≡ some r
      → find (λ x. x.id === id) (map (λ x. if x.id === id then f x else x) rows) ≡ some (f r)
  find-map id f [] keeps e = cc
  find-map id f (x ∷ rows) {r = r} keeps e = elim (Bool-cases (x.id === id)) [
    | inl same ↦
        let here : some x ≡ some r = rw (← e, same) refl in
        let still : (Refund.id (f x) === id) ≡ true = ap (λ k. k === id) (keeps x) ∙ same in
        rw (same, still) (ap (mapped f) here)
    | inr other ↦
        let there : find (λ y. y.id === id) rows ≡ some r = rw (← e, other) refl in
        rw (other, other) (find-map id f rows keeps there)
  ]

  module _ (w : Waiting Amount) (tx : Text) (d d' : Db Amount) (r : Refund Amount)
      (found : get_refund w.refund_id d ≡ some r)
      (fresh : mark_refund_completed w.refund_id tx d ≡ some d') where
    -- The tables once the refund is marked as completed.
    abbrev marked : Db Amount
    marked =
        update_refund w.refund_id
          (λ x. record x { status = refund_completed; tx_signature = some tx }) d

    finish-marked :
        finish w (signed tx) d ≡ after_payment w (mark_payment_refunded w.payment.id marked)
    unfolding finish mark_refund_completed
    finish-marked = ap (after_completed w d) (fresh ∙ ap some (sym (unless _ fresh).1))

    marked-row :
        get_refund w.refund_id marked
        ≡ some (record r { status = refund_completed; tx_signature = some tx })
    unfolding get_refund
    marked-row = find-map w.refund_id _ d.refunds (λ x. refl) found

    -- The transfer was signed, but the payment is no longer completed: the caller gets a conflict,
    -- and the refund, whose transfer happened, ends as failed, with the signature of the transfer.
    pub finish-conflict :
        (mark_payment_refunded w.payment.id d).0 ≡ false
        → ((finish w (signed tx) d).0 ≡ err conflict)
          × (get_refund w.refund_id (finish w (signed tx) d).1
              ≡ some (record r { status = refund_failed; tx_signature = some tx }))
    unfolding mark_payment_refunded get_refund append_audit mark_refund_failed
    finish-conflict gone =
        rw (finish-marked, gone)
          (
            refl,
            find-map w.refund_id (λ x. record x { status = refund_failed }) marked.refunds
                (λ x. refl) marked-row,
          )

    -- The transfer was signed and the payment is still completed: the refund ends as completed, with
    -- the signature, and it is what the caller gets.
    pub finish-completed :
        (mark_payment_refunded w.payment.id d).0 ≡ true
        → ((finish w (signed tx) d).0
            ≡ ok (
              record r { status = refund_completed; tx_signature = some tx },
              or_payment w.payment
                  (find_payment_by_id w.payment.id (mark_payment_refunded w.payment.id d).1),
            ))
          × (get_refund w.refund_id (finish w (signed tx) d).1
              ≡ some (record r { status = refund_completed; tx_signature = some tx }))
    unfolding mark_payment_refunded get_refund append_audit find_payment_by_id
    finish-completed there = rw (finish-marked, there, marked-row) (refl, marked-row)
