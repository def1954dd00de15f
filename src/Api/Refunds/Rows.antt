-- ===== src/Api/Refunds/Rows.antt =====
-- packages/api/src/db/refunds.ts: which payments have a refund, before and after each write.
use zettapay.Prelude.{
  ℕ, ◌≤◌, ◌≡◌, refl, Bool, true, false, ◌||◌, Option, none, some, List, [], ◌∷◌, ◌++◌, Text, ◌===◌,
  is_some, find, map, if◌then◌else◌, arith, ap, sym, ◌∙◌, subst,
}
use zettapay.Api.Errors.{Thrown, other, conflict}
use zettapay.Api.Refunds.{
  Db, Refund, Waiting, finish, Transfer, signed, refused, find_refund_by_payment_id, insert_refund,
  update_refund, mark_refund_processing, mark_refund_completed, mark_refund_failed,
  mark_payment_refunded, append_audit, caught, returned, after_payment, after_completed,
}

-- A test that gives nothing when it holds.
pub unless :
    {A : Type 0} {x y : A} (b : Bool)
    → (if b then none else some x) ≡ some y
    → (b ≡ false) × (x ≡ y)
unless true e = cc
unless false e = (refl, cc)

or_false-right : (b : Bool) {c : Bool} → (b || c) ≡ false → c ≡ false
or_false-right true e = cc
or_false-right false e = e

absent : {A : Type 0} (o : Option A) → is_some o ≡ false → o ≡ none
absent none e = refl
absent (some a) e = cc

module _ {Amount : Type 0} where
  -- One if the payment has a refund, whatever its status.
  abbrev pub row_count : Text → List (Refund Amount) → ℕ
  row_count p [] = 0
  row_count p (r ∷ rows) = if r.payment_id === p then 1 else row_count p rows

  pub row_count-le : (p : Text) (rows : List (Refund Amount)) → row_count p rows ≤ 1
  row_count-le p [] = omega arith
  row_count-le p (r ∷ rows) = ground (arith, row_count-le p rows)

  row_count-map :
      (p : Text) (f : Refund Amount → Refund Amount) (rows : List (Refund Amount))
      → ((r : Refund Amount) → Refund.payment_id (f r) ≡ r.payment_id)
      → row_count p (map f rows) ≡ row_count p rows
  row_count-map p f [] h = refl
  row_count-map p f (r ∷ rows) h = rw (h r, row_count-map p f rows h) refl

  row_count-append :
      (p : Text) (r : Refund Amount) (rows : List (Refund Amount))
      → row_count p (rows ++ r ∷ []) ≡ (if r.payment_id === p then 1 else row_count p rows)
  row_count-append p r [] = refl
  row_count-append p r (x ∷ rows) = ground (arith, row_count-append p r rows)

  find-row_count :
      (p : Text) (rows : List (Refund Amount))
      → find (λ r. r.payment_id === p) rows ≡ none
      → row_count p rows ≡ 0
  find-row_count p [] h = refl
  find-row_count p (r ∷ rows) h = ground (arith, find-row_count p rows)

  -- An UPDATE by id keeps what every payment has.
  update_refund-row_count :
      (p id : Text) (f : Refund Amount → Refund Amount) (d : Db Amount)
      → ((r : Refund Amount) → Refund.payment_id (f r) ≡ r.payment_id)
      → row_count p (update_refund id f d).refunds ≡ row_count p d.refunds
  update_refund-row_count p id f d h = row_count-map p _ d.refunds (λ r. kept r (r.id === id))
    where
      kept :
          (r : Refund Amount) (b : Bool) → Refund.payment_id (if b then f r else r) ≡ r.payment_id
      kept r true = h r
      kept r false = refl

  completed-row_count :
      (p id tx : Text) (d d' : Db Amount)
      → mark_refund_completed id tx d ≡ some d'
      → row_count p d'.refunds ≡ row_count p d.refunds
  unfolding mark_refund_completed
  completed-row_count p id tx d d' e =
      subst (λ x. row_count p (Db.refunds x) ≡ row_count p d.refunds) (unless _ e).1
        (update_refund-row_count p id _ d (λ r. refl))

  caught-row_count :
      (p : Text) (w : Waiting Amount) (thrown : Thrown) (d : Db Amount)
      → row_count p (caught w thrown d).1.refunds ≡ row_count p d.refunds
  unfolding append_audit mark_refund_failed
  caught-row_count p w thrown d = update_refund-row_count p w.refund_id _ d (λ r. refl)

  returned-row_count :
      (p : Text) (w : Waiting Amount) (d : Db Amount) (o : Option (Refund Amount))
      → row_count p (returned w d o).1.refunds ≡ row_count p d.refunds
  returned-row_count p w d none = caught-row_count p w other d
  returned-row_count p w d (some r) = refl

  after_payment-row_count :
      (p : Text) (w : Waiting Amount) (b : Bool) (d : Db Amount)
      → row_count p (after_payment w (b, d)).1.refunds ≡ row_count p d.refunds
  unfolding append_audit
  after_payment-row_count p w false d = caught-row_count p w conflict d
  after_payment-row_count p w true d = returned-row_count p w _ _

  after_completed-row_count :
      (p : Text) (w : Waiting Amount) (d : Db Amount) (tx : Text) (o : Option (Db Amount))
      → mark_refund_completed w.refund_id tx d ≡ o
      → row_count p (after_completed w d o).1.refunds ≡ row_count p d.refunds
  unfolding mark_payment_refunded
  after_completed-row_count p w d tx none e = caught-row_count p w other d
  after_completed-row_count p w d tx (some d') e =
      after_payment-row_count p w _ _ ∙ completed-row_count p w.refund_id tx d d' e

  pub finish-row_count :
      (p : Text) (w : Waiting Amount) (outcome : Transfer) (d : Db Amount)
      → row_count p (finish w outcome d).1.refunds ≡ row_count p d.refunds
  unfolding finish
  finish-row_count p w (refused thrown) d = caught-row_count p w thrown d
  finish-row_count p w (signed tx) d = after_completed-row_count p w d tx _ refl

  -- The row that a transfer leaves behind, and that there was none.
  pub inserted-row_count :
      (p id : Text) (r : Refund Amount) (d d' : Db Amount)
      → insert_refund r d ≡ some d'
      → (row_count r.payment_id d.refunds ≡ 0)
        × (row_count p (mark_refund_processing id d').refunds
            ≡ (if r.payment_id === p then 1 else row_count p d.refunds))
  unfolding insert_refund mark_refund_processing find_refund_by_payment_id
  inserted-row_count p id r d d' e =
      let (free, same) = unless _ e in
      (
        find-row_count r.payment_id d.refunds (absent _ (or_false-right _ free)),
        update_refund-row_count p id _ d' (λ r. refl)
            ∙ ap (λ x. row_count p (Db.refunds x)) (sym same)
            ∙ row_count-append p r d.refunds,
      )
