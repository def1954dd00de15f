-- ===== src/Api/Subscriptions/Overlap.antt =====
-- packages/api/src/services/subscription_charger.ts: two ticks that overlap, of two workers or of one
-- that does not wait for its last.
use zettapay.Prelude.{ℕ, suc, ◌+◌, ◌≡◌, ap, subst, ◌∙◌, some, Text, text_eq_refl, arith, take, keep}
use zettapay.Prelude.Dict.{map_found}
use zettapay.Api.Subscriptions.Rows.{
  charges, Same, rescheduled, schedule, schedule_of, begin_one-Same,
}
use zettapay.Api.Subscriptions.Effects.{Effect, IsFrom, begin_one-IsFrom, finish_one-Effect}
use zettapay.Api.Subscriptions.{
  Subscription, SubscriptionInterval, Payments, Db, Signing, Waiting, charged, transferring, signed,
  begin_one, finish_one, list_due_subscriptions, find_subscription, is_due, sorted,
}

module _ {Amount : Type 0} (p : Payments Amount) (signing : Signing Amount)
    (advance : SubscriptionInterval → ℕ → ℕ) (pause_after : ℕ) where
  -- A charge that comes to its end, of the row that it read.
  finished :
      (s : Subscription Amount) (now : ℕ) (w : Waiting Amount) (tx : Text) (d d' : Db p)
      → w.subscription ≡ s
      → finish_one p signing advance pause_after now w (signed tx) d ≡ (charged, d')
      → (schedule s.id d'
          ≡ map_found (rescheduled (advance s.interval s.next_charge_at)) (schedule s.id d))
        × (charges s.id d'.audit ≡ suc (charges s.id d.audit))
  finished s now w tx d d' from h =
      let e : Effect p signing advance pause_after s.id s charged d d' =
        subst (λ r. Effect p signing advance pause_after s.id r charged d d') from
          (subst
            (λ r.
              let (o, after) = r in
              Effect p signing advance pause_after s.id w.subscription o d after)
            h (finish_one-Effect p signing advance pause_after s.id now w (signed tx) d)) in
      let own = text_eq_refl s.id in (rw own at e.schedule_effect, rw own at e.charges_effect)

  begun :
      (s : Subscription Amount) (payment_id : Text) (w : Waiting Amount) (d d' : Db p)
      → begin_one p signing advance pause_after payment_id s d ≡ (transferring w, d')
      → (w.subscription ≡ s) × (d'.subscriptions ≡ d.subscriptions) × Same s.id d d'
  begun s payment_id w d d' h =
      let from : IsFrom p signing advance pause_after s.id s d (transferring w, d') =
        subst (IsFrom p signing advance pause_after s.id s d) h
          (begin_one-IsFrom p signing advance pause_after s.id payment_id s d) in
      (
        from.0,
        from.1,
        subst (λ r. Same s.id d r.1) h
            (begin_one-Same signing advance pause_after s.id payment_id s d),
      )

  -- Where a tick has read a row and waits for the transfer of its charge, a tick of a second worker
  -- reads the same due rows. When the second also asks for a transfer for the row, and both
  -- charges come to an end, the journal has the subscription as charged twice more, and its next
  -- charge is one cycle after the one it was due for.
  pub overlapping_ticks_charge_twice :
      (s : Subscription Amount) (d d1 d2 d3 d4 : Db p) (now later batch_size : ℕ)
      (payment_id payment_id' tx tx' : Text) (w w' : Waiting Amount)
      → find_subscription s.id d ≡ some s
      → begin_one p signing advance pause_after payment_id s d ≡ (transferring w, d1)
      → begin_one p signing advance pause_after payment_id' s d1 ≡ (transferring w', d2)
      → finish_one p signing advance pause_after now w (signed tx) d2 ≡ (charged, d3)
      → finish_one p signing advance pause_after later w' (signed tx') d3 ≡ (charged, d4)
      → (list_due_subscriptions now batch_size d1 ≡ list_due_subscriptions now batch_size d)
        × (charges s.id d4.audit ≡ 2 + charges s.id d.audit)
        × (schedule s.id d4 ≡ some (s.interval, advance s.interval s.next_charge_at))
  unfolding list_due_subscriptions
  overlapping_ticks_charge_twice s d d1 d2 d3 d4 now later batch_size payment_id payment_id' tx tx'
        w w' there b1 b2 f1 f2 =
      let (from, rows, same) = begun s payment_id w d d1 b1 in
      let (from', rows', same') = begun s payment_id' w' d1 d2 b2 in
      let (moved, more) = finished s now w tx d2 d3 from f1 in
      let (moved', more') = finished s later w' tx' d3 d4 from' f2 in
      let kept : schedule s.id d2 ≡ some (s.interval, s.next_charge_at) =
        same'.same_schedule ∙ same.same_schedule ∙ ap schedule_of there in
      let before : charges s.id d2.audit ≡ charges s.id d.audit =
        same'.same_charges ∙ same.same_charges in
      let next = rescheduled (advance s.interval s.next_charge_at) in
      (
        ap (λ subs. take batch_size (sorted (keep (is_due now) subs))) rows,
        omega (arith, before, more, more'),
        moved' ∙ ap (map_found next) (moved ∙ ap (map_found next) kept),
      )
