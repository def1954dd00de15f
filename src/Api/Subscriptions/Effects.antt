-- ===== src/Api/Subscriptions/Effects.antt =====
-- packages/api/src/services/subscription_charger.ts: what one charge does to the schedules and to the
-- journal, for whatever its transfer comes to.
use zettapay.Prelude.{
  ℕ, suc, ◌≡◌, refl, ap, subst, ◌∙◌, Bool, true, false, ◌&&◌, Option, none, some, Text, ◌===◌,
  is_some, if◌then◌else◌, Bool-cases, inl, inr,
}
use zettapay.Prelude.Dict.{map_found}
use zettapay.Api.Subscriptions.Rows.{
  charges, charges-append, charge_entry, rescheduled, schedule, schedule_of, count_id,
  count_id-updated, find-updated, Same, Same-trans, with_payments-Same, fail_charge-Same,
  begin_one-Same,
}
use zettapay.Api.Subscriptions.{
  Subscription, SubscriptionInterval, Payments, Db, Signing, FailureReason, transfer_failed,
  Waiting, Outcome, charged, failed, thrown, Begun, ended, transferring, Transfer, signed, refused,
  fail_charge, caught, after_completed, finish_one, charge_one, after_begin, begin_one, fail_begin,
  after_insert, check_merchant, check_auth, check_present, Merchant, SubscriptionAuthorization,
  SubscriptionAuthErrorCode, World, charged_row, update_row, find_subscription,
  record_subscription_charge, record_subscription_failure, append_audit,
}

abbrev pub is_charged : Outcome → Bool
is_charged charged = true
is_charged (failed reason) = false
is_charged thrown = false

module _ {Amount : Type 0} (p : Payments Amount) (signing : Signing Amount)
    (advance : SubscriptionInterval → ℕ → ℕ) (pause_after : ℕ) (id : Text) where
  -- A charge of the id moves its schedule from the row that the tick read, and is noted once; all
  -- else leaves schedule and charges alone.
  pub record Effect (s : Subscription Amount) (o : Outcome) (d d' : Db p) : Type 0 where
    pub schedule_effect : schedule id d' ≡ (
        if is_charged o && (s.id === id)
        then map_found (rescheduled (advance s.interval s.next_charge_at)) (schedule id d)
        else schedule id d)
    pub charges_effect :
        charges id d'.audit
        ≡ (if is_charged o && (s.id === id) then suc (charges id d.audit) else charges id d.audit)
    pub count_effect : count_id id d'.subscriptions ≡ count_id id d.subscriptions

  Same-Effect :
      (s : Subscription Amount) (o : Outcome) (d d' : Db p)
      → is_charged o ≡ false
      → Same id d d'
      → Effect s o d d'
  Same-Effect s o d d' h same = record {
    schedule_effect = rw h same.same_schedule;
    charges_effect = rw h same.same_charges;
    count_effect = same.same_count;
  }

  fail_charge-not_charged :
      (s : Subscription Amount) (reason : FailureReason) (d : Db p)
      → is_charged (fail_charge p signing advance pause_after s reason d).0 ≡ false
  unfolding fail_charge record_subscription_failure
  fail_charge-not_charged s reason d = elim (Bool-cases (is_some (find_subscription s.id d))) [
    | inl there ↦ rw there refl
    | inr gone ↦ rw gone refl
  ]

  caught-Effect :
      (w : Waiting Amount) (d : Db p)
      → let (o, d') = caught p signing advance pause_after w d in Effect w.subscription o d d'
  caught-Effect w d =
      let d' : Db p = record d { payments = p.mark_payment_failed w.payment_id d.payments } in
      Same-Effect w.subscription _ d _ (fail_charge-not_charged w.subscription transfer_failed d') (
        Same-trans id d d' _ (with_payments-Same id d _)
          (fail_charge-Same signing advance pause_after id w.subscription transfer_failed d'))

  schedule_of-charged_row :
      (now next : ℕ) (o : Option (Subscription Amount))
      → schedule_of (map_found (charged_row now next) o)
        ≡ map_found (rescheduled next) (schedule_of o)
  schedule_of-charged_row now next none = refl
  schedule_of-charged_row now next (some s) = refl

  charged-Effect :
      (s : Subscription Amount) (now : ℕ) (d : Db p)
      → Effect s charged d (
          append_audit
            (charge_entry s.id)
            (update_row s.id (charged_row now (advance s.interval s.next_charge_at)) d))
  unfolding append_audit find_subscription
  charged-Effect s now d =
      let next = advance s.interval s.next_charge_at in
      record {
        schedule_effect =
            rw (find-updated id s.id (charged_row now next) (λ t. refl) d.subscriptions)
              (elim (Bool-cases (s.id === id)) [
                | inl mine ↦ rw mine (schedule_of-charged_row now next _)
                | inr other ↦ rw other refl
              ]);
        charges_effect = charges-append id d.audit (charge_entry s.id);
        count_effect = count_id-updated id s.id (charged_row now next) (λ t. refl) d.subscriptions;
      }

  -- The payments do not matter.
  with_payments-Effect :
      (s : Subscription Amount) (o : Outcome) (d d' : Db p) (table : p.Table)
      → Effect s o (record d { payments = table }) d'
      → Effect s o d d'
  unfolding find_subscription
  with_payments-Effect s o d d' table e = record {
    schedule_effect = e.schedule_effect;
    charges_effect = e.charges_effect;
    count_effect = e.count_effect;
  }

  after_completed-Effect :
      (now : ℕ) (w : Waiting Amount) (d : Db p) (o : Option p.Table)
      → let (out, d') = after_completed p signing advance pause_after now w d o in
        Effect w.subscription out d d'
  unfolding record_subscription_charge
  after_completed-Effect now w d none = caught-Effect w d
  after_completed-Effect now w d (some table) =
      let d' : Db p = record d { payments = table } in
      with_payments-Effect w.subscription _ d _ table
        (elim (Bool-cases (is_some (find_subscription w.subscription.id d'))) [
          | inl there ↦ rw there (charged-Effect w.subscription now d')
          | inr gone ↦ rw gone (caught-Effect w d')
        ])

  pub finish_one-Effect :
      (now : ℕ) (w : Waiting Amount) (t : Transfer) (d : Db p)
      → let (out, d') = finish_one p signing advance pause_after now w t d in
        Effect w.subscription out d d'
  unfolding finish_one
  finish_one-Effect now w refused d = caught-Effect w d
  finish_one-Effect now w (signed tx) d = after_completed-Effect now w d _

  -- What the first step ends with is no charge; where it waits, it waits with the row it was given
  -- and has written to none.
  abbrev pub IsFrom : Subscription Amount → Db p → Begun Amount × Db p → Type 0
  IsFrom s d (ended o, d') = is_charged o ≡ false
  IsFrom s d (transferring w, d') = (w.subscription ≡ s) × (d'.subscriptions ≡ d.subscriptions)

  fail_begin-IsFrom :
      (s : Subscription Amount) (reason : FailureReason) (d : Db p)
      → IsFrom s d (fail_begin p signing advance pause_after s reason d)
  fail_begin-IsFrom s reason d = fail_charge-not_charged s reason d

  after_insert-IsFrom :
      (payment_id : Text) (s : Subscription Amount) (d : Db p) (o : Option p.Table)
      → IsFrom s d (after_insert p signing advance pause_after payment_id s d o)
  after_insert-IsFrom payment_id s d none = refl
  after_insert-IsFrom payment_id s d (some table) = (refl, refl)

  check_merchant-IsFrom :
      (payment_id : Text) (s : Subscription Amount) (d : Db p) (o : Option Merchant)
      → IsFrom s d (check_merchant p signing advance pause_after payment_id s d o)
  check_merchant-IsFrom payment_id s d none = fail_begin-IsFrom s _ d
  check_merchant-IsFrom payment_id s d (some m) = after_insert-IsFrom payment_id s d _

  check_auth-IsFrom :
      (payment_id : Text) (s : Subscription Amount) (d : Db p)
      (o : Option SubscriptionAuthErrorCode)
      → IsFrom s d (check_auth p signing advance pause_after payment_id s d o)
  check_auth-IsFrom payment_id s d (some code) = fail_begin-IsFrom s _ d
  check_auth-IsFrom payment_id s d none = check_merchant-IsFrom payment_id s d _

  check_present-IsFrom :
      (payment_id : Text) (s : Subscription Amount) (d : Db p)
      (o : Option SubscriptionAuthorization)
      → IsFrom s d (check_present p signing advance pause_after payment_id s d o)
  check_present-IsFrom payment_id s d none = fail_begin-IsFrom s _ d
  check_present-IsFrom payment_id s d (some a) = check_auth-IsFrom payment_id s d _

  pub begin_one-IsFrom :
      (payment_id : Text) (s : Subscription Amount) (d : Db p)
      → IsFrom s d (begin_one p signing advance pause_after payment_id s d)
  unfolding begin_one
  begin_one-IsFrom payment_id s d = check_present-IsFrom payment_id s d _

  from_Same :
      (s : Subscription Amount) (o : Outcome) (d d1 d' : Db p)
      → Same id d d1
      → Effect s o d1 d'
      → Effect s o d d'
  from_Same s o d d1 d' h e = record {
    schedule_effect =
        e.schedule_effect
        ∙ ap
            (λ v.
              if is_charged o && (s.id === id)
              then map_found (rescheduled (advance s.interval s.next_charge_at)) v
              else v)
            h.same_schedule;
    charges_effect =
        e.charges_effect
        ∙ ap (λ n. if is_charged o && (s.id === id) then suc n else n) h.same_charges;
    count_effect = e.count_effect ∙ h.same_count;
  }

  after_begin-Effect :
      (now : ℕ) (t : Transfer) (s : Subscription Amount) (b : Begun Amount) (d d1 : Db p)
      → IsFrom s d (b, d1)
      → Same id d d1
      → let (out, d') = after_begin p signing advance pause_after now t (b, d1) in Effect s out d d'
  after_begin-Effect now t s (ended o) d d1 from h = Same-Effect s o d d1 from h
  after_begin-Effect now t s (transferring w) d d1 from h = from_Same s _ d d1 _ h (
      subst
        (λ r.
          let (out, d') = finish_one p signing advance pause_after now w t d1 in Effect r out d1 d')
        from.0 (finish_one-Effect now w t d1))

  pub charge_one-Effect :
      (world : World p signing advance pause_after) (now : ℕ) (s : Subscription Amount) (d : Db p)
      → let (out, d') = charge_one p signing advance pause_after world now s d in Effect s out d d'
  unfolding charge_one
  charge_one-Effect world now s d =
      let payment_id = (world s.id).0 in
      after_begin-Effect now (world s.id).1 s _ d _ (begin_one-IsFrom payment_id s d)
        (begin_one-Same signing advance pause_after id payment_id s d)
