-- ===== src/Api/Subscriptions/Rows.antt =====
-- packages/api/src/services/subscription_charger.ts: what a charge does to the schedule of a
-- subscription, and how often it stands in the journal as charged.
use zettapay.Prelude.{
  ℕ, suc, ◌≡◌, refl, ◌∙◌, Bool, true, false, ◌&&◌, Option, none, some, List, [], ◌∷◌, ◌++◌, Text,
  ◌===◌, text_eq_iff, is_some, find, map, if◌then◌else◌, arith, Bool-cases, inl, inr,
}
use zettapay.Prelude.Dict.{map_found}
use zettapay.Api.Subscriptions.{
  Subscription, SubscriptionInterval, SubscriptionAuthErrorCode, SubscriptionAuthorization,
  Merchant, Payments, Db, find_subscription, update_row, failed_row, record_subscription_failure,
  append_audit, AuditEvent, AuditEntry, subscription_charged, subscription_charge_failed,
  FailureReason, Signing, fail_charge, after_insert, check_merchant, check_auth, check_present,
  begin_one,
}

abbrev pub is_charge_event : AuditEvent → Bool
is_charge_event subscription_charged = true
is_charge_event subscription_charge_failed = false

-- How often the journal has the subscription as charged.
abbrev pub charges : Text → List AuditEntry → ℕ
charges id [] = 0
charges id (e ∷ audit) =
    if is_charge_event e.event && (e.entity_id === id)
    then suc (charges id audit)
    else charges id audit

pub charges-append :
    (id : Text) (audit : List AuditEntry) (e : AuditEntry)
    → charges id (audit ++ e ∷ []) ≡ (
        if is_charge_event e.event && (e.entity_id === id)
        then suc (charges id audit)
        else charges id audit)
charges-append id [] e = refl
charges-append id (x ∷ audit) e = ground (arith, charges-append id audit e)

abbrev pub Schedule : Type 0
Schedule = SubscriptionInterval × ℕ

abbrev pub rescheduled : ℕ → Schedule → Schedule
rescheduled next v = (v.0, next)

abbrev pub failure_entry : Text → AuditEntry
failure_entry id = record { event = subscription_charge_failed; entity_id = id }

abbrev pub charge_entry : Text → AuditEntry
charge_entry id = record { event = subscription_charged; entity_id = id }

module _ {Amount : Type 0} where
  -- The schedule of a row.
  abbrev pub schedule_of : Option (Subscription Amount) → Option Schedule
  schedule_of none = none
  schedule_of (some s) = some (s.interval, s.next_charge_at)

  abbrev pub count_id : Text → List (Subscription Amount) → ℕ
  count_id id [] = 0
  count_id id (s ∷ subs) = if s.id === id then suc (count_id id subs) else count_id id subs

  module _ (id j : Text) (f : Subscription Amount → Subscription Amount)
      (same_id : (s : Subscription Amount) → (f s).id ≡ s.id) where
    abbrev updated : List (Subscription Amount) → List (Subscription Amount)
    updated subs = map (λ s. if s.id === j then f s else s) subs

    pub find-updated :
        (subs : List (Subscription Amount))
        → find (λ s. s.id === id) (updated subs) ≡ (
            if j === id
            then map_found f (find (λ s. s.id === id) subs)
            else find (λ s. s.id === id) subs)
    find-updated [] = ground arith
    find-updated (s ∷ subs) =
        let same = same_id s in
        ground (
          arith,
          text_eq_iff s.id id,
          text_eq_iff s.id j,
          text_eq_iff j id,
          text_eq_iff (f s).id id,
          find-updated subs,
        )

    pub count_id-updated :
        (subs : List (Subscription Amount)) → count_id id (updated subs) ≡ count_id id subs
    count_id-updated [] = refl
    count_id-updated (s ∷ subs) =
        let same = same_id s in
        ground (arith, text_eq_iff s.id id, text_eq_iff (f s).id id, count_id-updated subs)

module _ {Amount : Type 0} where
  pub schedule_of-map_found :
      (f : Subscription Amount → Subscription Amount) (o : Option (Subscription Amount))
      → ((s : Subscription Amount) → schedule_of (some (f s)) ≡ schedule_of (some s))
      → schedule_of (map_found f o) ≡ schedule_of o
  schedule_of-map_found f none h = refl
  schedule_of-map_found f (some s) h = h s

module _ {Amount : Type 0} {p : Payments Amount} where
  -- What the charger keeps about an id: its schedule, its charges, and how many rows have it.
  abbrev pub schedule : Text → Db p → Option Schedule
  schedule id d = schedule_of (find_subscription id d)

  pub record Same (id : Text) (d d' : Db p) : Type 0 where
    pub same_schedule : schedule id d' ≡ schedule id d
    pub same_charges : charges id d'.audit ≡ charges id d.audit
    pub same_count : count_id id d'.subscriptions ≡ count_id id d.subscriptions

  -- An update that leaves the schedule alone, with an entry of the journal that is no charge.
  noted-Same :
      (id j : Text) (f : Subscription Amount → Subscription Amount) (d : Db p)
      → ((s : Subscription Amount) → (f s).id ≡ s.id)
      → ((s : Subscription Amount) → schedule_of (some (f s)) ≡ schedule_of (some s))
      → Same id d (append_audit (failure_entry j) (update_row j f d))
  unfolding append_audit find_subscription
  noted-Same id j f d same_id same_view = record {
    same_schedule = rw (find-updated id j f same_id d.subscriptions) (elim (Bool-cases (j === id)) [
      | inl mine ↦ rw mine (schedule_of-map_found f _ same_view)
      | inr other ↦ rw other refl
    ]);
    same_charges = charges-append id d.audit (failure_entry j);
    same_count = count_id-updated id j f same_id d.subscriptions;
  }

  abbrev pub stays_Same : (id : Text) (d : Db p) → Same id d d
  stays_Same id d = record { same_schedule = refl; same_charges = refl; same_count = refl }

  pub Same-trans : (id : Text) (d e f : Db p) → Same id d e → Same id e f → Same id d f
  Same-trans id d e f h k = record {
    same_schedule = k.same_schedule ∙ h.same_schedule;
    same_charges = k.same_charges ∙ h.same_charges;
    same_count = k.same_count ∙ h.same_count;
  }

  pub with_payments-Same :
      (id : Text) (d : Db p) (table : p.Table) → Same id d (record d { payments = table })
  unfolding find_subscription
  with_payments-Same id d table = record {
    same_schedule = refl;
    same_charges = refl;
    same_count = refl;
  }

  module _ (signing : Signing Amount) (advance : SubscriptionInterval → ℕ → ℕ) (pause_after : ℕ)
      (id : Text) where
    pub fail_charge-Same :
        (s : Subscription Amount) (reason : FailureReason) (d : Db p)
        → Same id d (fail_charge p signing advance pause_after s reason d).1
    unfolding fail_charge record_subscription_failure
    fail_charge-Same s reason d = elim (Bool-cases (is_some (find_subscription s.id d))) [
      | inl there ↦
          rw there (noted-Same id s.id (failed_row reason pause_after) d (λ t. refl) (λ t. refl))
      | inr gone ↦ rw gone (stays_Same id d)
    ]

    after_insert-Same :
        (payment_id : Text) (s : Subscription Amount) (d : Db p) (o : Option p.Table)
        → Same id d (after_insert p signing advance pause_after payment_id s d o).1
    after_insert-Same payment_id s d none = stays_Same id d
    after_insert-Same payment_id s d (some table) = with_payments-Same id d _

    check_merchant-Same :
        (payment_id : Text) (s : Subscription Amount) (d : Db p) (o : Option Merchant)
        → Same id d (check_merchant p signing advance pause_after payment_id s d o).1
    check_merchant-Same payment_id s d none = fail_charge-Same s _ d
    check_merchant-Same payment_id s d (some m) = after_insert-Same payment_id s d _

    check_auth-Same :
        (payment_id : Text) (s : Subscription Amount) (d : Db p)
        (o : Option SubscriptionAuthErrorCode)
        → Same id d (check_auth p signing advance pause_after payment_id s d o).1
    check_auth-Same payment_id s d (some code) = fail_charge-Same s _ d
    check_auth-Same payment_id s d none = check_merchant-Same payment_id s d _

    check_present-Same :
        (payment_id : Text) (s : Subscription Amount) (d : Db p)
        (o : Option SubscriptionAuthorization)
        → Same id d (check_present p signing advance pause_after payment_id s d o).1
    check_present-Same payment_id s d none = fail_charge-Same s _ d
    check_present-Same payment_id s d (some a) = check_auth-Same payment_id s d _

    -- Up to the transfer no schedule changes and nothing is charged.
    pub begin_one-Same :
        (payment_id : Text) (s : Subscription Amount) (d : Db p)
        → Same id d (begin_one p signing advance pause_after payment_id s d).1
    unfolding begin_one
    begin_one-Same payment_id s d = check_present-Same payment_id s d _
