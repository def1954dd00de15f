-- ===== src/Api/Subscriptions.antt =====
-- packages/api/src/services/subscription_charger.ts: `chargeDueSubscriptions`. A charge is two steps,
-- around the wait for the transfer: `begin_one` and `finish_one`. Calendar arithmetic, identifiers
-- and what a transfer comes to are parameters; spans, log lines and payloads are left out.
pub mod Tables
pub mod Auth
pub mod Rows
pub mod Effects
pub mod Snapshot
pub mod Cycles
pub mod Overlap
mod Tests
unfoldable pub use Tables.*
pub use Auth.{Signing}
unfoldable pub use Auth.{verify_subscription_authorization}
use zettapay.Prelude.{ℕ, Option, none, some, List, [], ◌∷◌, Text}

-- A charge that waits for its transfer.
pub record Waiting (Amount : Type 0) : Type 0 where
  pub subscription : Subscription Amount
  pub payment_id : Text

-- `thrown` ends the tick; the outcome `skipped` of the source is returned nowhere and left out.
pub data Outcome : Type 0 where
  charged : Outcome
  failed : FailureReason → Outcome
  thrown : Outcome

pub data Begun (Amount : Type 0) : Type 0 where
  ended : Outcome → Begun Amount
  transferring : Waiting Amount → Begun Amount

-- What `transferToken`, or the reading of the merchant's address, comes to.
pub data Transfer : Type 0 where
  signed : Text → Transfer
  refused : Transfer

module _ {Amount : Type 0} (p : Payments Amount) (signing : Signing Amount)
    (advance_charge_date : SubscriptionInterval → ℕ → ℕ) (pause_after : ℕ) where
  abbrev pub after_failure : Text → FailureReason → Db p → Option (Db p) → Outcome × Db p
  after_failure id reason d none = (thrown, d)
  after_failure id reason d (some d') = (
    failed reason,
    append_audit (record { event = subscription_charge_failed; entity_id = id }) d',
  )

  unfoldable pub fail_charge : Subscription Amount → FailureReason → Db p → Outcome × Db p
  fail_charge s reason d =
      after_failure s.id reason d (record_subscription_failure s.id reason pause_after d)

  abbrev pub fail_begin : Subscription Amount → FailureReason → Db p → Begun Amount × Db p
  fail_begin s reason d = let (outcome, d') = fail_charge s reason d in (ended outcome, d')

  abbrev pub after_insert : Text → Subscription Amount → Db p → Option p.Table → Begun Amount × Db p
  after_insert payment_id s d none = (ended thrown, d)
  after_insert payment_id s d (some table) = (
    transferring (record { subscription = s; payment_id = payment_id }),
    record d { payments = p.mark_payment_processing payment_id table },
  )

  abbrev pub check_merchant :
      Text → Subscription Amount → Db p → Option Merchant → Begun Amount × Db p
  check_merchant payment_id s d none = fail_begin s merchant_not_found d
  check_merchant payment_id s d (some merchant) =
      after_insert payment_id s d (p.insert_payment payment_id s d.payments)

  abbrev pub check_auth :
      Text → Subscription Amount → Db p → Option SubscriptionAuthErrorCode → Begun Amount × Db p
  check_auth payment_id s d (some code) = fail_begin s (auth code) d
  check_auth payment_id s d none =
      check_merchant payment_id s d (find_merchant_by_id s.merchant_id d)

  abbrev pub check_present :
      Text → Subscription Amount → Db p → Option SubscriptionAuthorization → Begun Amount × Db p
  check_present payment_id s d none = fail_begin s missing_authorization d
  check_present payment_id s d (some a) =
      check_auth payment_id s d (verify_subscription_authorization signing s a)

  -- `chargeOne` up to the transfer; `s` is the row as the tick read it.
  unfoldable pub begin_one : Text → Subscription Amount → Db p → Begun Amount × Db p
  begin_one payment_id s d = check_present payment_id s d s.authorization

  -- The catch block.
  abbrev pub caught : Waiting Amount → Db p → Outcome × Db p
  caught w d =
      fail_charge w.subscription transfer_failed
        (record d { payments = p.mark_payment_failed w.payment_id d.payments })

  abbrev pub after_charge : Waiting Amount → Db p → Option (Db p) → Outcome × Db p
  after_charge w d none = caught w d
  after_charge w d (some d') = (
    charged,
    append_audit (record { event = subscription_charged; entity_id = w.subscription.id }) d',
  )

  abbrev pub after_completed : ℕ → Waiting Amount → Db p → Option p.Table → Outcome × Db p
  after_completed now w d none = caught w d
  after_completed now w d (some table) =
      let s = w.subscription in
      let d' : Db p = record d { payments = table } in
      after_charge w d'
        (record_subscription_charge s.id now (advance_charge_date s.interval s.next_charge_at) d')

  -- `chargeOne` from the transfer on.
  unfoldable pub finish_one : ℕ → Waiting Amount → Transfer → Db p → Outcome × Db p
  finish_one now w refused d = caught w d
  finish_one now w (signed tx) d =
      after_completed now w d (p.mark_payment_completed w.payment_id tx d.payments)

  -- The identifier of the payment and the transfer that a charge meets, by its subscription.
  abbrev pub World : Type 0
  World = Text → Text × Transfer

  abbrev pub after_begin : ℕ → Transfer → Begun Amount × Db p → Outcome × Db p
  after_begin now transfer (ended outcome, d) = (outcome, d)
  after_begin now transfer (transferring w, d) = finish_one now w transfer d

  unfoldable pub charge_one : World → ℕ → Subscription Amount → Db p → Outcome × Db p
  charge_one world now s d =
      let (payment_id, transfer) = world s.id in after_begin now transfer (begin_one payment_id s d)

  abbrev pub after_outcome : Outcome → Db p → Db p → Db p
  after_outcome thrown d rest = d
  after_outcome charged d rest = rest
  after_outcome (failed reason) d rest = rest

  -- The loop over the rows that the tick read; an error ends it.
  unfoldable pub charge_all : World → ℕ → List (Subscription Amount) → Db p → Db p
  charge_all world now [] d = d
  charge_all world now (s ∷ subs) d =
      let (outcome, d') = charge_one world now s d in
      let rest = charge_all world now subs d' in after_outcome outcome d' rest

  unfoldable pub charge_due_subscriptions : World → ℕ → ℕ → Db p → Db p
  charge_due_subscriptions world now batch_size d =
      charge_all world now (list_due_subscriptions now batch_size d) d
