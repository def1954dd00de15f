-- ===== src/Api/Subscriptions/Tables.antt =====
-- packages/api/src/db/subscriptions.ts: the rows of the subscriptions, and what the charger reads and
-- writes beside them. Times are milliseconds; the columns hold them as ISO strings. Amounts are
-- numbers of JavaScript, and the payments are a table that is a parameter: db/payments.ts, whose
-- insertPayment does not parse.
use zettapay.Prelude.{
  ℕ, ◌+◌, Bool, true, false, ◌&&◌, Option, none, some, List, [], ◌∷◌, ◌++◌, Text, ◌===◌, is_some,
  find, keep, take, map, leb, if◌then◌else◌,
}

pub data SubscriptionStatus : Type 0 where
  active paused canceled : SubscriptionStatus

pub data SubscriptionInterval : Type 0 where
  daily weekly monthly : SubscriptionInterval

abbrev pub is_active : SubscriptionStatus → Bool
is_active active = true
is_active paused = false
is_active canceled = false

pub record SubscriptionAuthorization : Type 0 where
  pub signature : Text
  pub public_key : Text

pub data SubscriptionAuthErrorCode : Type 0 where
  missing_authorization invalid_public_key invalid_signature wallet_mismatch binding_mismatch :
      SubscriptionAuthErrorCode

-- Why a charge failed.
pub data FailureReason : Type 0 where
  missing_authorization merchant_not_found transfer_failed : FailureReason
  auth : SubscriptionAuthErrorCode → FailureReason

pub record Subscription (Amount : Type 0) : Type 0 where
  pub id : Text
  pub merchant_id : Text
  pub customer_wallet : Text
  pub amount : Amount
  pub currency : Text
  pub interval : SubscriptionInterval
  pub status : SubscriptionStatus
  pub next_charge_at : ℕ
  pub last_charge_at : Option ℕ
  pub authorization : Option SubscriptionAuthorization
  pub failed_charge_count : ℕ
  pub last_failure_reason : Option FailureReason

pub record Merchant : Type 0 where
  pub id : Text
  pub wallet_address : Text

pub data AuditEvent : Type 0 where
  subscription_charged subscription_charge_failed : AuditEvent

pub record AuditEntry : Type 0 where
  pub event : AuditEvent
  pub entity_id : Text

-- The payments, and what is done with them; `none` is an error of the database.
pub record Payments (Amount : Type 0) : Type 1 where
  pub Table : Type 0
  pub insert_payment : Text → Subscription Amount → Table → Option Table
  pub mark_payment_processing : Text → Table → Table
  pub mark_payment_completed : Text → Text → Table → Option Table
  pub mark_payment_failed : Text → Table → Table

module _ {Amount : Type 0} where
  abbrev pub is_due : ℕ → Subscription Amount → Bool
  is_due now s = is_active s.status && leb s.next_charge_at now

  -- ORDER BY next_charge_at ASC, rows of the same time in the order of insertion.
  abbrev pub insert_sorted :
      Subscription Amount → List (Subscription Amount) → List (Subscription Amount)
  insert_sorted s [] = s ∷ []
  insert_sorted s (t ∷ subs) =
      if leb s.next_charge_at t.next_charge_at then s ∷ t ∷ subs else t ∷ insert_sorted s subs

  abbrev pub sorted : List (Subscription Amount) → List (Subscription Amount)
  sorted [] = []
  sorted (s ∷ subs) = insert_sorted s (sorted subs)

  abbrev pub charged_row : ℕ → ℕ → Subscription Amount → Subscription Amount
  charged_row charged_at next_charge_at s = record s {
    last_charge_at = some charged_at;
    next_charge_at = next_charge_at;
    failed_charge_count = 0;
    last_failure_reason = none;
  }

  -- One failure more, and a pause once there are enough.
  abbrev pub failed_row : FailureReason → ℕ → Subscription Amount → Subscription Amount
  failed_row reason pause_after s = record s {
    failed_charge_count = s.failed_charge_count + 1;
    last_failure_reason = some reason;
    status =
        if leb pause_after (s.failed_charge_count + 1) && is_active s.status
        then paused
        else s.status;
  }

module _ {Amount : Type 0} (p : Payments Amount) where
  pub record Db : Type 0 where
    pub subscriptions : List (Subscription Amount)
    pub merchants : List Merchant
    pub payments : p.Table
    pub audit : List AuditEntry

module _ {Amount : Type 0} {p : Payments Amount} where
  unfoldable pub find_subscription : Text → Db p → Option (Subscription Amount)
  find_subscription id d = find (λ s. s.id === id) d.subscriptions

  unfoldable pub find_merchant_by_id : Text → Db p → Option Merchant
  find_merchant_by_id id d = find (λ m. m.id === id) d.merchants

  unfoldable pub list_due_subscriptions : ℕ → ℕ → Db p → List (Subscription Amount)
  list_due_subscriptions now limit d = take limit (sorted (keep (is_due now) d.subscriptions))

  -- An UPDATE of the rows with an id.
  abbrev pub update_row : Text → (Subscription Amount → Subscription Amount) → Db p → Db p
  update_row id f d = record d {
    subscriptions = map (λ s. if s.id === id then f s else s) d.subscriptions;
  }

  -- `none` where no row has the id, which throws.
  unfoldable pub record_subscription_charge : Text → ℕ → ℕ → Db p → Option (Db p)
  record_subscription_charge id charged_at next_charge_at d =
      if is_some (find_subscription id d)
      then some (update_row id (charged_row charged_at next_charge_at) d)
      else none

  unfoldable pub record_subscription_failure : Text → FailureReason → ℕ → Db p → Option (Db p)
  record_subscription_failure id reason pause_after d =
      if is_some (find_subscription id d)
      then some (update_row id (failed_row reason pause_after) d)
      else none

  unfoldable pub append_audit : AuditEntry → Db p → Db p
  append_audit entry d = record d { audit = d.audit ++ entry ∷ [] }
