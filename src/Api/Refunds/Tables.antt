-- ===== src/Api/Refunds/Tables.antt =====
-- packages/api/src/db: the rows that a refund reads and writes, less their timestamps and what is
-- only handed on. The id of a row is its primary key, and a payment has at most one refund.
use zettapay.Prelude.{
  Bool, true, false, not, ◌&&◌, ◌||◌, Option, none, some, List, [], ◌∷◌, ◌++◌, Text, ◌===◌, is_some,
  find, if◌then◌else◌, map,
}

pub data PaymentStatus : Type 0 where
  pending processing completed failed refunded : PaymentStatus

abbrev pub is_completed : PaymentStatus → Bool
is_completed completed = true
is_completed _ = false

abbrev pub is_refunded : PaymentStatus → Bool
is_refunded refunded = true
is_refunded _ = false

pub record Payment (Amount : Type 0) : Type 0 where
  pub id : Text
  pub merchant_id : Text
  pub amount_usdc : Amount
  pub payer_wallet : Text
  pub status : PaymentStatus
  pub currency : Text

pub data RefundStatus : Type 0 where
  refund_pending refund_processing refund_completed refund_failed : RefundStatus

pub record Refund (Amount : Type 0) : Type 0 where
  pub id : Text
  pub payment_id : Text
  pub merchant_id : Text
  pub amount_usdc : Amount
  pub currency : Text
  pub reason : Text
  pub status : RefundStatus
  pub tx_signature : Option Text
  pub signed_by : Text
  pub signed_at : Text
  pub signature : Text

pub record Merchant : Type 0 where
  pub id : Text
  pub wallet_address : Text

pub data AuditEvent : Type 0 where
  payment_refunded payment_refund_failed : AuditEvent

pub record AuditEntry : Type 0 where
  pub event : AuditEvent
  pub merchant_id : Text
  pub payment_id : Text
  pub refund_id : Text

pub record Db (Amount : Type 0) : Type 0 where
  pub payments : List (Payment Amount)
  pub merchants : List Merchant
  pub refunds : List (Refund Amount)
  pub audit : List AuditEntry

abbrev to_processing : RefundStatus → RefundStatus
to_processing refund_pending = refund_processing
to_processing st = st

abbrev is_signature : Text → Option Text → Bool
is_signature s none = false
is_signature s (some t) = t === s

module _ {Amount : Type 0} where
  unfoldable pub find_payment_by_id : Text → Db Amount → Option (Payment Amount)
  find_payment_by_id id d = find (λ p. p.id === id) d.payments

  unfoldable pub find_merchant_by_id : Text → Db Amount → Option Merchant
  find_merchant_by_id id d = find (λ m. m.id === id) d.merchants

  unfoldable pub get_refund : Text → Db Amount → Option (Refund Amount)
  get_refund id d = find (λ r. r.id === id) d.refunds

  unfoldable pub find_refund_by_payment_id : Text → Db Amount → Option (Refund Amount)
  find_refund_by_payment_id id d = find (λ r. r.payment_id === id) d.refunds

  -- `none` when the id or the payment is taken.
  unfoldable pub insert_refund : Refund Amount → Db Amount → Option (Db Amount)
  insert_refund r d =
      if is_some (get_refund r.id d) || is_some (find_refund_by_payment_id r.payment_id d)
      then none
      else some (record d { refunds = d.refunds ++ r ∷ [] })

  -- An UPDATE of the rows with an id.
  abbrev pub update_refund : Text → (Refund Amount → Refund Amount) → Db Amount → Db Amount
  update_refund id f d = record d { refunds = map (λ r. if r.id === id then f r else r) d.refunds }

  unfoldable pub mark_refund_processing : Text → Db Amount → Db Amount
  mark_refund_processing id = update_refund id (λ r. record r { status = to_processing r.status })

  -- `none` when another refund has the signature, which is unique.
  unfoldable pub mark_refund_completed : Text → Text → Db Amount → Option (Db Amount)
  mark_refund_completed id tx d =
      if is_some (find (λ r. not (r.id === id) && is_signature tx r.tx_signature) d.refunds)
      then none
      else some
          (update_refund id (λ r. record r { status = refund_completed; tx_signature = some tx }) d)

  unfoldable pub mark_refund_failed : Text → Db Amount → Db Amount
  mark_refund_failed id = update_refund id (λ r. record r { status = refund_failed })

  -- The payment as refunded, and whether a row changed.
  unfoldable pub mark_payment_refunded : Text → Db Amount → Bool × Db Amount
  mark_payment_refunded id d = (
    is_some (find (λ p. p.id === id && is_completed p.status) d.payments),
    record d {
      payments =
          map
            (λ p.
              if p.id === id && is_completed p.status then record p { status = refunded } else p)
            d.payments;
    },
  )

  unfoldable pub append_audit : AuditEntry → Db Amount → Db Amount
  append_audit entry d = record d { audit = d.audit ++ entry ∷ [] }
