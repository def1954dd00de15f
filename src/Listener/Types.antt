-- ===== src/Listener/Types.antt =====
-- packages/listener/src/types.ts. Times are milliseconds; the files hold them as ISO strings, which
-- keep every millisecond.
use zettapay.Prelude.{ℕ, Bool, true, false, Option, Text}

pub data Chain : Type 0 where
  btc base polygon eth : Chain

pub data InvoiceStatus : Type 0 where
  pending partial confirmed expired failed : InvoiceStatus

-- `===` on chains and on statuses.
abbrev pub same_chain : Chain → Chain → Bool
same_chain btc btc = true
same_chain base base = true
same_chain polygon polygon = true
same_chain eth eth = true
same_chain _ _ = false

abbrev pub is_pending : InvoiceStatus → Bool
is_pending pending = true
is_pending _ = false

pub record Merchant : Type 0 where
  pub id : Text
  pub shop_name : Text
  pub email : Text
  pub xpub : Text
  pub webhook_url : Text
  pub webhook_secret_hash : Text
  pub next_child_index : ℕ
  pub created_at : ℕ

pub record Invoice : Type 0 where
  pub id : Text
  pub merchant_id : Text
  pub chain : Chain
  pub asset : Text
  pub amount : Text
  pub address : Text
  pub child_index : Option ℕ
  pub status : InvoiceStatus
  pub expires_at : ℕ
  pub paid_at : Option ℕ
  pub tx_hash : Option Text
  pub created_at : ℕ
  pub updated_at : ℕ

-- An empty `id` asks for a fresh one.
pub record InvoiceInput : Type 0 where
  pub id : Text
  pub merchant_id : Text
  pub chain : Chain
  pub asset : Text
  pub amount : Text
  pub address : Text
  pub child_index : Option ℕ
  pub status : Option InvoiceStatus
  pub expires_at : ℕ

-- The bodies that the watchers send. The files hold them as JSON text.
pub record ConfirmedPayload : Type 0 where
  pub invoice_id : Text
  pub merchant_id : Text
  pub chain : Chain
  pub asset : Text
  pub token_address : Text
  pub amount : Text
  pub address : Text
  pub tx_hash : Option Text
  pub value : Text
  -- `metadata`: `ref`, `nonce` and `asset`
  pub ref : Text
  pub nonce : ℕ
  pub token_symbol : Text
  pub confirmed_at : ℕ

pub record OrphanPayload : Type 0 where
  pub merchant_id : Text
  pub chain : Chain
  pub asset : Text
  pub token_address : Text
  pub address : Text
  pub tx_hash : Text
  pub value : Text
  pub detected_at : ℕ

pub record BtcPayload : Type 0 where
  pub invoice_id : Text
  pub merchant_id : Text
  pub chain : Chain
  pub asset : Text
  pub amount : Text
  pub address : Text
  pub tx_hash : Option Text
  pub confirmations : ℕ
  pub confirmed_at : ℕ

pub record BalancePayload : Type 0 where
  pub invoice_id : Text
  pub merchant_id : Text
  pub chain : Chain
  pub asset : Text
  pub amount : Text
  pub address : Text
  pub tx_hash : Option Text
  pub balance : Text
  pub confirmed_at : ℕ

pub data Payload : Type 0 where
  btc_confirmed : BtcPayload → Payload
  base_confirmed : BalancePayload → Payload
  invoice_confirmed : ConfirmedPayload → Payload
  payment_orphan : OrphanPayload → Payload

pub record WebhookEvent : Type 0 where
  pub id : Text
  pub invoice_id : Text
  pub payload : Payload
  pub attempts : ℕ
  pub next_retry_at : ℕ
  pub delivered_at : Option ℕ
  pub last_status_code : Option ℕ
  pub last_error : Option Text

pub record WebhookEventInput : Type 0 where
  pub id : Text
  pub invoice_id : Text
  pub payload : Payload
  pub next_retry_at : ℕ

pub record WebhookDeliveryResult : Type 0 where
  pub is_ok : Bool
  pub status_code : Option ℕ
  pub error : Option Text
  pub next_retry_at : Option ℕ
