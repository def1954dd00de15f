-- ===== src/Listener/Watcher.antt =====
-- packages/listener/src/fixed-address-watcher.ts, the class `FixedAddressWatcher`. A poll is one
-- step at one instant; what the endpoints answer is a function that the poll is given. Log lines,
-- timers and the status fields that only report are left out.
pub mod Network
pub mod Effects
pub mod Scan
pub mod Matching
pub mod Reports
pub mod Transfers
pub mod Safety
pub mod Outcomes
mod Tests
pub use Network.*
pub use Effects.*
use zettapay.Prelude.{
  ℕ, zero, suc, ◌+◌, ◌-◌, Bool, true, false, not, ◌&&◌, ◌||◌, Option, none, some, List, [], ◌∷◌,
  ◌++◌, Text, codes, length, keep, take, has, leb, ltb, if◌then◌else◌, ◌==◌, ◌===◌, elem,
  to_lower_case, to_upper_case, is_some,
}
use zettapay.Prelude.Dict.{Dict, lookup, insert}
use zettapay.Prelude.Numerals.{big_int, to_string}
use zettapay.Listener.Errors.{Error, bad_big_int, Result, ok, err, or_throw}
use zettapay.Listener.Types.{
  Chain, Invoice, confirmed, expired, ConfirmedPayload, OrphanPayload, Payload, invoice_confirmed,
  payment_orphan,
}
use zettapay.Listener.Storage.{
  Store, list_pending_invoices, update_invoice_status, record_webhook_event,
}
use zettapay.Listener.Chains.{EvmTokenSpec, EvmChainSpec, default_evm_token}
use zettapay.Listener.Nonce.{nonce_modulus, floor_to_base, match_amount}
use zettapay.Listener.Quorum.{
  RpcObservation, agreed, conflict, insufficient, decide_transfer_quorum, quorum_threshold,
}

abbrev pub webhook_retry_initial_ms : ℕ
webhook_retry_initial_ms = 1000

pub record FixedChainConfig : Type 0 where
  pub spec : EvmChainSpec
  pub rpc_url : Text
  pub rpc_urls : List Text
  pub enabled_tokens : List EvmTokenSpec

-- The fields that the constructor fixes, and what a poll is given.
pub record Config : Type 0 where
  pub merchant_id : Text
  pub address : Text
  pub chains : List FixedChainConfig
  pub block_window : ℕ
  pub quorum : ℕ
  pub sha256 : Text → Text
  pub net : Net
  pub now : ℕ

is_hex_digit : ℕ → Bool
is_hex_digit c =
    (leb b'0' c && leb c b'9') || ((leb b'a' c && leb c b'f') || (leb b'A' c && leb c b'F'))

all_hex : Text → Bool
all_hex [] = true
all_hex (c ∷ s) = is_hex_digit c && all_hex s

-- `/^0x[0-9a-fA-F]{40}$/`
unfoldable pub is_hex_address : Text → Bool
unfolding all_hex is_hex_digit
is_hex_address (z ∷ x ∷ s) = z == b'0' && (x == b'x' && (length s == 40 && all_hex s))
is_hex_address _ = false

unfoldable pub deterministic_event_id : Config → Text → Text
deterministic_event_id cfg key = codes "evt_" ++ take 32 (cfg.sha256 key)

chain_text : Chain → Text
chain_text Chain.btc = codes "btc"
chain_text Chain.base = codes "base"
chain_text Chain.polygon = codes "polygon"
chain_text Chain.eth = codes "eth"

abbrev amount_base : ℕ → ℕ
amount_base units = floor_to_base units

-- One round of `findInvoiceByValue`.
unfoldable pub nonce_of : ℕ → Invoice → Option ℕ
nonce_of value inv = elim (big_int inv.amount) [
  | none ↦ none
  | some units ↦
      if units == value
      then elim (match_amount value (floor_to_base units)) [
        | none ↦ none
        | some nonce ↦ if ltb 0 nonce then some nonce else none
      ]
      else none
]

unfoldable pub find_invoice_by_value : List Invoice → ℕ → Option (Invoice × ℕ)
find_invoice_by_value [] value = none
find_invoice_by_value (inv ∷ active) value = elim (nonce_of value inv) [
  | none ↦ find_invoice_by_value active value
  | some nonce ↦ some (inv, nonce)
]

abbrev paid_at_or : Option ℕ → ℕ → ℕ
paid_at_or none now = now
paid_at_or (some t) now = t

unfoldable pub emit_confirmed_webhook : Config → Invoice → EvmTokenSpec → ℕ → ℕ → Poll (Unit {0})
unfolding deterministic_event_id
emit_confirmed_webhook cfg invoice token value nonce =
    from_store (
      record_webhook_event (record {
        id = deterministic_event_id cfg (invoice.id ++ codes ":confirmed");
        invoice_id = invoice.id;
        payload = invoice_confirmed (record {
          invoice_id = invoice.id;
          merchant_id = invoice.merchant_id;
          chain = invoice.chain;
          asset = invoice.asset;
          token_address = token.address;
          amount = invoice.amount;
          address = invoice.address;
          tx_hash = invoice.tx_hash;
          value = to_string value;
          ref = invoice.id;
          nonce = nonce;
          token_symbol = token.symbol;
          confirmed_at = paid_at_or invoice.paid_at cfg.now;
        });
        next_retry_at = cfg.now + webhook_retry_initial_ms;
      }))
    >> pure tt

-- `orphan:${chain}:${token.symbol}:${txHash}`
unfoldable pub orphan_key : Chain → Text → Text → Text
unfolding chain_text
orphan_key chain symbol tx_hash =
    codes "orphan:" ++ (chain_text chain ++ (b':' ∷ (symbol ++ (b':' ∷ tx_hash))))

unfoldable pub emit_orphan_webhook : Config → Chain → EvmTokenSpec → Text → ℕ → Poll (Unit {0})
unfolding deterministic_event_id
emit_orphan_webhook cfg chain token tx_hash value =
    from_store (
      record_webhook_event (record {
        id = deterministic_event_id cfg (orphan_key chain token.symbol tx_hash);
        invoice_id = codes "orphan_" ++ tx_hash;
        payload = payment_orphan (record {
          merchant_id = cfg.merchant_id;
          chain = chain;
          asset = token.symbol;
          token_address = token.address;
          address = cfg.address;
          tx_hash = tx_hash;
          value = to_string value;
          detected_at = cfg.now;
        });
        next_retry_at = cfg.now + webhook_retry_initial_ms;
      }))
    >> pure tt

-- The patch of a confirmation.
abbrev pub paid : ℕ → Text → Invoice → Invoice
paid now tx_hash inv = record inv { paid_at = some now; tx_hash = some tx_hash }

-- The last part of `handleTransfer`, for a transfer that is deep enough.
unfoldable pub confirm : Config → EvmTokenSpec → Text → ℕ → Invoice → ℕ → Poll Bool
confirm cfg token tx_hash value inv nonce = do
  done ← from_store (update_invoice_status cfg.now inv.id confirmed (paid cfg.now tx_hash))
  emit_confirmed_webhook cfg done token value nonce
  pure true

-- `true` is a terminal state: confirmed or orphan.
unfoldable pub handle_transfer :
    Config → FixedChainConfig → EvmTokenSpec → List Invoice → Text → ℕ → ℕ → Poll Bool
handle_transfer cfg chain token active tx_hash value confirmations =
    elim (find_invoice_by_value active value) [
      | none ↦ emit_orphan_webhook cfg chain.spec.chain token tx_hash value >> pure true
      | some (inv, nonce) ↦
          if ltb confirmations chain.spec.min_confirmations
          then pure false
          else confirm cfg token tx_hash value inv nonce
    ]
