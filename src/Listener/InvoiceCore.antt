-- ===== src/Listener/InvoiceCore.antt =====
-- packages/listener/src/invoice-core.ts: how invoices are made, in each of the three modes. A call
-- is one step; `now`, `uuid` and `random` are what the clock, `randomUUID` and `randomInt` return.
-- The key derivations are arguments.
pub mod Active
pub mod Unique
pub mod Quoted
pub mod Above
pub mod Counter
mod Tests
use zettapay.Prelude.{
  ℕ, suc, ◌+◌, ◌-◌, ◌*◌, ◌/◌, ◌<◌, Bool, true, false, not, ◌||◌, Option, none, some, List, [], ◌∷◌,
  ◌++◌, Text, codes, has, ltb, if◌then◌else◌, ◌==◌, ◌===◌, to_lower_case, to_upper_case,
}
use zettapay.Prelude.Int.{pos}
use zettapay.Prelude.Numerals.{big_int, to_string}
use zettapay.Listener.Errors.{
  Error, bad_amount_sats, unknown_chain, asset_not_available, bad_evm_address, merchant_not_found,
  Result, or_throw, guard,
}
use zettapay.Listener.Types.{Chain, btc, base, Merchant, Invoice, InvoiceInput}
use zettapay.Listener.Storage.{
  Action, pure, lift, ◌>>=◌, ◌>>◌, get_merchant, next_child_index, create_invoice,
  list_pending_invoices,
}
use zettapay.Listener.Chains.{EvmTokenSpec, EvmChainSpec, lookup_evm_chain, lookup_evm_token}
use zettapay.Listener.Pricing.{Double, usd_to_usdc, format_usdc, format_btc_amount}
use zettapay.Listener.Nonce.{
  integer, allocate_nonce, base_units_for_usd, encode_amount, EncodedAmount, floor_to_base,
}
use zettapay.Listener.Watcher.{is_hex_address}

abbrev pub default_expires_seconds : ℕ
default_expires_seconds = 3600

abbrev pub expiry : ℕ → Option ℕ → ℕ
expiry now none = now + default_expires_seconds * 1000
expiry now (some seconds) = now + seconds * 1000

abbrev found_merchant : Option Merchant → Action Merchant
found_merchant m = lift (or_throw m merchant_not_found)

-- What a derivation from an extended public key gives.
pub record Derived : Type 0 where
  pub path : Text
  pub address : Text

pub record BtcInvoice : Type 0 where
  pub invoice : Invoice
  pub path : Text
  pub amount_sats : ℕ

-- `createInvoiceForMerchant`; `derive` is `deriveBip84Address`.
unfoldable pub create_invoice_for_merchant :
    (Text → ℕ → Result Derived) → ℕ → Text → Text → ℕ → Option ℕ → Action BtcInvoice
create_invoice_for_merchant derive now uuid merchant_id amount_sats expires = do
  lift (guard (ltb 0 amount_sats) bad_amount_sats)
  merchant ← found_merchant (← get_merchant merchant_id)
  child_index ← next_child_index merchant.id
  derived ← lift (derive merchant.xpub child_index)
  invoice ← create_invoice uuid now (record {
    id = codes "inv_" ++ uuid;
    merchant_id = merchant.id;
    chain = btc;
    asset = codes "BTC";
    amount = format_btc_amount amount_sats;
    address = derived.address;
    child_index = some child_index;
    status = none;
    expires_at = expiry now expires;
  })
  pure (record { invoice = invoice; path = derived.path; amount_sats = amount_sats })

pub record BaseInvoice : Type 0 where
  pub invoice : Invoice
  pub path : Text
  pub amount_usdc_units : ℕ
  pub amount_usdc : Text

pub record FixedInvoice : Type 0 where
  pub invoice : Invoice
  pub nonce : ℕ
  pub amount_usdc_units : ℕ
  pub amount_usdc : Text
  pub asset : Text
  pub token_address : Text

-- `nonces.add(nonce)`
abbrev pub add_nonce : ℕ → List ℕ → List ℕ
add_nonce n nonces = if has n nonces then nonces else n ∷ nonces

-- The part of the loop's body behind the guards: the nonce of an amount at this base price.
unfoldable pub nonce_at : ℕ → Text → Option ℕ
nonce_at base_units amount = elim (big_int amount) [
  | none ↦ none
  | some units ↦
      if floor_to_base units == base_units
      then (if ltb (units - floor_to_base units) 1
          then none
          else some (units - floor_to_base units))
      else none
]

abbrev pub add_option : Option ℕ → List ℕ → List ℕ
add_option none nonces = nonces
add_option (some n) nonces = add_nonce n nonces

-- The guards of the loop: the same address and asset, and not expired.
abbrev pub competes : ℕ → Text → Text → Invoice → Bool
competes now fixed_address asset inv =
    if not (to_lower_case inv.address === to_lower_case fixed_address)
    then false
    else if not (to_upper_case inv.asset === to_upper_case asset)
    then false
    else not (ltb inv.expires_at now)

-- One round of the loop of `collectActiveNonces`.
abbrev pub collect_one : ℕ → Text → ℕ → Text → List ℕ → Invoice → List ℕ
collect_one now fixed_address base_units asset nonces inv =
    if competes now fixed_address asset inv
    then add_option (nonce_at base_units inv.amount) nonces
    else nonces

unfoldable pub nonces_from : ℕ → Text → ℕ → Text → List ℕ → List Invoice → List ℕ
nonces_from now fixed_address base_units asset nonces [] = nonces
nonces_from now fixed_address base_units asset nonces (inv ∷ pending) =
    nonces_from now fixed_address base_units asset
      (collect_one now fixed_address base_units asset nonces inv) pending

unfoldable pub collect_active_nonces : ℕ → Chain → Text → ℕ → Text → Action (List ℕ)
collect_active_nonces now chain fixed_address base_units asset = do
  pending ← list_pending_invoices now (some chain) 0
  pure (nonces_from now fixed_address base_units asset [] pending)

module _ (d : Double) where
  -- `createBaseInvoiceForMerchant`; `derive` is `deriveEvmAddress` at the EVM key.
  unfoldable pub create_base_invoice_for_merchant :
      (ℕ → Result Derived) → ℕ → Text → Text → d.Number → Option ℕ → Action BaseInvoice
  create_base_invoice_for_merchant derive now uuid merchant_id usd expires = do
    units ← lift (usd_to_usdc d usd)
    merchant ← found_merchant (← get_merchant merchant_id)
    child_index ← next_child_index merchant.id
    derived ← lift (derive child_index)
    invoice ← create_invoice uuid now (record {
      id = codes "inv_" ++ uuid;
      merchant_id = merchant.id;
      chain = base;
      asset = codes "USDC";
      amount = to_string units;
      address = derived.address;
      child_index = some child_index;
      status = none;
      expires_at = expiry now expires;
    })
    pure (record {
      invoice = invoice;
      path = derived.path;
      amount_usdc_units = units;
      amount_usdc = format_usdc units;
    })

  pub record FixedParams : Type 0 where
    pub amount_usd : d.Number
    pub fixed_address : Text
    pub chain_alias : Text
    pub asset : Option Text
    pub expires_in_seconds : Option ℕ

  -- The rest of `createFixedEvmInvoiceForMerchant`, behind its checks of the parameters.
  unfoldable pub create_fixed :
      ℕ → Text → ℕ → EvmChainSpec → EvmTokenSpec → Merchant → FixedParams → Action FixedInvoice
  create_fixed now uuid random spec token merchant params = do
    base_units ← lift (base_units_for_usd d params.amount_usd)
    active ← collect_active_nonces now spec.chain params.fixed_address base_units token.symbol
    nonce ← lift (allocate_nonce active (integer (pos random)))
    encoded ← lift (encode_amount d params.amount_usd nonce)
    invoice ← create_invoice uuid now (record {
      id = codes "inv_" ++ uuid;
      merchant_id = merchant.id;
      chain = spec.chain;
      asset = token.symbol;
      amount = to_string encoded.units;
      address = params.fixed_address;
      child_index = none;
      status = none;
      expires_at = expiry now params.expires_in_seconds;
    })
    pure (record {
      invoice = invoice;
      nonce = nonce;
      amount_usdc_units = encoded.units;
      amount_usdc = encoded.display;
      asset = token.symbol;
      token_address = token.address;
    })

  unfoldable pub create_fixed_evm_invoice_for_merchant :
      ℕ → Text → ℕ → Text → FixedParams → Action FixedInvoice
  create_fixed_evm_invoice_for_merchant now uuid random merchant_id params = do
    spec ← lift (or_throw (lookup_evm_chain params.chain_alias) unknown_chain)
    token ← lift (or_throw (lookup_evm_token spec params.asset) asset_not_available)
    lift (guard (is_hex_address params.fixed_address) bad_evm_address)
    merchant ← found_merchant (← get_merchant merchant_id)
    create_fixed now uuid random spec token merchant params
