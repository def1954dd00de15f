-- ===== src/Listener/InvoiceCore/Tests.antt =====
-- A run of packages/listener/src/invoice-core.ts at concrete inputs.
use zettapay.Prelude.{
  List, ℕ, ◌+◌, ◌*◌, ◌≡◌, refl, ◌≢◌, inl, true, none, some, [], ◌∷◌, ◌++◌, Text, codes, arith, ◌==◌,
  ◌===◌, to_lower_case, to_upper_case,
}
use zettapay.Prelude.Int.{◌+ℤ◌, ◌-ℤ◌, rem}
use zettapay.Prelude.Dict.{lookup, insert}
use zettapay.Prelude.Numerals.{big_int, to_string}
use zettapay.Listener.Errors.{ok}
use zettapay.Listener.Types.{Merchant, Invoice, base, pending}
use zettapay.Listener.Storage.Select.{select}
use zettapay.Listener.Storage.{Store, good, create_invoice, list_pending_invoices, is_open}
use zettapay.Listener.Chains.{EvmTokenSpec, base_spec, base_usdc, usdc}
use zettapay.Listener.Pricing.{Double, usd_to_usdc, format_fixed}
use zettapay.Listener.Nonce.{
  scan, normalize_nonce_start, allocate_nonce, base_units_for_usd, encode_amount,
}
use zettapay.Listener.Watcher.{find_invoice_by_value}
use zettapay.Listener.InvoiceCore.{
  FixedParams, FixedInvoice, nonce_at, nonces_from, collect_active_nonces, create_fixed,
}
use zettapay.Listener.InvoiceCore.{Derived, BtcInvoice, create_invoice_for_merchant}
use zettapay.Listener.Storage.Reachable.{Operation, run_all}
use zettapay.Listener.InvoiceCore.Above.{IsAbove}
use zettapay.Listener.InvoiceCore.Counter.{advanced, create_invoice_index}
use zettapay.Listener.Errors.{Result}
use zettapay.Listener.Types.{btc}
use zettapay.Listener.Storage.{get_merchant, read_merchant_or_null, next_child_index}
use zettapay.Listener.Pricing.{format_btc_amount}
use zettapay.Listener.InvoiceCore.Unique.{create_fixed_unique}
use zettapay.Listener.InvoiceCore.Quoted.{watched, quoted_payment_found}

-- Whole dollars.
abbrev whole : Double
whole = record {
  Number = ℕ;
  is_finite = λ n. true;
  le_zero = λ n. n == 0;
  times = λ n k. n * k;
  round = λ n. n;
}

abbrev address : Text
address = codes "0xaa"

abbrev invoice : Text → Text → ℕ → Invoice
invoice id amount created = record {
  id = id;
  merchant_id = codes "m";
  chain = base;
  asset = usdc;
  amount = amount;
  address = address;
  child_index = none;
  status = pending;
  expires_at = created + 3600000;
  paid_at = none;
  tx_hash = none;
  created_at = created;
  updated_at = created;
}

abbrev token : EvmTokenSpec
token = record { symbol = usdc; address = base_usdc; decimals = 6 }

abbrev merchant : Merchant
merchant = record {
  id = codes "m";
  shop_name = codes "shop";
  email = codes "e";
  xpub = codes "x";
  webhook_url = codes "u";
  webhook_secret_hash = codes "h";
  next_child_index = 0;
  created_at = 1;
}

abbrev params : FixedParams whole
params = record {
  amount_usd = 5;
  fixed_address = address;
  chain_alias = codes "base";
  asset = none;
  expires_in_seconds = none;
}

abbrev older : Invoice
older = invoice (codes "inv_1") (codes "5000007") 1000

-- One invoice competes, and it has the nonce 7.
abbrev store : Store
store = record {
  merchant = some (good merchant);
  invoices = (codes "inv_1", good older) ∷ [];
  events = [];
}

abbrev newer : Invoice
newer = invoice (codes "inv_2") (to_string 5000008) 2000

abbrev store' : Store
store' = record {
  merchant = some (good merchant);
  invoices = (codes "inv_1", good older) ∷ (codes "inv_2", good newer) ∷ [];
  events = [];
}

abbrev created : FixedInvoice
created = record {
  invoice = newer;
  nonce = 8;
  amount_usdc_units = 5000008;
  amount_usdc = format_fixed 6 5000008;
  asset = usdc;
  token_address = base_usdc;
}

run :
    create_fixed whole 2000 (codes "2") 7 base_spec token merchant params store
    ≡ (ok created, store')
unfolding create_fixed base_units_for_usd usd_to_usdc collect_active_nonces list_pending_invoices
    allocate_nonce scan nonces_from select is_open ◌===◌ to_lower_case to_upper_case nonce_at
    big_int normalize_nonce_start ◌+ℤ◌ ◌-ℤ◌ rem encode_amount create_invoice insert
run = refl

create_fixed_unique_example : big_int (codes "5000007") ≢ some 5000008
unfolding is_open ◌===◌ to_lower_case to_upper_case
create_fixed_unique_example =
    create_fixed_unique whole 2000 (codes "2") 7 base_spec token merchant params store run older
      (inl refl) refl

quoted_payment_found_example :
    find_invoice_by_value (watched 3000 address base token store') 5000008 ≡ some (newer, 8)
unfolding lookup ◌===◌ to_upper_case
quoted_payment_found_example =
    quoted_payment_found whole 2000 (codes "2") 7 base_spec token merchant params store 3000 run
      refl refl (omega arith) (omega arith)

-- The derivation that gives each index its own address.
abbrev derive : Text → ℕ → Result Derived
derive xpub index = ok (record { path = codes "m"; address = xpub ++ to_string index })

abbrev derived : BtcInvoice
derived = record {
  invoice = record {
    id = codes "inv_3";
    merchant_id = codes "m";
    chain = btc;
    asset = codes "BTC";
    amount = format_btc_amount 5;
    address = codes "x" ++ to_string 0;
    child_index = some 0;
    status = pending;
    expires_at = 3602000;
    paid_at = none;
    tx_hash = none;
    created_at = 2000;
    updated_at = 2000;
  };
  path = codes "m";
  amount_sats = 5;
}

abbrev counted : Store
counted = record {
  merchant = some (good (advanced merchant));
  invoices = (codes "inv_1", good older) ∷ (codes "inv_3", good derived.invoice) ∷ [];
  events = [];
}

create_invoice_index_example :
    (derived.invoice.child_index ≡ some 0)
    × (derive (codes "x") 0 ≡ ok (record { path = codes "m"; address = derived.invoice.address }))
    × (counted.merchant ≡ some (good (advanced merchant)))
    × ((ops : List Operation) → IsAbove 0 (run_all ops counted))
unfolding create_invoice_for_merchant get_merchant read_merchant_or_null next_child_index
    create_invoice insert ◌===◌
create_invoice_index_example =
    create_invoice_index derive 2000 (codes "3") (codes "m") 5 none store merchant {s' = counted}
      {r = derived} refl refl
