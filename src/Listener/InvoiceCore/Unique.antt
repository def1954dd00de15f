-- ===== src/Listener/InvoiceCore/Unique.antt =====
-- The amount of a fixed-address invoice is its own (packages/listener/src/invoice-core.ts).
use zettapay.Prelude.{
  ℕ, ◌+◌, ◌≤◌, ◌≡◌, ◌≢◌, inl, inr, true, none, some, List, [], ◌++◌, Text, codes, keep, arith, ap,
  ◌∙◌,
}
use zettapay.Prelude.Int.{pos}
use zettapay.Prelude.Numerals.{big_int, to_string}
use zettapay.Listener.Errors.{ok, Result-cases}
use zettapay.Listener.Types.{Chain, Invoice, InvoiceInput, Merchant}
use zettapay.Listener.Storage.{
  Store, create_invoice, list_pending_invoices, is_open, good_files, select,
}
use zettapay.Listener.Storage.Select.{select_unlimited}
use zettapay.Listener.Chains.{EvmTokenSpec, EvmChainSpec}
use zettapay.Listener.Pricing.{Double}
use zettapay.Listener.Nonce.{
  floor_to_base, nonce_max, integer, allocate_nonce, base_units_for_usd, encode_amount,
  EncodedAmount,
}
use zettapay.Listener.Nonce.Amounts.{allocate_nonce_free, encode_amount_roundtrip, match_amount_iff}
use zettapay.Listener.Watcher.Matching.{In}
use zettapay.Listener.InvoiceCore.{
  competes, nonces_from, collect_active_nonces, FixedParams, FixedInvoice, create_fixed, expiry,
}
use zettapay.Listener.InvoiceCore.Active.{nonces_from-has, nonce_at-add}

-- The invoices that `collectActiveNonces` looks at.
abbrev pub open_invoices : ℕ → Chain → Store → List Invoice
open_invoices now chain s = keep (is_open now (some chain)) (good_files s.invoices)

module _ (d : Double) (now : ℕ) (uuid : Text) (random : ℕ) (spec : EvmChainSpec)
    (token : EvmTokenSpec) (merchant : Merchant) (params : FixedParams d) where
  abbrev input_of : ℕ → InvoiceInput
  input_of units = record {
    id = codes "inv_" ++ uuid;
    merchant_id = merchant.id;
    chain = spec.chain;
    asset = token.symbol;
    amount = to_string units;
    address = params.fixed_address;
    child_index = none;
    status = none;
    expires_at = expiry now params.expires_in_seconds;
  }

  -- What a successful call computed on the way.
  pub record Created (s s' : Store) (r : FixedInvoice) : Type 0 where
    pub base_units : ℕ
    pub active : List ℕ
    pub encoded : EncodedAmount
    pub priced : base_units_for_usd d params.amount_usd ≡ ok base_units
    pub collected :
        active
        ≡ nonces_from now params.fixed_address base_units token.symbol []
            (open_invoices now spec.chain s)
    pub allocated : allocate_nonce active (integer (pos random)) ≡ ok r.nonce
    pub encodes : encode_amount d params.amount_usd r.nonce ≡ ok encoded
    pub units : r.amount_usdc_units ≡ encoded.units
    pub written : (ok r.invoice, s') ≡ create_invoice uuid now (input_of encoded.units) s

  pub create_fixed_ok :
      (s : Store) {s' : Store} {r : FixedInvoice}
      → create_fixed d now uuid random spec token merchant params s ≡ (ok r, s')
      → Created s s' r
  unfolding create_fixed collect_active_nonces list_pending_invoices create_invoice
  create_fixed_ok s {s'} {r} e = elim (Result-cases (base_units_for_usd d params.amount_usd)) [
    | inr (x, failed) ↦ absurd (ground arith)
    | inl (base_units, priced) ↦
        let active =
          nonces_from now params.fixed_address base_units token.symbol []
            (select (is_open now (some spec.chain)) 0 0 s.invoices) in
        elim (Result-cases (allocate_nonce active (integer (pos random)))) [
          | inr (x, failed) ↦ absurd (ground arith)
          | inl (nonce, allocated) ↦ elim (Result-cases (encode_amount d params.amount_usd nonce)) [
            | inr (x, failed) ↦ absurd (ground arith)
            | inl (encoded, encodes) ↦ record {
              base_units = base_units;
              active = active;
              encoded = encoded;
              priced = priced;
              collected =
                  ap (nonces_from now params.fixed_address base_units token.symbol [])
                    (select_unlimited (is_open now (some spec.chain)) 0 s.invoices);
              allocated = ground arith;
              encodes = ground arith;
              units = ground arith;
              written = ground arith;
            }
          ]
        ]
  ]

  -- The amount is the price's base and the nonce.
  pub Created-amount :
      {s s' : Store} {r : FixedInvoice} (c : Created s s' r)
      → (r.amount_usdc_units ≡ c.base_units + r.nonce)
        × (floor_to_base c.base_units ≡ c.base_units)
        × (1 ≤ r.nonce)
        × (r.nonce ≤ nonce_max)
  Created-amount {s} {s'} {r} c =
      let (low, high, priced, floored, matched) =
        encode_amount_roundtrip d params.amount_usd r.nonce c.encodes in
      let same : c.base_units ≡ c.encoded.base_units = cc (priced, c.priced) in
      let (split, _) = (match_amount_iff c.encoded.units c.encoded.base_units r.nonce).0 matched in
      (omega (arith, c.units), omega arith, low, high)

  -- A new fixed-address invoice asks for an amount that no competing invoice asks for: none that is
  -- pending and not expired, on the same chain, with the same address and the same token.
  pub create_fixed_unique :
      (s : Store) {s' : Store} {r : FixedInvoice}
      → create_fixed d now uuid random spec token merchant params s ≡ (ok r, s')
      → (inv : Invoice) → In inv (open_invoices now spec.chain s)
      → competes now params.fixed_address token.symbol inv ≡ true
      → big_int inv.amount ≢ some r.amount_usdc_units
  create_fixed_unique s {s'} {r} e inv listed same amount =
      let c = create_fixed_ok s e in
      let (units, floored, low, high) = Created-amount c in
      let (_, _, free) = allocate_nonce_free c.active (integer (pos random)) c.allocated in
      let at =
        nonce_at-add c.base_units r.nonce inv.amount (amount ∙ ap some units) floored low high in
      let taken =
        nonces_from-has now params.fixed_address c.base_units token.symbol r.nonce inv []
          (open_invoices now spec.chain s) listed same at in
      cc (free, taken, c.collected)
