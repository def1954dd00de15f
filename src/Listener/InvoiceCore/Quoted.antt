-- ===== src/Listener/InvoiceCore/Quoted.antt =====
-- From the quote to the match: the watcher (packages/listener/src/fixed-address-watcher.ts) finds
-- the invoice that packages/listener/src/invoice-core.ts quoted the amount for.
use zettapay.Prelude.{
  ℕ, ◌≤◌, ◌<◌, ◌≡◌, refl, inl, inr, Bool, true, not, none, some, List, [], ◌∷◌, ◌++◌, Text, codes,
  keep, keep-append, ◌===◌, arith, Bool-cases, Option-cases, subst, sym, ap, ◌∙◌, text_eq_refl,
  to_lower_case, to_upper_case,
}
use zettapay.Prelude.Dict.{Dict, lookup, insert}
use zettapay.Prelude.Numerals.{big_int-to_string}
use zettapay.Listener.Errors.{ok}
use zettapay.Listener.Types.{Chain, btc, base, polygon, eth, same_chain, Invoice, Merchant}
use zettapay.Listener.Storage.{Store, File, good, corrupt, create_invoice, is_open, good_files}
use zettapay.Listener.Chains.{EvmTokenSpec, EvmChainSpec}
use zettapay.Listener.Pricing.{Double}
use zettapay.Listener.Nonce.{match_amount}
use zettapay.Listener.Watcher.{find_invoice_by_value, nonce_of}
use zettapay.Listener.Watcher.Matching.{In, nonce_of-some}
use zettapay.Listener.Watcher.Scan.{at_address, is_expired, for_token}
use zettapay.Listener.InvoiceCore.{competes, FixedParams, FixedInvoice, create_fixed}
use zettapay.Listener.InvoiceCore.Unique.{
  open_invoices, Created, create_fixed_ok, Created-amount, create_fixed_unique,
}

good_files-insert :
    (id : Text) (inv : Invoice) (d : Dict (File Invoice))
    → lookup id d ≡ none
    → good_files (insert id (good inv) d) ≡ good_files d ++ inv ∷ []
unfolding lookup insert
good_files-insert id inv [] h = refl
good_files-insert id inv ((j, good x) ∷ d) h = ground (arith, good_files-insert id inv d)
good_files-insert id inv ((j, corrupt) ∷ d) h = ground (arith, good_files-insert id inv d)

In-keep :
    (p : Invoice → Bool) (inv : Invoice) (xs : List Invoice)
    → In inv (keep p xs)
    → In inv xs × (p inv ≡ true)
In-keep p inv [] m = absurd m
In-keep p inv (x ∷ xs) m = elim (Bool-cases (p x)) [
  | inr dropped ↦ let (at, passes) = In-keep p inv xs (rw (dropped, keep) at m) in (inr at, passes)
  | inl kept ↦ elim (let m' : In inv (x ∷ keep p xs) = rw (kept, keep) at m in m') [
    | inl same ↦ (inl same, subst (λ i. p i ≡ true) same kept)
    | inr later ↦ let (at, passes) = In-keep p inv xs later in (inr at, passes)
  ]
]

In-keep_intro :
    (p : Invoice → Bool) (inv : Invoice) (xs : List Invoice)
    → In inv xs
    → p inv ≡ true
    → In inv (keep p xs)
In-keep_intro p inv [] m h = absurd m
In-keep_intro p inv (x ∷ xs) (inl same) h =
    let kept = subst (λ i. p i ≡ true) (sym same) h in rw (kept, keep) (inl same)
In-keep_intro p inv (x ∷ xs) (inr m) h = elim (Bool-cases (p x)) [
  | inl kept ↦ rw (kept, keep) (inr (In-keep_intro p inv xs m h))
  | inr dropped ↦ rw (dropped, keep) (In-keep_intro p inv xs m h)
]

find-append :
    (value : ℕ) (xs ys : List Invoice)
    → ((inv : Invoice) → In inv xs → nonce_of value inv ≡ none)
    → find_invoice_by_value (xs ++ ys) value ≡ find_invoice_by_value ys value
unfolding find_invoice_by_value
find-append value [] ys h = refl
find-append value (x ∷ xs) ys h =
    rw (h x (inl refl), find_invoice_by_value) (find-append value xs ys (λ inv m. h inv (inr m)))

-- The invoices that a poll at time `t` matches the transfers of one token against.
pub watched : ℕ → Text → Chain → EvmTokenSpec → Store → List Invoice
watched t address chain token s =
    for_token token
      (keep (λ inv. not (is_expired t inv)) (keep (at_address address) (open_invoices t chain s)))

abbrev of_token : EvmTokenSpec → Invoice → Bool
of_token token inv = to_upper_case inv.asset === token.symbol

abbrev fresh_at : ℕ → Invoice → Bool
fresh_at t inv = not (is_expired t inv)

same_chain_refl : (c : Chain) → same_chain c c ≡ true
same_chain_refl btc = refl
same_chain_refl base = refl
same_chain_refl polygon = refl
same_chain_refl eth = refl

-- What is open at a later time was open before.
is_open_before :
    (now t : ℕ) (chain : Chain) (inv : Invoice)
    → now ≤ t
    → is_open t (some chain) inv ≡ true
    → is_open now (some chain) inv ≡ true
unfolding is_open
is_open_before now t chain inv le h = ground arith

competes_at :
    (now t : ℕ) (address : Text) (token : EvmTokenSpec) (inv : Invoice)
    → now ≤ t
    → to_upper_case token.symbol ≡ token.symbol
    → at_address address inv ≡ true
    → fresh_at t inv ≡ true
    → of_token token inv ≡ true
    → competes now address token.symbol inv ≡ true
competes_at now t address token inv le upper local fresh asset =
    rw (local, upper, asset) (ground arith)

watched-In :
    (now t : ℕ) (address : Text) (chain : Chain) (token : EvmTokenSpec) (s : Store) (inv : Invoice)
    → now ≤ t
    → to_upper_case token.symbol ≡ token.symbol
    → In inv (watched t address chain token s)
    → In inv (open_invoices now chain s) × (competes now address token.symbol inv ≡ true)
unfolding watched
watched-In now t address chain token s inv le upper m =
    let opened = open_invoices t chain s in
    let here = keep (at_address address) opened in
    let (m1, asset) = In-keep (of_token token) inv (keep (fresh_at t) here) m in
    let (m2, fresh) = In-keep (fresh_at t) inv here m1 in
    let (m3, local) = In-keep (at_address address) inv opened m2 in
    let (m4, open_at) = In-keep (is_open t (some chain)) inv (good_files s.invoices) m3 in
    (
      In-keep_intro (is_open now (some chain)) inv (good_files s.invoices) m4
          (is_open_before now t chain inv le open_at),
      competes_at now t address token inv le upper local fresh asset,
    )

keep_last :
    (p : Invoice → Bool) (xs : List Invoice) (x : Invoice)
    → p x ≡ true
    → keep p (xs ++ x ∷ []) ≡ keep p xs ++ x ∷ []
keep_last p xs x h = keep-append p xs (x ∷ []) ∙ rw h refl

watched_last :
    (t : ℕ) (address : Text) (chain : Chain) (token : EvmTokenSpec) (s s' : Store) (new : Invoice)
    → good_files s'.invoices ≡ good_files s.invoices ++ new ∷ []
    → is_open t (some chain) new ≡ true
    → at_address address new ≡ true
    → fresh_at t new ≡ true
    → of_token token new ≡ true
    → watched t address chain token s' ≡ watched t address chain token s ++ new ∷ []
unfolding watched
watched_last t address chain token s s' new files opened local fresh asset =
    let before = good_files s.invoices in
    let step1 = keep_last (is_open t (some chain)) before new opened in
    let step2 = keep_last (at_address address) (open_invoices t chain s) new local in
    let here = keep (at_address address) (open_invoices t chain s) in
    let step3 = keep_last (fresh_at t) here new fresh in
    let step4 = keep_last (of_token token) (keep (fresh_at t) here) new asset in
    ap
      (λ xs.
        keep (of_token token)
          (keep (fresh_at t) (keep (at_address address) (keep (is_open t (some chain)) xs))))
      files
    ∙ ap (λ xs. keep (of_token token) (keep (fresh_at t) (keep (at_address address) xs))) step1
    ∙ ap (λ xs. keep (of_token token) (keep (fresh_at t) xs)) step2
    ∙ ap (λ xs. keep (of_token token) xs) step3
    ∙ step4

module _ (d : Double) (now : ℕ) (uuid : Text) (random : ℕ) (spec : EvmChainSpec)
    (token : EvmTokenSpec) (merchant : Merchant) (params : FixedParams d) where
  -- The watcher's list after the call: the competing invoices, then the new one.
  watched-create :
      (s : Store) {s' : Store} {r : FixedInvoice} (t : ℕ)
      → Created d now uuid random spec token merchant params s s' r
      → lookup (codes "inv_" ++ uuid) s.invoices ≡ none
      → to_upper_case token.symbol ≡ token.symbol
      → t < r.invoice.expires_at
      → watched t params.fixed_address spec.chain token s'
        ≡ watched t params.fixed_address spec.chain token s ++ r.invoice ∷ []
  unfolding create_invoice is_open
  watched-create s {s'} {r} t c fresh upper alive =
      let files = good_files-insert (codes "inv_" ++ uuid) r.invoice s.invoices fresh in
      watched_last t params.fixed_address spec.chain token s s' r.invoice
        (ground (arith, c.written, files)) (ground (arith, c.written, same_chain_refl spec.chain))
        (ground (arith, c.written, text_eq_refl (to_lower_case params.fixed_address)))
        (ground (arith, alive)) (ground (arith, c.written, upper, text_eq_refl token.symbol))

  new_nonce :
      (s : Store) {s' : Store} {r : FixedInvoice}
      → Created d now uuid random spec token merchant params s s' r
      → nonce_of r.amount_usdc_units r.invoice ≡ some r.nonce
  unfolding nonce_of create_invoice match_amount
  new_nonce s {s'} {r} c =
      let (units, floored, low, high) =
        Created-amount d now uuid random spec token merchant params c in
      ground (arith, c.written, c.units, big_int-to_string c.encoded.units)

  not_taken :
      (s : Store) {s' : Store} {r : FixedInvoice}
      → create_fixed d now uuid random spec token merchant params s ≡ (ok r, s')
      → (inv : Invoice)
      → In inv (open_invoices now spec.chain s)
        × (competes now params.fixed_address token.symbol inv ≡ true)
      → nonce_of r.amount_usdc_units inv ≡ none
  not_taken s {s'} {r} e inv (listed, same) =
      elim (Option-cases (nonce_of r.amount_usdc_units inv)) [
        | inl missed ↦ missed
        | inr (n, found) ↦
            let (exact, _, _, _) = nonce_of-some r.amount_usdc_units inv found in
            absurd (
              create_fixed_unique d now uuid random spec token merchant params s e inv listed same
                exact)
      ]

  -- Until it expires, a payment of exactly the quoted amount is matched to the new invoice and to no
  -- other, whatever else is pending: at any later time, on the same chain, address and token.
  pub quoted_payment_found :
      (s : Store) {s' : Store} {r : FixedInvoice} (t : ℕ)
      → create_fixed d now uuid random spec token merchant params s ≡ (ok r, s')
      → lookup (codes "inv_" ++ uuid) s.invoices ≡ none
      → to_upper_case token.symbol ≡ token.symbol
      → now ≤ t
      → t < r.invoice.expires_at
      → find_invoice_by_value
          (watched t params.fixed_address spec.chain token s')
          r.amount_usdc_units
        ≡ some (r.invoice, r.nonce)
  unfolding find_invoice_by_value
  quoted_payment_found s {s'} {r} t e fresh upper le alive =
      let c = create_fixed_ok d now uuid random spec token merchant params s e in
      let others = watched t params.fixed_address spec.chain token s in
      let missed : (inv : Invoice) → In inv others → nonce_of r.amount_usdc_units inv ≡ none =
        λ inv m.
          not_taken s e inv
            (watched-In now t params.fixed_address spec.chain token s inv le upper m) in
      rw (watched-create s t c fresh upper alive) (
        find-append r.amount_usdc_units others (r.invoice ∷ []) missed
        ∙ rw (new_nonce s c, find_invoice_by_value))
