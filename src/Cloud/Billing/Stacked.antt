-- ===== src/Cloud/Billing/Stacked.antt =====
-- packages/cloud/src/billing.ts: the periods that `reconcile` adds up.
use zettapay.Prelude.{
  ℕ, zero, suc, ◌+◌, ◌*◌, max, ◌≡◌, refl, ap, ◌∙◌, Bool, true, false, Option, none, some, List, [],
  ◌∷◌, Text, ◌===◌, text_eq_iff, text_eq_refl, ◌&&◌, if◌then◌else◌, arith, Bool-cases, inl, inr,
  All,
}
use zettapay.Prelude.Dict.{lookup}
use zettapay.Cloud.Billing.Rows.{update_subscription-merchants, update_merchant-lookup}
use zettapay.Listener.Types.{Invoice}
use zettapay.Cloud.Billing.{
  CloudDb, MerchantRow, SubscriptionRow, get_merchant, reconcile_one, reconcile_all, reconcile,
  with_invoice, invoice_of, is_confirmed, is_plan, or_zero, crypto_period_ms, to_status_only,
  expired, list_pending_crypto_subscriptions,
}

-- The invoice is there and confirmed.
abbrev pub is_paid : Option Invoice → Bool
is_paid none = false
is_paid (some inv) = is_confirmed inv.status

-- The end of the plan that a merchant is on, if that is the plan and it has an end.
abbrev pub time_left : Text → Option Text → Option ℕ → ℕ
time_left plan none ends = 0
time_left plan (some current) none = 0
time_left plan (some current) (some ends) = if current === plan then ends else 0

current_end-time_left :
    (plan : Text) (current : Option Text) (ends : Option ℕ)
    → (if is_plan plan current then or_zero ends else 0) ≡ time_left plan current ends
current_end-time_left plan none ends = refl
current_end-time_left plan (some current) none = ground arith
current_end-time_left plan (some current) (some ends) = refl

module _ (now : ℕ) (get_invoice : Text → Option Invoice) (m plan : Text) where
  -- How many of the subscriptions are the merchant's and paid.
  abbrev pub count_paid : List SubscriptionRow → ℕ
  count_paid [] = 0
  count_paid (s ∷ subs) =
      if s.merchant_id === m && is_paid (invoice_of get_invoice s.invoice_id)
      then suc (count_paid subs)
      else count_paid subs

  -- All of these are for the plan.
  abbrev pub AreFor : List SubscriptionRow → Type 0
  AreFor = All (λ s.
      (s.merchant_id === m && is_paid (invoice_of get_invoice s.invoice_id)) ≡ true → s.plan ≡ plan)

  -- The row of a merchant who has paid for that many periods.
  abbrev pub extended : ℕ → MerchantRow → MerchantRow
  extended zero row = row
  extended (suc n) row = record row {
    plan = some plan;
    plan_expires_at =
        some (max now (time_left plan row.plan row.plan_expires_at) + suc n * crypto_period_ms);
  }

  extended-extended :
      (n : ℕ) (row : MerchantRow) → extended n (extended 1 row) ≡ extended (suc n) row
  extended-extended zero row = refl
  extended-extended (suc n) row = ground (arith, text_eq_refl plan)

  other_round :
      (s : SubscriptionRow) (d : CloudDb) (o : Option Invoice)
      → (s.merchant_id === m && is_paid o) ≡ false
      → lookup m (with_invoice now s o d).merchants ≡ lookup m d.merchants
  other_round s d none h = refl
  other_round s d (some inv) h = elim (Bool-cases (is_confirmed inv.status)) [
    | inl paid ↦ rw (paid, update_subscription-merchants, update_merchant-lookup) (ground arith)
    | inr unpaid ↦
        rw unpaid (ground (arith, update_subscription-merchants s.id (to_status_only expired) d))
  ]

  paid_round :
      (s : SubscriptionRow) (d : CloudDb) (row : MerchantRow) (o : Option Invoice)
      → (s.merchant_id === m && is_paid o) ≡ true
      → s.plan ≡ plan
      → lookup m d.merchants ≡ some row
      → lookup m (with_invoice now s o d).merchants ≡ some (extended 1 row)
  unfolding get_merchant
  paid_round s d row none h p found = ground arith
  paid_round s d row (some inv) h p found =
      let mine = (text_eq_iff s.merchant_id m).0 (ground arith) in
      let paid : is_confirmed inv.status ≡ true = ground arith in
      rw
        (
          paid,
          update_subscription-merchants,
          update_merchant-lookup,
          mine,
          text_eq_refl m,
          found,
          p,
          current_end-time_left,
        )
        refl

  round-lookup :
      (s : SubscriptionRow) (subs : List SubscriptionRow) (d : CloudDb) (row : MerchantRow)
      → AreFor (s ∷ subs)
      → lookup m d.merchants ≡ some row
      → (b : Bool) → (s.merchant_id === m && is_paid (invoice_of get_invoice s.invoice_id)) ≡ b
      → lookup m (reconcile_one now get_invoice s d).merchants
        ≡ some (if b then extended 1 row else row)
  unfolding reconcile_one
  round-lookup s subs d row same found true h = paid_round s d row _ h (same.0 h) found
  round-lookup s subs d row same found false h = other_round s d _ h ∙ found

  reconcile_all-lookup :
      (subs : List SubscriptionRow) (d : CloudDb) (row : MerchantRow)
      → AreFor subs
      → lookup m d.merchants ≡ some row
      → lookup m (reconcile_all now get_invoice subs d).merchants
        ≡ some (extended (count_paid subs) row)
  unfolding reconcile_all
  reconcile_all-lookup [] d row same found = found
  reconcile_all-lookup (s ∷ subs) d row same found =
      let round = round-lookup s subs d row same found in
      elim (Bool-cases (s.merchant_id === m && is_paid (invoice_of get_invoice s.invoice_id))) [
        | inl paid ↦
            rw
              (
                paid,
                reconcile_all-lookup subs (reconcile_one now get_invoice s d) (extended 1 row)
                    same.1 (round true paid),
              )
              (ap some (extended-extended (count_paid subs) row))
        | inr unpaid ↦ rw unpaid (reconcile_all-lookup subs _ row same.1 (round false unpaid))
      ]

  -- If all that a merchant has paid for, and `reconcile` has not settled, is one plan, then
  -- `reconcile` puts the merchant on it until 30 days for each paid subscription have passed since
  -- the end of the time that is left on it, or since now if there is none; a merchant on another plan,
  -- or on this plan without an end, counts as one with none left. With nothing paid the row stays as
  -- it is.
  pub reconcile_stacks :
      (d : CloudDb) (row : MerchantRow)
      → AreFor (list_pending_crypto_subscriptions d)
      → lookup m d.merchants ≡ some row
      → lookup m (reconcile now get_invoice d).merchants
        ≡ some (extended (count_paid (list_pending_crypto_subscriptions d)) row)
  unfolding reconcile
  reconcile_stacks d row same found =
      reconcile_all-lookup (list_pending_crypto_subscriptions d) d row same found
