-- ===== src/Cloud/Billing/Budget.antt =====
-- packages/cloud/src/billing.ts: how often a subscription can still be activated by `reconcile`.
use zettapay.Prelude.{
  ℕ, suc, ◌+◌, ◌≤◌, ◌≡◌, refl, ap, true, false, Option, none, some, List, [], ◌∷◌, Text, ◌===◌,
  ◌&&◌, text_eq_iff, if◌then◌else◌, arith, Bool-cases, inl, inr, keep, All,
}
use zettapay.Prelude.Dict.{Dict, lookup, map_found, IsFresh, HasDistinctKeys}
use zettapay.Listener.Types.{Invoice}
use zettapay.Cloud.Billing.Rows.{update_subscription-lookup, update_merchant-subscriptions}
use zettapay.Cloud.Billing.Stacked.{is_paid}
use zettapay.Cloud.Billing.{
  CloudDb, SubscriptionRow, SubscriptionPatch, patched, is_pending, is_pending_crypto, values,
  update_subscription, reconcile_one, reconcile_all, with_invoice, invoice_of, is_confirmed,
  to_active, to_status_only, expired, settle, settled_end,
}

-- 1 for a row that waits for its invoice, or is not there yet.
abbrev pub budget_of : Option SubscriptionRow → ℕ
budget_of none = 1
budget_of (some s) = if is_pending_crypto s then 1 else 0

abbrev pub open_of : Option SubscriptionRow → ℕ
open_of none = 0
open_of (some s) = if is_pending_crypto s then 1 else 0

abbrev pub budget : Text → CloudDb → ℕ
budget id d = budget_of (lookup id d.subscriptions)

-- Every row stands under its id.
abbrev pub HasIds : Dict SubscriptionRow → Type 0
HasIds = All (λ (entry : Text × SubscriptionRow). entry.1.id ≡ entry.0)

abbrev pub IsWellFormed : CloudDb → Type 0
IsWellFormed d = HasDistinctKeys d.subscriptions × HasIds d.subscriptions

budget_of-patched :
    (patch : SubscriptionPatch) (o : Option SubscriptionRow)
    → is_pending patch.to_status ≡ false
    → budget_of (map_found (patched patch) o) ≤ budget_of o
budget_of-patched patch none h = omega arith
budget_of-patched patch (some s) h = ground arith

-- An update to a status that is not pending opens nothing.
pub update_subscription-budget :
    (id j : Text) (patch : SubscriptionPatch) (d : CloudDb)
    → is_pending patch.to_status ≡ false
    → budget id (update_subscription j patch d) ≤ budget id d
update_subscription-budget id j patch d h =
    rw (update_subscription-lookup j id patch d)
      (ground (arith, budget_of-patched patch (lookup id d.subscriptions) h))

open_one :
    (o : Option SubscriptionRow) (n : ℕ)
    → suc n ≤ open_of o
    → ((open_of o ≡ 1) × (budget_of o ≡ 1)) × (n ≡ 0)
open_one none n h = absurd (omega arith)
open_one (some s) n h = ground arith

-- How many of the subscriptions have the id, and how many of these are paid.
abbrev pub count_id : Text → List SubscriptionRow → ℕ
count_id id [] = 0
count_id id (s ∷ subs) = if s.id === id then suc (count_id id subs) else count_id id subs

abbrev pub count_settled : (Text → Option Invoice) → Text → List SubscriptionRow → ℕ
count_settled get_invoice id [] = 0
count_settled get_invoice id (s ∷ subs) =
    if s.id === id && is_paid (invoice_of get_invoice s.invoice_id)
    then suc (count_settled get_invoice id subs)
    else count_settled get_invoice id subs

module _ (now : ℕ) (get_invoice : Text → Option Invoice) (id : Text) where
  count_settled-le :
      (subs : List SubscriptionRow) → count_settled get_invoice id subs ≤ count_id id subs
  count_settled-le [] = omega arith
  count_settled-le (s ∷ subs) = ground (arith, count_settled-le subs)

  settle-lookup :
      (s : SubscriptionRow) (d : CloudDb)
      → lookup id (settle now s d).subscriptions ≡ (
          if s.id === id
          then map_found (patched (to_active (settled_end now s d))) (lookup id d.subscriptions)
          else lookup id d.subscriptions)
  settle-lookup s d = rw (update_subscription-lookup s.id id, update_merchant-subscriptions) refl

  round-budget :
      (s : SubscriptionRow) (o : Option Invoice) (d : CloudDb)
      → budget id (with_invoice now s o d) ≤ budget id d
  round-budget s none d = omega arith
  round-budget s (some inv) d =
      let active =
        budget_of-patched (to_active (settled_end now s d)) (lookup id d.subscriptions) refl in
      let closed = update_subscription-budget id s.id (to_status_only expired) d refl in
      elim (Bool-cases (is_confirmed inv.status)) [
        | inl paid ↦ rw (paid, settle-lookup s d) (ground arith)
        | inr unpaid ↦ rw unpaid (ground arith)
      ]

  reconcile_all-budget :
      (subs : List SubscriptionRow) (d : CloudDb)
      → budget id (reconcile_all now get_invoice subs d) ≤ budget id d
  unfolding reconcile_all reconcile_one
  reconcile_all-budget [] d = omega arith
  reconcile_all-budget (s ∷ subs) d =
      let rest = reconcile_all-budget subs (reconcile_one now get_invoice s d) in
      let first = round-budget s (invoice_of get_invoice s.invoice_id) d in
      omega (arith, rest, first)

  -- A round leaves the rows of other ids alone, and closes that of a paid subscription.
  other_round-lookup :
      (s : SubscriptionRow) (o : Option Invoice) (d : CloudDb)
      → (s.id === id) ≡ false
      → lookup id (with_invoice now s o d).subscriptions ≡ lookup id d.subscriptions
  other_round-lookup s none d h = refl
  other_round-lookup s (some inv) d h =
      ground
        (arith, settle-lookup s d, update_subscription-lookup s.id id (to_status_only expired) d)

  paid_round-budget :
      (s : SubscriptionRow) (o : Option Invoice) (d : CloudDb)
      → (s.id === id) ≡ true
      → is_paid o ≡ true
      → open_of (lookup id d.subscriptions) ≡ 1
      → budget id (with_invoice now s o d) ≡ 0
  paid_round-budget s none d h p here = cc
  paid_round-budget s (some inv) d h p here = ground (arith, settle-lookup s d)

  -- With at most one subscription of the id, and its row open, the loop spends what it settles.
  pub reconcile_all-spends :
      (subs : List SubscriptionRow) (d : CloudDb)
      → count_id id subs ≤ open_of (lookup id d.subscriptions)
      → budget id (reconcile_all now get_invoice subs d) + count_settled get_invoice id subs
        ≤ budget id d
  unfolding reconcile_all reconcile_one
  reconcile_all-spends [] d h = omega arith
  reconcile_all-spends (s ∷ subs) d h =
      let o = invoice_of get_invoice s.invoice_id in
      let d' : CloudDb = reconcile_one now get_invoice s d in
      let rest = reconcile_all-budget subs d' in
      let first = round-budget s o d in
      let few = count_settled-le subs in
      elim (Bool-cases (s.id === id)) [
        | inl mine ↦
            let (here, last) =
              open_one (lookup id d.subscriptions) (count_id id subs) (rw mine at h) in
            elim (Bool-cases (is_paid o)) [
              | inl paid ↦
                  let spent = paid_round-budget s o d mine paid here.0 in
                  rw (mine, paid) (omega (arith, rest, spent, few, last, here.1))
              | inr unpaid ↦ rw (mine, unpaid) (omega (arith, rest, first, few, last))
            ]
        | inr other ↦
            let same = other_round-lookup s o d other in
            rw other (
              omega
                (arith, reconcile_all-spends subs d' (rw same (rw other at h)), ap budget_of same))
      ]

module _ (id : Text) where
  count_id-keep-fresh :
      (d : Dict SubscriptionRow)
      → HasIds d
      → IsFresh id d
      → count_id id (keep is_pending_crypto (values d)) ≡ 0
  count_id-keep-fresh [] ids fresh = refl
  count_id-keep-fresh ((k, s) ∷ d) ids fresh =
      ground (arith, text_eq_iff s.id id, count_id-keep-fresh d ids.1 fresh.1)

  -- The snapshot holds a row at most once, and only if it is open.
  pub count_id-pending :
      (d : Dict SubscriptionRow)
      → HasDistinctKeys d
      → HasIds d
      → count_id id (keep is_pending_crypto (values d)) ≤ open_of (lookup id d)
  unfolding lookup
  count_id-pending [] distinct ids = omega arith
  count_id-pending ((k, s) ∷ d) distinct ids = elim (Bool-cases (k === id)) [
    | inl mine ↦
        let same = (text_eq_iff k id).0 mine in
        let none_left = count_id-keep-fresh d ids.1 (rw (← same) distinct.0) in
        rw mine (ground (arith, text_eq_iff s.id id))
    | inr other ↦
        rw other (
          ground
            (arith, text_eq_iff s.id id, text_eq_iff k id, count_id-pending d distinct.1 ids.1))
  ]
