-- ===== src/Cloud/Billing/Updates.antt =====
-- packages/cloud/src/billing.ts: all but the checkout changes the rows by updates that make no
-- subscription pending.
use zettapay.Prelude.{
  ℕ, ◌≤◌, ◌≡◌, refl, Bool, false, not, ◌||◌, Option, none, some, List, [], ◌∷◌, Text, ◌===◌, arith,
  text_eq_iff, Bool-cases, inl, inr,
}
use zettapay.Prelude.Dict.{Dict, lookup, insert, update_at, HasDistinctKeys, HasDistinctKeys-insert}
use zettapay.Listener.Types.{Invoice}
use zettapay.Cloud.Billing.Rows.{update_merchant-subscriptions}
use zettapay.Cloud.Billing.Budget.{budget, HasIds, IsWellFormed, update_subscription-budget}
use zettapay.Cloud.Billing.{
  CloudDb, MerchantRow, SubscriptionRow, SubscriptionPatch, patched, is_pending,
  update_subscription, update_merchant, reconcile_one, reconcile_all, reconcile, with_invoice,
  invoice_of, is_confirmed, is_closed, list_pending_crypto_subscriptions, StripeObject, StripeEvent,
  checkout_session_completed, invoice_paid, customer_subscription_deleted, other_event,
  handle_stripe_event, completed, mark_row, renewed, cancelled, downgrade, is_plan, text_or,
  is_empty,
}

pub data Updates (d : CloudDb) : CloudDb → Type 0 where
  stays : Updates d d
  closes :
      {d' : CloudDb} (id : Text) (patch : SubscriptionPatch)
      → Updates d d'
      → is_pending patch.to_status ≡ false
      → Updates d (update_subscription id patch d')
  replans :
      {d' : CloudDb} (id plan : Text) (period_end : Option ℕ)
      → Updates d d'
      → Updates d (update_merchant id plan period_end d')

pub Updates-budget : (id : Text) {d d' : CloudDb} → Updates d d' → budget id d' ≤ budget id d
Updates-budget id stays = omega arith
Updates-budget id (closes {d'} j patch u h) =
    omega (arith, Updates-budget id u, update_subscription-budget id j patch d' h)
Updates-budget id (replans {d'} j plan period_end u) =
    rw (update_merchant-subscriptions j plan period_end d') (Updates-budget id u)

HasIds-lookup :
    (k : Text) (d : Dict SubscriptionRow) (s : SubscriptionRow)
    → HasIds d
    → lookup k d ≡ some s
    → s.id ≡ k
unfolding lookup
HasIds-lookup k [] s h e = cc
HasIds-lookup k ((j, v) ∷ d) s h e = elim (Bool-cases (j === k)) [
  | inl mine ↦ ground (arith, text_eq_iff j k)
  | inr other ↦ HasIds-lookup k d s h.1 (rw other at e)
]

HasIds-insert :
    (k : Text) (d : Dict SubscriptionRow) (s : SubscriptionRow)
    → s.id ≡ k
    → HasIds d
    → HasIds (insert k s d)
unfolding insert
HasIds-insert k [] s e h = (e, tt)
HasIds-insert k ((j, v) ∷ d) s e h = ground (arith, HasIds-insert k d s e h.1)

pub insert-IsWellFormed :
    (s : SubscriptionRow) (d : Dict SubscriptionRow) (k : Text)
    → s.id ≡ k
    → HasDistinctKeys d × HasIds d
    → HasDistinctKeys (insert k s d) × HasIds (insert k s d)
insert-IsWellFormed s d k e h = (HasDistinctKeys-insert k s d h.0, HasIds-insert k d s e h.1)

update_at-IsWellFormed :
    (k : Text) (patch : SubscriptionPatch) (d : Dict SubscriptionRow) (o : Option SubscriptionRow)
    → lookup k d ≡ o
    → HasDistinctKeys d × HasIds d
    → HasDistinctKeys (update_at k (patched patch) d) × HasIds (update_at k (patched patch) d)
unfolding update_at
update_at-IsWellFormed k patch d none e h = rw e h
update_at-IsWellFormed k patch d (some s) e h =
    rw e (insert-IsWellFormed (patched patch s) d k (HasIds-lookup k d s h.1 e) h)

pub Updates-IsWellFormed : {d d' : CloudDb} → Updates d d' → IsWellFormed d → IsWellFormed d'
unfolding update_subscription update_merchant
Updates-IsWellFormed stays h = h
Updates-IsWellFormed (closes {d'} j patch u closed) h =
    update_at-IsWellFormed j patch d'.subscriptions _ refl (Updates-IsWellFormed u h)
Updates-IsWellFormed (replans j plan period_end u) h = Updates-IsWellFormed u h

round-Updates :
    {d : CloudDb} (now : ℕ) (s : SubscriptionRow) (o : Option Invoice) (d' : CloudDb)
    → Updates d d'
    → Updates d (with_invoice now s o d')
round-Updates now s none d' u = u
round-Updates now s (some inv) d' u = elim (Bool-cases (is_confirmed inv.status)) [
  | inl paid ↦ rw paid (closes _ _ (replans _ _ _ u) refl)
  | inr unpaid ↦ elim (Bool-cases (is_closed now inv.status inv.expires_at)) [
    | inl closed ↦ rw (unpaid, closed) (closes _ _ u refl)
    | inr waits ↦ rw (unpaid, waits) u
  ]
]

reconcile_all-Updates :
    {d : CloudDb} (now : ℕ) (get_invoice : Text → Option Invoice) (subs : List SubscriptionRow)
    (d' : CloudDb)
    → Updates d d'
    → Updates d (reconcile_all now get_invoice subs d')
unfolding reconcile_all reconcile_one
reconcile_all-Updates now get_invoice [] d' u = u
reconcile_all-Updates now get_invoice (s ∷ subs) d' u =
    reconcile_all-Updates now get_invoice subs _
      (round-Updates now s (invoice_of get_invoice s.invoice_id) d' u)

pub reconcile-Updates :
    (now : ℕ) (get_invoice : Text → Option Invoice) (d : CloudDb)
    → Updates d (reconcile now get_invoice d)
unfolding reconcile
reconcile-Updates now get_invoice d =
    reconcile_all-Updates now get_invoice (list_pending_crypto_subscriptions d) d stays

mark_row-Updates :
    {d : CloudDb} (row_id : Text) (stripe_id : Option Text) (period_end : ℕ) (d' : CloudDb)
    → Updates d d'
    → Updates d (mark_row row_id stripe_id period_end d')
mark_row-Updates [] stripe_id period_end d' u = u
mark_row-Updates (c ∷ row_id) stripe_id period_end d' u = closes _ _ u refl

renewed-Updates :
    (now : ℕ) (obj : StripeObject) (d : CloudDb) (o : Option SubscriptionRow)
    → Updates d (renewed now obj d o)
renewed-Updates now obj d none = stays
renewed-Updates now obj d (some sub) = closes _ _ (replans _ _ _ stays) refl

downgrade-Updates :
    {d : CloudDb} (sub : SubscriptionRow) (o : Option MerchantRow) (d' : CloudDb)
    → Updates d d'
    → Updates d (downgrade sub o d')
downgrade-Updates sub none d' u = u
downgrade-Updates sub (some m) d' u = elim (Bool-cases (is_plan sub.plan m.plan)) [
  | inl same ↦ rw same (replans _ _ _ u)
  | inr other ↦ rw other u
]

cancelled-Updates : (d : CloudDb) (o : Option SubscriptionRow) → Updates d (cancelled d o)
cancelled-Updates d none = stays
cancelled-Updates d (some sub) = downgrade-Updates sub _ _ (closes _ _ stays refl)

completed-Updates :
    (is_price : Text → Bool) (now : ℕ) (obj : StripeObject) (d : CloudDb)
    → Updates d (completed is_price now obj d)
completed-Updates is_price now obj d =
    let merchant_id = text_or obj.metadata_merchant_id (text_or obj.client_reference_id []) in
    let plan = text_or obj.metadata_plan [] in
    elim (Bool-cases (is_empty merchant_id || is_empty plan || not (is_price plan))) [
      | inl nothing ↦ rw nothing stays
      | inr something ↦
          rw something (
            mark_row-Updates (text_or obj.metadata_subscription_row []) _ _ _ (replans _ _ _ stays))
    ]

pub handle_stripe_event-Updates :
    (is_price : Text → Bool) (now : ℕ) (event : StripeEvent) (d : CloudDb)
    → Updates d (handle_stripe_event is_price now event d)
unfolding handle_stripe_event
handle_stripe_event-Updates is_price now (checkout_session_completed obj) d =
    completed-Updates is_price now obj d
handle_stripe_event-Updates is_price now (invoice_paid obj) d = renewed-Updates now obj d _
handle_stripe_event-Updates is_price now (customer_subscription_deleted obj) d =
    cancelled-Updates d _
handle_stripe_event-Updates is_price now other_event d = stays
