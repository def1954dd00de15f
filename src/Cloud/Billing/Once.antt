-- ===== src/Cloud/Billing/Once.antt =====
-- packages/cloud/src/billing.ts: how often an invoice pays, over any run of the service.
use zettapay.Prelude.{
  ℕ, ◌+◌, ◌≤◌, ◌≡◌, refl, Bool, not, ◌&&◌, ◌||◌, Option, none, some, List, [], ◌∷◌, Text, ◌===◌,
  arith, text_eq_iff, Bool-cases, inl, inr,
}
use zettapay.Prelude.Dict.{lookup, lookup-insert}
use zettapay.Listener.Types.{Invoice}
use zettapay.Cloud.Billing.Budget.{
  budget, budget_of, IsWellFormed, count_settled, count_id-pending, reconcile_all-spends,
}
use zettapay.Cloud.Billing.Updates.{
  Updates-budget, Updates-IsWellFormed, reconcile-Updates, handle_stripe_event-Updates,
  insert-IsWellFormed,
}
use zettapay.Cloud.Billing.Checkout.{
  Options, Outside, ChainConfig, Session, create_checkout, with_price, with_method, by_method,
  with_config, with_invoice_id, with_session, create_crypto_checkout, create_stripe_checkout,
  price_for, method_named, takes, filled, price_id,
}
use zettapay.Cloud.Billing.{
  CloudDb, SubscriptionRow, reconcile, list_pending_crypto_subscriptions, insert_subscription,
  StripeEvent, handle_stripe_event, Method, crypto, stripe,
}

-- The rows stay as they are, or one row of the id is inserted.
data IsCheckedOut (uuid : Text) (d : CloudDb) : CloudDb → Type 0 where
  refused : IsCheckedOut uuid d d
  inserted : (s : SubscriptionRow) → s.id ≡ uuid → IsCheckedOut uuid d (insert_subscription s d)

module _ (o : Options) (outside : Outside) (uuid : Text) (now : ℕ) (merchant_id : Text)
    (d : CloudDb) where
  with_invoice_id-IsCheckedOut :
      (plan : Text) (amount : ℕ) (i : Option Text)
      → IsCheckedOut uuid d (with_invoice_id o outside uuid now merchant_id plan amount d i).1
  with_invoice_id-IsCheckedOut plan amount none = refused
  with_invoice_id-IsCheckedOut plan amount (some i) = inserted _ refl

  with_config-IsCheckedOut :
      (plan : Text) (amount : ℕ) (asset : Text) (c : Option ChainConfig)
      → IsCheckedOut uuid d (with_config o outside uuid now merchant_id plan amount asset d c).1
  with_config-IsCheckedOut plan amount asset none = refused
  with_config-IsCheckedOut plan amount asset (some cfg) = elim (Bool-cases (filled cfg.xpub)) [
    | inl xpub ↦ rw xpub (with_invoice_id-IsCheckedOut plan amount _)
    | inr no_xpub ↦ elim (Bool-cases (filled cfg.fixed_address)) [
      | inl fixed ↦ rw (no_xpub, fixed) (with_invoice_id-IsCheckedOut plan amount _)
      | inr bare ↦ rw (no_xpub, bare) refused
    ]
  ]

  with_session-IsCheckedOut :
      (plan : Text) (amount : ℕ) (s : Option Session)
      → IsCheckedOut uuid d (with_session o outside uuid now merchant_id plan amount d s).1
  with_session-IsCheckedOut plan amount none = refused
  with_session-IsCheckedOut plan amount (some s) = elim (Bool-cases (filled s.url)) [
    | inl url ↦ rw url (inserted _ refl)
    | inr no_url ↦ rw no_url refused
  ]

  by_method-IsCheckedOut :
      (plan : Text) (amount : ℕ) (asset : Text) (method : Method)
      → IsCheckedOut uuid d (by_method o outside uuid now merchant_id plan amount asset d method).1
  unfolding create_crypto_checkout create_stripe_checkout
  by_method-IsCheckedOut plan amount asset crypto =
      elim (Bool-cases (not (filled o.billing_merchant_id && filled o.site_url))) [
        | inl off ↦ rw off refused
        | inr on ↦ rw on (with_config-IsCheckedOut plan amount asset outside.chain_config)
      ]
  by_method-IsCheckedOut plan amount asset stripe =
      let id = price_id plan o.stripe_config in
      elim (Bool-cases (not (filled (some id)) || not (filled o.site_url))) [
        | inl off ↦ rw off refused
        | inr on ↦ rw on (with_session-IsCheckedOut plan amount (outside.session id))
      ]

  with_method-IsCheckedOut :
      (plan : Text) (amount : ℕ) (asset : Text) (m : Option Method)
      → IsCheckedOut uuid d (with_method o outside uuid now merchant_id plan amount asset d m).1
  with_method-IsCheckedOut plan amount asset none = refused
  with_method-IsCheckedOut plan amount asset (some method) = elim (Bool-cases (takes o method)) [
    | inl on ↦ rw on (by_method-IsCheckedOut plan amount asset method)
    | inr off ↦ rw off refused
  ]

  with_price-IsCheckedOut :
      (plan method asset : Text) (p : Option ℕ)
      → IsCheckedOut uuid d (with_price o outside uuid now merchant_id plan method asset d p).1
  with_price-IsCheckedOut plan method asset none = refused
  with_price-IsCheckedOut plan method asset (some amount) =
      with_method-IsCheckedOut plan amount asset (method_named method)

  create_checkout-IsCheckedOut :
      (plan method asset : Text)
      → IsCheckedOut uuid d (create_checkout o outside uuid now merchant_id plan method asset d).1
  unfolding create_checkout
  create_checkout-IsCheckedOut plan method asset =
      with_price-IsCheckedOut plan method asset (price_for o plan)

budget-le : (o : Option SubscriptionRow) → budget_of o ≤ 1
budget-le none = omega arith
budget-le (some s) = ground arith

checkout-budget :
    (id uuid : Text) {d d' : CloudDb}
    → lookup uuid d.subscriptions ≡ none
    → IsCheckedOut uuid d d'
    → budget id d' ≤ budget id d
unfolding insert_subscription
checkout-budget id uuid free refused = omega arith
checkout-budget id uuid {d} free (inserted s e) =
    rw (lookup-insert s.id id s d.subscriptions) (elim (Bool-cases (s.id === id)) [
      | inl mine ↦
          let same = (text_eq_iff s.id id).0 mine in
          let absent : lookup id d.subscriptions ≡ none = rw (← same, e) free in
          rw (mine, absent) (budget-le (some s))
      | inr other ↦ rw other (omega arith)
    ])

checkout-IsWellFormed :
    (uuid : Text) {d d' : CloudDb} → IsWellFormed d → IsCheckedOut uuid d d' → IsWellFormed d'
unfolding insert_subscription
checkout-IsWellFormed uuid h refused = h
checkout-IsWellFormed uuid {d} h (inserted s e) = insert-IsWellFormed s d.subscriptions s.id refl h

-- A merchant checks out, a timer reconciles, or Stripe reports an event.
pub data Event : Type 0 where
  checks_out : Options → Outside → Text → ℕ → Text → Text → Text → Text → Event
  reconciles : ℕ → (Text → Option Invoice) → Event
  receives : (Text → Bool) → ℕ → StripeEvent → Event

unfoldable pub happens : Event → CloudDb → CloudDb
happens (checks_out o outside uuid now merchant_id plan method asset) d =
    (create_checkout o outside uuid now merchant_id plan method asset d).1
happens (reconciles now get_invoice) d = reconcile now get_invoice d
happens (receives is_price now event) d = handle_stripe_event is_price now event d

-- How often the event has a paid invoice activate the plan of the subscription.
unfoldable pub activations : Text → Event → CloudDb → ℕ
activations id (reconciles now get_invoice) d =
    count_settled get_invoice id (list_pending_crypto_subscriptions d)
activations id (checks_out _ _ _ _ _ _ _ _) d = 0
activations id (receives _ _ _) d = 0

unfoldable pub all_activations : Text → List Event → CloudDb → ℕ
all_activations id [] d = 0
all_activations id (e ∷ es) d = activations id e d + all_activations id es (happens e d)

-- `randomUUID` returns no id that is taken.
abbrev pub IsFreshEvent : Event → CloudDb → Type 0
IsFreshEvent (checks_out o outside uuid now merchant_id plan method asset) d =
    lookup uuid d.subscriptions ≡ none
IsFreshEvent (reconciles _ _) d = Unit
IsFreshEvent (receives _ _ _) d = Unit

abbrev pub AreFresh : List Event → CloudDb → Type 0
AreFresh [] d = Unit
AreFresh (e ∷ es) d = IsFreshEvent e d × AreFresh es (happens e d)

happens-IsWellFormed : (e : Event) (d : CloudDb) → IsWellFormed d → IsWellFormed (happens e d)
unfolding happens
happens-IsWellFormed (checks_out o outside uuid now merchant_id plan method asset) d h =
    checkout-IsWellFormed uuid h
      (create_checkout-IsCheckedOut o outside uuid now merchant_id d plan method asset)
happens-IsWellFormed (reconciles now get_invoice) d h =
    Updates-IsWellFormed (reconcile-Updates now get_invoice d) h
happens-IsWellFormed (receives is_price now event) d h =
    Updates-IsWellFormed (handle_stripe_event-Updates is_price now event d) h

happens-spends :
    (id : Text) (e : Event) (d : CloudDb)
    → IsWellFormed d
    → IsFreshEvent e d
    → budget id (happens e d) + activations id e d ≤ budget id d
unfolding happens activations reconcile list_pending_crypto_subscriptions
happens-spends id (checks_out o outside uuid now merchant_id plan method asset) d h fresh =
    let spent =
      checkout-budget id uuid fresh
        (create_checkout-IsCheckedOut o outside uuid now merchant_id d plan method asset) in
    omega (arith, spent)
happens-spends id (reconciles now get_invoice) d h fresh =
    reconcile_all-spends now get_invoice id _ d (count_id-pending id d.subscriptions h.0 h.1)
happens-spends id (receives is_price now event) d h fresh =
    omega (arith, Updates-budget id (handle_stripe_event-Updates is_price now event d))

run-spends :
    (id : Text) (es : List Event) (d : CloudDb)
    → IsWellFormed d
    → AreFresh es d
    → all_activations id es d ≤ budget id d
unfolding all_activations
run-spends id [] d h fresh = omega arith
run-spends id (e ∷ es) d h fresh =
    let rest = run-spends id es (happens e d) (happens-IsWellFormed e d h) fresh.1 in
    let first = happens-spends id e d h fresh.0 in omega (arith, rest, first)

-- Over any run of checkouts, reconciliations and events of Stripe, a paid invoice activates the plan
-- of its subscription at most once, if the tables start well-formed and new ids are not taken.
pub paid_once :
    (id : Text) (es : List Event) (d : CloudDb)
    → IsWellFormed d
    → AreFresh es d
    → all_activations id es d ≤ 1
paid_once id es d h fresh =
    let spent = run-spends id es d h fresh in
    omega (arith, spent, budget-le (lookup id d.subscriptions))
