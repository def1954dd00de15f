-- ===== src/Cloud/Billing/Checkout.antt =====
-- packages/cloud/src/billing.ts: `createCheckout`. How the platform's own invoice is made, and the
-- answer of Stripe, are parameters; a refusal of theirs is passed on.
use zettapay.Prelude.{
  ℕ, Bool, true, false, not, ◌&&◌, ◌||◌, Option, none, some, [], ◌∷◌, Text, codes, ◌===◌, ◌==◌,
  is_some, if◌then◌else◌, trim, to_lower_case, ◌++◌,
}
use zettapay.Prelude.Dict.{Dict, lookup}
use zettapay.Cloud.Billing.Tables.{
  CloudDb, SubscriptionRow, Method, crypto, stripe, Status, insert_subscription,
}

pub data Code : Type 0 where
  unknown_plan method_unavailable stripe_error invoice_failed : Code

pub data Result {ℓ} (A : Type ℓ) : Type ℓ where
  ok : A → Result A
  err : Code → Result A

pub record StripeConfig : Type 0 where
  pub price_ids : Dict Text

pub record Options : Type 0 where
  pub prices : Dict ℕ
  pub billing_merchant_id : Option Text
  pub stripe_config : Option StripeConfig
  pub site_url : Option Text

-- The platform's chain configuration for Base.
pub record ChainConfig : Type 0 where
  pub xpub : Option Text
  pub fixed_address : Option Text

-- What Stripe answers to the request for a session; `none` for a member that is absent.
pub record Session : Type 0 where
  pub id : Option Text
  pub url : Option Text

-- The environment of a call: the configuration, the two ways to make an invoice for an asset, which
-- return its id, and the answer of Stripe; `none` is a refusal.
pub record Outside : Type 0 where
  pub chain_config : Option ChainConfig
  pub base_invoice : Text → Option Text
  pub fixed_invoice : Text → Text → Option Text
  pub session : Text → Option Session

pub record CheckoutResult : Type 0 where
  pub subscription_id : Text
  pub method : Method
  pub plan : Text
  pub amount_usd : ℕ
  pub checkout_url : Text
  pub invoice_id : Option Text

abbrev pub Answer : Type 0
Answer = Result CheckoutResult × CloudDb

-- A price that is positive, and no member that every object inherits.
unfoldable pub price_for : Options → Text → Option ℕ
price_for o plan = elim (lookup plan o.prices) [
  | none ↦ none
  | some price ↦ if price == 0 then none else some price
]

-- A text that is there and not empty.
abbrev pub filled : Option Text → Bool
filled none = false
filled (some []) = false
filled (some (c ∷ s)) = true

abbrev pub takes : Options → Method → Bool
takes o crypto = filled o.billing_merchant_id && filled o.site_url
takes o stripe = is_some o.stripe_config && filled o.site_url

abbrev pub method_named : Text → Option Method
method_named s =
    if s === codes "crypto" then some crypto else if s === codes "stripe" then some stripe else none

abbrev pub asset_of : Text → Text
asset_of asset = if to_lower_case (trim asset) === codes "usdt" then codes "usdt" else codes "usdc"

abbrev pub or_empty : Option Text → Text
or_empty none = []
or_empty (some s) = s

abbrev pub price_id : Text → Option StripeConfig → Text
price_id plan none = []
price_id plan (some cfg) = or_empty (lookup plan cfg.price_ids)

module _ (o : Options) (outside : Outside) (uuid : Text) (now : ℕ) (merchant_id plan : Text)
    (amount_usd : ℕ) where
  abbrev pub new_row : Method → Option Text → Option Text → SubscriptionRow
  new_row method invoice_id session_id = record {
    id = uuid;
    merchant_id = merchant_id;
    plan = plan;
    method = method;
    status = Status.pending;
    invoice_id = invoice_id;
    stripe_session_id = session_id;
    stripe_subscription_id = none;
    amount_usd = amount_usd;
    period_end = none;
    created_at = now;
  }

  abbrev pub with_invoice_id : CloudDb → Option Text → Answer
  with_invoice_id d none = (err invoice_failed, d)
  with_invoice_id d (some invoice_id) = (
    ok (record {
      subscription_id = uuid;
      method = crypto;
      plan = plan;
      amount_usd = amount_usd;
      checkout_url = or_empty o.site_url ++ (codes "/checkout/" ++ invoice_id);
      invoice_id = some invoice_id;
    }),
    insert_subscription (new_row crypto (some invoice_id) none) d,
  )

  abbrev pub with_config : Text → CloudDb → Option ChainConfig → Answer
  with_config asset d none = (err method_unavailable, d)
  with_config asset d (some cfg) =
      if filled cfg.xpub
      then with_invoice_id d (outside.base_invoice (or_empty cfg.xpub))
      else if filled cfg.fixed_address
      then with_invoice_id d (outside.fixed_invoice (or_empty cfg.fixed_address) (asset_of asset))
      else (err method_unavailable, d)

  unfoldable pub create_crypto_checkout : Text → CloudDb → Answer
  create_crypto_checkout asset d =
      if not (filled o.billing_merchant_id && filled o.site_url)
      then (err method_unavailable, d)
      else with_config asset d outside.chain_config

  abbrev pub with_session : CloudDb → Option Session → Answer
  with_session d none = (err stripe_error, d)
  with_session d (some session) = if not (filled session.url) then (err stripe_error, d) else (
    ok (record {
      subscription_id = uuid;
      method = stripe;
      plan = plan;
      amount_usd = amount_usd;
      checkout_url = or_empty session.url;
      invoice_id = none;
    }),
    insert_subscription (new_row stripe none session.id) d,
  )

  unfoldable pub create_stripe_checkout : CloudDb → Answer
  create_stripe_checkout d =
      if not (filled (some (price_id plan o.stripe_config))) || not (filled o.site_url)
      then (err method_unavailable, d)
      else with_session d (outside.session (price_id plan o.stripe_config))

  abbrev pub by_method : Text → CloudDb → Method → Answer
  by_method asset d crypto = create_crypto_checkout asset d
  by_method asset d stripe = create_stripe_checkout d

  abbrev pub with_method : Text → CloudDb → Option Method → Answer
  with_method asset d none = (err method_unavailable, d)
  with_method asset d (some method) =
      if takes o method then by_method asset d method else (err method_unavailable, d)

abbrev pub with_price :
    Options → Outside → Text → ℕ → Text → Text → Text → Text → CloudDb → Option ℕ → Answer
with_price o outside uuid now merchant_id plan method asset d none = (err unknown_plan, d)
with_price o outside uuid now merchant_id plan method asset d (some amount_usd) =
    with_method o outside uuid now merchant_id plan amount_usd asset d (method_named method)

unfoldable pub create_checkout :
    Options → Outside → Text → ℕ → Text → Text → Text → Text → CloudDb → Answer
create_checkout o outside uuid now merchant_id plan method asset d =
    with_price o outside uuid now merchant_id plan method asset d (price_for o plan)
