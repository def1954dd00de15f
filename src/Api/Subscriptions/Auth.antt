-- ===== src/Api/Subscriptions/Auth.antt =====
-- packages/api/src/lib/subscription-auth.ts: the customer's consent, checked at every charge. base58,
-- ed25519 and the text of a number are parameters.
use zettapay.Prelude.{
  ℕ, Bool, not, Option, none, some, List, ◌++◌, Text, codes, ◌===◌, length, ◌==◌, if◌then◌else◌,
}
use zettapay.Api.Subscriptions.Tables.{
  Subscription, SubscriptionInterval, daily, weekly, monthly, SubscriptionAuthorization,
  SubscriptionAuthErrorCode, invalid_public_key, invalid_signature, wallet_mismatch,
}

pub record Signing (Amount : Type 0) : Type 0 where
  pub base58 : Text → Option (List ℕ)
  pub ed25519 : List ℕ → Text → List ℕ → Bool
  pub show_amount : Amount → Text

abbrev pub interval_name : SubscriptionInterval → Text
interval_name daily = codes "daily"
interval_name weekly = codes "weekly"
interval_name monthly = codes "monthly"

module _ {Amount : Type 0} (signing : Signing Amount) where
  -- The binding is read from the row.
  unfoldable pub build_authorization_message : Subscription Amount → Text
  build_authorization_message s =
      codes "ZETTAPAY-SUBSCRIPTION-AUTH-V1\n"
      ++ codes "subscriptionId="
      ++ s.id
      ++ codes "\nmerchantId="
      ++ s.merchant_id
      ++ codes "\ncustomerWallet="
      ++ s.customer_wallet
      ++ codes "\namount="
      ++ signing.show_amount s.amount
      ++ codes "\ncurrency="
      ++ s.currency
      ++ codes "\ninterval="
      ++ interval_name s.interval

  abbrev pub decode_sized : ℕ → Option (List ℕ) → Option (List ℕ)
  decode_sized n none = none
  decode_sized n (some raw) = if length raw == n then some raw else none

  abbrev pub check_signature :
      Subscription Amount → List ℕ → Option (List ℕ) → Option SubscriptionAuthErrorCode
  check_signature s key none = some invalid_signature
  check_signature s key (some sig) =
      if signing.ed25519 key (build_authorization_message s) sig
      then none
      else some invalid_signature

  abbrev pub check_key :
      Subscription Amount → Text → Option (List ℕ) → Option SubscriptionAuthErrorCode
  check_key s signature none = some invalid_public_key
  check_key s signature (some key) =
      check_signature s key (decode_sized 64 (signing.base58 signature))

  -- What it throws, if it throws.
  unfoldable pub verify_subscription_authorization :
      Subscription Amount → SubscriptionAuthorization → Option SubscriptionAuthErrorCode
  verify_subscription_authorization s a =
      if not (a.public_key === s.customer_wallet)
      then some wallet_mismatch
      else check_key s a.signature (decode_sized 32 (signing.base58 a.public_key))
