-- ===== src/Cloud/NetGuard/Tests.antt =====
-- packages/cloud/src/net-guard.ts at concrete addresses and URLs.
use zettapay.Prelude.{
  ℕ, ◌≡◌, ◌↔◌, refl, Bool, true, false, Option, none, some, List, [], ◌∷◌, ◌++◌, Text, codes, ◌===◌,
  if◌then◌else◌, inl, inr, arith,
}
use zettapay.Cloud.NetGuard.{Url, accepted, assert_public_https_url, is_non_public_address}
use zettapay.Cloud.NetGuard.Addresses.{judge, head_is_blocked}
use zettapay.Cloud.NetGuard.Ranges.{is_reserved, is_non_public_address-is_reserved}
use zettapay.Cloud.NetGuard.Mapped.{hex_form-is_non_public_address, is_non_public_address-recursive}
use zettapay.Cloud.NetGuard.Accepted.{IsSafeHttps, assert_public_https_url-accepted}

-- What `isIP` says of the texts that follow.
abbrev kind : Text → ℕ
kind s =
    if s === codes "172.31.255.1"
    then 4
    else if s === codes "8.8.8.8"
    then 4
    else if s === codes "::ffff:7f00:1"
    then 6
    else if s === codes "::ffff:10.0.0.1"
    then 6
    else if s === codes "10.0.0.1"
    then 4
    else 0

is_non_public_address-is_reserved_example :
    is_non_public_address kind (codes "172.31.255.1") ≡ is_reserved 172 31 255 1
unfolding ◌===◌ zettapay.Prelude.Numerals.to_string
is_non_public_address-is_reserved_example =
    is_non_public_address-is_reserved kind 172 31 255 1
      (omega arith, omega arith, omega arith, omega arith) refl

hex_form-is_non_public_address_example :
    is_non_public_address kind (codes "::ffff:" ++ codes "7f00" ++ b':' ∷ codes "1") ≡ false
unfolding ◌===◌
hex_form-is_non_public_address_example =
    hex_form-is_non_public_address kind (codes "7f00") (codes "1") refl

is_non_public_address-recursive_example :
    is_non_public_address kind (codes "::ffff:10.0.0.1")
    ≡ judge kind (is_non_public_address kind) (codes "::ffff:10.0.0.1")
is_non_public_address-recursive_example =
    is_non_public_address-recursive kind (codes "::ffff:10.0.0.1")

-- The reserved ranges of the sixth version, at their ends, and addresses beside them.
blocked_heads :
    (head_is_blocked 0xfc00 ≡ true)
    × (head_is_blocked 0xfdff ≡ true)
    × (head_is_blocked 0xfe80 ≡ true)
    × (head_is_blocked 0xfebf ≡ true)
    × (head_is_blocked 0xff02 ≡ true)
    × (head_is_blocked 0xfbff ≡ false)
    × (head_is_blocked 0xfe00 ≡ false)
    × (head_is_blocked 0x2606 ≡ false)
blocked_heads = (refl, refl, refl, refl, refl, refl, refl, refl)

abbrev shop : Url
shop = record {
  protocol = codes "https:";
  username = [];
  password = [];
  port = [];
  hostname = codes "shop.example";
}

abbrev parse : Text → Option Url
parse raw = if raw === codes "https://shop.example/hook" then some shop else none

abbrev dns : Text → Option (List Text)
dns host = some (codes "8.8.8.8" ∷ [])

assert_public_https_url-accepted_example :
    (assert_public_https_url kind parse dns (codes "https://shop.example/hook") ≡ accepted shop)
    ↔ ((parse (codes "https://shop.example/hook") ≡ some shop) × IsSafeHttps kind parse dns shop)
assert_public_https_url-accepted_example =
    assert_public_https_url-accepted kind parse dns (codes "https://shop.example/hook") shop
