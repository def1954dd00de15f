-- ===== src/Cloud/NetGuard/Addresses.antt =====
-- packages/cloud/src/net-guard.ts: the numbers behind addresses, and `isNonPublicAddress`.
use Prim.Native.Nat.{bit_and, bit_or}
use zettapay.Prelude.{
  ℕ, ◌+◌, ◌-◌, ◌*◌, ◌%◌, ◌^◌, Bool, true, false, ◌&&◌, ◌||◌, Option, none, some, List, [], ◌∷◌,
  Text, codes, ◌===◌, ◌==◌, leb, if◌then◌else◌, get_elem?, split, to_lower_case,
}
use zettapay.Prelude.Numerals.{big_int, digit_value}

-- `x << k`, read without a sign: `===` and `>>> 0` take the 32 bits.
abbrev pub shl : ℕ → ℕ → ℕ
shl x k = x * 2 ^ k % 2 ^ 32

-- `Number(part)`, which the shifts take for 0 when it is not a number.
abbrev pub number_or_zero : Option Text → ℕ
number_or_zero none = 0
number_or_zero (some t) = elim (big_int t) [ none ↦ 0 | some n ↦ n ]

unfoldable pub ipv4_to_int : Text → ℕ
ipv4_to_int ip =
    let part = λ (i : ℕ). number_or_zero (get_elem? (split b'.' ip) i) in
    bit_or (bit_or (bit_or (shl (part 0) 24) (shl (part 1) 16)) (shl (part 2) 8)) (shl (part 3) 0)

abbrev pub mask : ℕ → ℕ
mask bits = if bits == 0 then 0 else shl 0xffffffff (32 - bits)

unfoldable pub in_range : ℕ → Text → ℕ → Bool
in_range ip base bits = bit_and ip (mask bits) == bit_and (ipv4_to_int base) (mask bits)

abbrev pub blocked_v4 : List (Text × ℕ)
blocked_v4 =
    (codes "0.0.0.0", 8)
    ∷ (codes "10.0.0.0", 8)
    ∷ (codes "100.64.0.0", 10)
    ∷ (codes "127.0.0.0", 8)
    ∷ (codes "169.254.0.0", 16)
    ∷ (codes "172.16.0.0", 12)
    ∷ (codes "192.0.0.0", 24)
    ∷ (codes "192.0.2.0", 24)
    ∷ (codes "192.168.0.0", 16)
    ∷ (codes "198.18.0.0", 15)
    ∷ (codes "198.51.100.0", 24)
    ∷ (codes "203.0.113.0", 24)
    ∷ (codes "224.0.0.0", 3)
    ∷ []

-- `BLOCKED_V4.some`
abbrev pub in_some_range : ℕ → List (Text × ℕ) → Bool
in_some_range ip [] = false
in_some_range ip ((base, bits) ∷ more) = in_range ip base bits || in_some_range ip more

-- What is behind a prefix.
abbrev pub strip_prefix : Text → Text → Option Text
strip_prefix [] s = some s
strip_prefix (p ∷ ps) [] = none
strip_prefix (p ∷ ps) (c ∷ s) = let rest = strip_prefix ps s in if p == c then rest else none

abbrev pub all_digits : Text → Bool
all_digits [] = true
all_digits (c ∷ s) = leb b'0' c && leb c b'9' && all_digits s

-- `\d+`
abbrev pub is_digits : Text → Bool
is_digits [] = false
is_digits (c ∷ s) = all_digits (c ∷ s)

-- `\d+\.\d+\.\d+\.\d+`
abbrev pub is_quad : List Text → Bool
is_quad (a ∷ b ∷ c ∷ d ∷ []) = is_digits a && is_digits b && is_digits c && is_digits d
is_quad _ = false

-- The match of `^::ffff:(\d+\.\d+\.\d+\.\d+)$`, which is the group.
unfoldable pub mapped : Text → Option Text
mapped a = elim (strip_prefix (codes "::ffff:") a) [
  | none ↦ none
  | some s ↦ if is_quad (split b'.' s) then some s else none
]

-- The hexadecimal digits at the front; a group of an address has no sign and no `0x`.
unfoldable pub parse_hex : ℕ → Text → ℕ
unfolding digit_value
parse_hex acc [] = acc
parse_hex acc (c ∷ s) = elim (digit_value c) [ none ↦ acc | some d ↦ parse_hex (acc * 16 + d) s ]

-- `parseInt(a.split(':')[0] || '0', 16)`; a NaN is 0 under a mask.
unfoldable pub head_group : Text → ℕ
head_group a = elim (split b':' a) [ [] ↦ 0 | g ∷ gs ↦ parse_hex 0 g ]

-- The last three tests on an address of the sixth version.
abbrev pub head_is_blocked : ℕ → Bool
head_is_blocked head =
    bit_and head 0xfe00 == 0xfc00 || bit_and head 0xffc0 == 0xfe80 || bit_and head 0xff00 == 0xff00

-- `isIP`: 4, 6, or 0 for what is not an address.
module _ (is_ip : Text → ℕ) where
  -- The body of `isNonPublicAddress`, from what its own call returns.
  unfoldable pub judge : (Text → Bool) → Text → Bool
  judge again address =
      let a = to_lower_case address in
      if is_ip address == 4
      then in_some_range (ipv4_to_int address) blocked_v4
      else if is_ip address == 6
      then if a === codes "::" || (a === codes "::1")
        then true
        else elim (mapped a) [ some quad ↦ again quad | none ↦ head_is_blocked (head_group a) ]
      else true

  -- An embedded address does not embed another.
  unfoldable pub is_non_public_address : Text → Bool
  is_non_public_address = judge (judge (λ _. true))
