-- ===== src/Cloud/NetGuard/Ranges.antt =====
-- packages/cloud/src/net-guard.ts: the ranges of IPv4 addresses that are not public, in octets.
use Prim.Native.Nat.{bit_and, bit_or}
use zettapay.Prelude.{
  ℕ, zero, suc, ◌+◌, ◌-◌, ◌*◌, ◌/◌, ◌%◌, ◌^◌, ◌≤◌, ◌<◌, ◌≡◌, refl, Bool, ◌&&◌, ◌||◌, false, ◌==◌,
  leb, ltb, arith, Text, codes, ◌∷◌, ◌++◌, if◌then◌else◌, split, split-append, split-IsUnsplit,
  IsUnsplit, List, [], some, ap, All, ◌∙◌,
}
use zettapay.Prelude.Numerals.{to_string, IsDigit, to_string-IsDigit, big_int-to_string}
use native.Mathlib.Nat.{one-le-pow}
use zettapay.Prelude.Bits.{bit_or-add, bit_and-high, scaled}
use zettapay.Cloud.NetGuard.Addresses.{
  ipv4_to_int, in_range, mask, shl, in_some_range, blocked_v4, judge, is_non_public_address,
  number_or_zero,
}

abbrev some_of : List Bool → Bool
some_of [] = false
some_of (x ∷ xs) = x || some_of xs

-- Loopback, private, link-local, reserved and multicast addresses, by their octets.
unfoldable pub is_reserved : ℕ → ℕ → ℕ → ℕ → Bool
is_reserved a b c d = some_of (
    (a == 0)
    ∷ (a == 10)
    ∷ (a == 100 && leb 64 b && ltb b 128)
    ∷ (a == 127)
    ∷ (a == 169 && (b == 254))
    ∷ (a == 172 && leb 16 b && ltb b 32)
    ∷ (a == 192 && (b == 0) && (c == 0))
    ∷ (a == 192 && (b == 0) && (c == 2))
    ∷ (a == 192 && (b == 168))
    ∷ (a == 198 && leb 18 b && ltb b 20)
    ∷ (a == 198 && (b == 51) && (c == 100))
    ∷ (a == 203 && (b == 0) && (c == 113))
    ∷ leb 224 a
    ∷ [])

abbrev quad : ℕ → ℕ → ℕ → ℕ → ℕ
quad a b c d = a * 2 ^ 24 + b * 2 ^ 16 + c * 2 ^ 8 + d

scaled-== : (k p q : ℕ) → (p * 2 ^ k == (q * 2 ^ k)) ≡ (p == q)
scaled-== zero p q = ground arith
scaled-== (suc k) p q = ground (arith, scaled p k, scaled q k, scaled-== k p q)

-- A range is a common prefix of the two numbers.
in_range-prefix :
    (j k p s q : ℕ) {n : ℕ} (base : Text) (bits : ℕ)
    → n ≡ p * 2 ^ k + s
    → mask bits ≡ (2 ^ j - 1) * 2 ^ k
    → ipv4_to_int base ≡ q * 2 ^ k
    → s < 2 ^ k
    → p < 2 ^ j
    → q < 2 ^ j
    → in_range n base bits ≡ (p == q)
unfolding in_range
in_range-prefix j k p s q {n} base bits fields m e h g w =
    rw (fields, m, e, bit_and-high j k p s h g, clear) (scaled-== k p q)
  where
    clear : bit_and (q * 2 ^ k) ((2 ^ j - 1) * 2 ^ k) ≡ q * 2 ^ k
    clear =
        ap (λ (x : ℕ). bit_and x ((2 ^ j - 1) * 2 ^ k)) (omega arith)
        ∙ bit_and-high j k q 0 (one-le-pow k 2 (omega arith)) w

module _ (a b c d : ℕ) (h : (a < 256) × (b < 256) × (c < 256) × (d < 256)) where
  zero_net : in_range (quad a b c d) (codes "0.0.0.0") 8 ≡ (a == 0)
  unfolding ipv4_to_int split zettapay.Prelude.Numerals.big_int
  zero_net =
      in_range-prefix 8 24 (a) (b * 2 ^ 16 + c * 2 ^ 8 + d) 0 (codes "0.0.0.0") 8 (omega arith) refl
        refl (omega arith) (omega arith) (omega arith)
      ∙ ground arith

  ten_net : in_range (quad a b c d) (codes "10.0.0.0") 8 ≡ (a == 10)
  unfolding ipv4_to_int split zettapay.Prelude.Numerals.big_int
  ten_net =
      in_range-prefix 8 24 (a) (b * 2 ^ 16 + c * 2 ^ 8 + d) 10 (codes "10.0.0.0") 8 (omega arith)
        refl refl (omega arith) (omega arith) (omega arith)
      ∙ ground arith

  shared_net : in_range (quad a b c d) (codes "100.64.0.0") 10 ≡ (a == 100 && leb 64 b && ltb b 128)
  unfolding ipv4_to_int split zettapay.Prelude.Numerals.big_int
  shared_net =
      in_range-prefix 10 22 (a * 4 + b / 64) (b % 64 * 2 ^ 16 + c * 2 ^ 8 + d) 401
        (codes "100.64.0.0") 10 (omega arith) refl refl (omega arith) (omega arith) (omega arith)
      ∙ ground arith

  loopback : in_range (quad a b c d) (codes "127.0.0.0") 8 ≡ (a == 127)
  unfolding ipv4_to_int split zettapay.Prelude.Numerals.big_int
  loopback =
      in_range-prefix 8 24 (a) (b * 2 ^ 16 + c * 2 ^ 8 + d) 127 (codes "127.0.0.0") 8 (omega arith)
        refl refl (omega arith) (omega arith) (omega arith)
      ∙ ground arith

  link_local : in_range (quad a b c d) (codes "169.254.0.0") 16 ≡ (a == 169 && (b == 254))
  unfolding ipv4_to_int split zettapay.Prelude.Numerals.big_int
  link_local =
      in_range-prefix 16 16 (a * 256 + b) (c * 2 ^ 8 + d) 43518 (codes "169.254.0.0") 16
        (omega arith) refl refl (omega arith) (omega arith) (omega arith)
      ∙ ground arith

  private_172 : in_range (quad a b c d) (codes "172.16.0.0") 12 ≡ (a == 172 && leb 16 b && ltb b 32)
  unfolding ipv4_to_int split zettapay.Prelude.Numerals.big_int
  private_172 =
      in_range-prefix 12 20 (a * 16 + b / 16) (b % 16 * 2 ^ 16 + c * 2 ^ 8 + d) 2753
        (codes "172.16.0.0") 12 (omega arith) refl refl (omega arith) (omega arith) (omega arith)
      ∙ ground arith

  protocol : in_range (quad a b c d) (codes "192.0.0.0") 24 ≡ (a == 192 && (b == 0) && (c == 0))
  unfolding ipv4_to_int split zettapay.Prelude.Numerals.big_int
  protocol =
      in_range-prefix 24 8 ((a * 256 + b) * 256 + c) (d) 12582912 (codes "192.0.0.0") 24
        (omega arith) refl refl (omega arith) (omega arith) (omega arith)
      ∙ ground arith

  test_1 : in_range (quad a b c d) (codes "192.0.2.0") 24 ≡ (a == 192 && (b == 0) && (c == 2))
  unfolding ipv4_to_int split zettapay.Prelude.Numerals.big_int
  test_1 =
      in_range-prefix 24 8 ((a * 256 + b) * 256 + c) (d) 12582914 (codes "192.0.2.0") 24
        (omega arith) refl refl (omega arith) (omega arith) (omega arith)
      ∙ ground arith

  private_192 : in_range (quad a b c d) (codes "192.168.0.0") 16 ≡ (a == 192 && (b == 168))
  unfolding ipv4_to_int split zettapay.Prelude.Numerals.big_int
  private_192 =
      in_range-prefix 16 16 (a * 256 + b) (c * 2 ^ 8 + d) 49320 (codes "192.168.0.0") 16
        (omega arith) refl refl (omega arith) (omega arith) (omega arith)
      ∙ ground arith

  benchmark : in_range (quad a b c d) (codes "198.18.0.0") 15 ≡ (a == 198 && leb 18 b && ltb b 20)
  unfolding ipv4_to_int split zettapay.Prelude.Numerals.big_int
  benchmark =
      in_range-prefix 15 17 (a * 128 + b / 2) (b % 2 * 2 ^ 16 + c * 2 ^ 8 + d) 25353
        (codes "198.18.0.0") 15 (omega arith) refl refl (omega arith) (omega arith) (omega arith)
      ∙ ground arith

  test_2 : in_range (quad a b c d) (codes "198.51.100.0") 24 ≡ (a == 198 && (b == 51) && (c == 100))
  unfolding ipv4_to_int split zettapay.Prelude.Numerals.big_int
  test_2 =
      in_range-prefix 24 8 ((a * 256 + b) * 256 + c) (d) 12989284 (codes "198.51.100.0") 24
        (omega arith) refl refl (omega arith) (omega arith) (omega arith)
      ∙ ground arith

  test_3 : in_range (quad a b c d) (codes "203.0.113.0") 24 ≡ (a == 203 && (b == 0) && (c == 113))
  unfolding ipv4_to_int split zettapay.Prelude.Numerals.big_int
  test_3 =
      in_range-prefix 24 8 ((a * 256 + b) * 256 + c) (d) 13303921 (codes "203.0.113.0") 24
        (omega arith) refl refl (omega arith) (omega arith) (omega arith)
      ∙ ground arith

  multicast : in_range (quad a b c d) (codes "224.0.0.0") 3 ≡ (leb 224 a)
  unfolding ipv4_to_int split zettapay.Prelude.Numerals.big_int
  multicast =
      in_range-prefix 3 29 (a / 32) (a % 32 * 2 ^ 24 + b * 2 ^ 16 + c * 2 ^ 8 + d) 7
        (codes "224.0.0.0") 3 (omega arith) refl refl (omega arith) (omega arith) (omega arith)
      ∙ ground arith

  quad-is_reserved : in_some_range (quad a b c d) blocked_v4 ≡ is_reserved a b c d
  unfolding is_reserved
  quad-is_reserved =
      rw
        (
          zero_net, ten_net, shared_net, loopback, link_local, private_172, protocol, test_1,
          private_192, benchmark, test_2, test_3, multicast,
        )
        refl

-- `a.b.c.d`
abbrev pub dotted : ℕ → ℕ → ℕ → ℕ → Text
dotted a b c d =
    to_string a ++ (b'.' ∷ (to_string b ++ (b'.' ∷ (to_string c ++ (b'.' ∷ to_string d)))))

digits-IsUnsplit : (s : Text) → All IsDigit s → IsUnsplit b'.' s
digits-IsUnsplit [] h = tt
digits-IsUnsplit (c ∷ s) h = (ground arith, digits-IsUnsplit s h.1)

to_string-IsUnsplit : (n : ℕ) → IsUnsplit b'.' (to_string n)
to_string-IsUnsplit n = digits-IsUnsplit (to_string n) (to_string-IsDigit n)

joined : (k q r : ℕ) {x y : ℕ} → x ≡ q * 2 ^ k → y ≡ r → r < 2 ^ k → bit_or x y ≡ q * 2 ^ k + r
joined k q r e f h = rw (e, f) (bit_or-add k q r h)

number_shown : (n : ℕ) → number_or_zero (some (to_string n)) ≡ n
number_shown n = rw (number_or_zero, big_int-to_string n) refl

module _ (a b c d : ℕ) where
  split-dotted :
      split b'.' (dotted a b c d) ≡ to_string a ∷ to_string b ∷ to_string c ∷ to_string d ∷ []
  split-dotted =
      let rest : (n : ℕ) (t : Text)
          → split b'.' (to_string n ++ b'.' ∷ t) ≡ to_string n ∷ split b'.' t =
        λ n t. split-append b'.' (to_string n) t (to_string-IsUnsplit n) in
      rest a _
      ∙ ap (λ t. to_string a ∷ t)
          (rest b _
            ∙ ap (λ t. to_string b ∷ t)
                (rest c _
                  ∙ ap (λ t. to_string c ∷ t)
                      (split-IsUnsplit b'.' (to_string d) (to_string-IsUnsplit d))))

  ipv4_to_int-dotted :
      (a < 256) × (b < 256) × (c < 256) × (d < 256) → ipv4_to_int (dotted a b c d) ≡ quad a b c d
  unfolding ipv4_to_int
  ipv4_to_int-dotted h =
      let first =
        joined 24 a (b * 2 ^ 16) {x = shl a 24} {y = shl b 16} (omega arith) (omega arith)
          (omega arith) in
      let second =
        joined 16 (a * 256 + b) (c * 2 ^ 8) {y = shl c 8} (first ∙ omega arith) (omega arith)
          (omega arith) in
      let third =
        joined 8 ((a * 256 + b) * 256 + c) d {y = shl d 0} (second ∙ omega arith) (omega arith)
          (omega arith) in
      rw (split-dotted, number_shown a, number_shown b, number_shown c, number_shown d)
        (third ∙ omega arith)

module _ (is_ip : Text → ℕ) where
  -- On the dotted form of any four octets, the test with masks says what the table of reserved
  -- ranges says, octet by octet, when `isIP` knows the form for an IPv4 address.
  pub is_non_public_address-is_reserved :
      (a b c d : ℕ)
      → (a < 256) × (b < 256) × (c < 256) × (d < 256)
      → is_ip (dotted a b c d) ≡ 4
      → is_non_public_address is_ip (dotted a b c d) ≡ is_reserved a b c d
  unfolding is_non_public_address judge
  is_non_public_address-is_reserved a b c d h four =
      rw (four, ipv4_to_int-dotted a b c d h) (quad-is_reserved a b c d h)
