-- ===== src/Prelude/Bits.antt =====
-- `&` and `|` on natural numbers, as arithmetic: the law for the lowest digit, and from it fields
-- and masks.
use Prim.Native.Nat.{
  ℕ, zero, suc, ◌+◌, ◌-◌, ◌*◌, ◌/◌, ◌%◌, ◌^◌, ◌≤◌, ◌<◌, min, max, bit_and, bit_or, digits,
  bit_and-bitwise, bit_or-bitwise,
}
use mathlib.Core.Path.{◌≡◌, refl, ap}
use native.Mathlib.Nat.{pow-suc, one-le-pow}
use native.Mathlib.Omega.{arith}

module _ (op : ℕ → ℕ → ℕ) (rest : ℕ → ℕ) where
  abbrev bitwise : ℕ → ℕ → ℕ → ℕ
  bitwise fuel a b = digits rest op fuel a b

  bitwise-fuel : (m n a b : ℕ) → a ≤ m → a ≤ n → bitwise m a b ≡ bitwise n a b
  bitwise-fuel zero zero zero b p q = refl
  bitwise-fuel zero (suc n) zero b p q = refl
  bitwise-fuel (suc m) zero zero b p q = refl
  bitwise-fuel (suc m) (suc n) zero b p q = refl
  bitwise-fuel zero n (suc a) b p q = absurd (omega arith)
  bitwise-fuel (suc m) zero (suc a) b p q = absurd (omega arith)
  bitwise-fuel (suc m) (suc n) (suc a) b p q =
      omega (arith, bitwise-fuel m n (suc a / 2) (b / 2) (omega arith) (omega arith))

  -- From the lowest digit up, if it holds once the first number has run out.
  bitwise-digit :
      (a b : ℕ)
      → rest b ≡ rest (b / 2) * 2 + op 0 (b % 2)
      → bitwise a a b ≡ bitwise (a / 2) (a / 2) (b / 2) * 2 + op (a % 2) (b % 2)
  bitwise-digit zero b h = h
  bitwise-digit (suc n) b h =
      let shorter = bitwise-fuel n (suc n / 2) (suc n / 2) (b / 2) (omega arith) (omega arith) in
      omega (arith, shorter)

pub bit_and_digit : (a b : ℕ) → bit_and a b ≡ bit_and (a / 2) (b / 2) * 2 + min (a % 2) (b % 2)
bit_and_digit a b = omega (
  arith,
  bitwise-digit min (λ _. 0) a b (omega arith),
  bit_and-bitwise a b,
  bit_and-bitwise (a / 2) (b / 2),
)

pub bit_or_digit : (a b : ℕ) → bit_or a b ≡ bit_or (a / 2) (b / 2) * 2 + max (a % 2) (b % 2)
bit_or_digit a b = omega (
  arith,
  bitwise-digit max (λ x. x) a b (omega arith),
  bit_or-bitwise a b,
  bit_or-bitwise (a / 2) (b / 2),
)

pub scaled : (q k : ℕ) → q * 2 ^ suc k ≡ (q * 2 ^ k) * 2
scaled q k = omega (arith, ap (λ (t : ℕ). q * t) (pow-suc 2 k))

-- Zero on the right, for both at once.
beside_zero : (fuel a : ℕ) → a ≤ fuel → (bit_and a 0 ≡ 0) × (bit_or a 0 ≡ a)
beside_zero fuel zero h = (refl, refl)
beside_zero zero (suc n) h = absurd (omega arith)
beside_zero (suc fuel) (suc n) h =
    let (cleared, same) = beside_zero fuel (suc n / 2) (omega arith) in
    (omega (arith, cleared, bit_and_digit (suc n) 0), omega (arith, same, bit_or_digit (suc n) 0))

-- Fields that do not overlap: `|` is their sum.
pub bit_or-add : (k q r : ℕ) → r < 2 ^ k → bit_or (q * 2 ^ k) r ≡ q * 2 ^ k + r
bit_or-add zero q r h = ground (arith, (beside_zero q q (omega arith)).1)
bit_or-add (suc k) q r h = ground (
  arith,
  bit_or_digit (q * 2 ^ suc k) r,
  scaled q k,
  bit_or-add k q (r / 2) (omega (arith, pow-suc 2 k)),
)

-- A mask of high bits clears what is under it.
bit_and-scaled :
    (k q r m : ℕ) → r < 2 ^ k → bit_and (q * 2 ^ k + r) (m * 2 ^ k) ≡ bit_and q m * 2 ^ k
bit_and-scaled zero q r m h = ground arith
bit_and-scaled (suc k) q r m h = ground (
  arith,
  bit_and_digit (q * 2 ^ suc k + r) (m * 2 ^ suc k),
  scaled q k,
  scaled m k,
  scaled (bit_and q m) k,
  bit_and-scaled k q (r / 2) m (omega (arith, pow-suc 2 k)),
)

-- `j` ones.
bit_and-ones : (j a : ℕ) → a < 2 ^ j → bit_and a (2 ^ j - 1) ≡ a
bit_and-ones zero a h = rw ((beside_zero a a (omega arith)).0) (omega arith)
bit_and-ones (suc j) a h = ground (
  arith,
  bit_and_digit a (2 ^ suc j - 1),
  pow-suc 2 j,
  one-le-pow j 2,
  bit_and-ones j (a / 2) (omega (arith, pow-suc 2 j)),
)

-- A number of `j + k` bits under a mask of its `j` high bits.
pub bit_and-high :
    (j k q r : ℕ)
    → r < 2 ^ k
    → q < 2 ^ j
    → bit_and (q * 2 ^ k + r) ((2 ^ j - 1) * 2 ^ k) ≡ q * 2 ^ k
bit_and-high j k q r h g = rw (bit_and-scaled k q r (2 ^ j - 1) h, bit_and-ones j q g) refl
