-- ===== src/Listener/Errors.antt =====
-- What the listener's code throws, and the result of code that may throw.
use zettapay.Prelude.{Text, Bool, true, false, ◌≡◌, refl, ◌⊎◌, inl, inr, Option, none, some}

pub data Error : Type 0 where
  -- usdc-pricing.ts and evm-amount-nonce.ts
  bad_usd nonce_out_of_range pool_exhausted : Error
  -- invoice-core.ts
  bad_amount_sats unknown_chain asset_not_available bad_evm_address merchant_not_found : Error
  derivation_failed : Error
  -- errors.ts
  merchant_not_initialized unknown_merchant corrupted : Error
  invoice_not_found event_not_found : Text → Error
  -- the SqliteError of an INSERT whose primary key is taken
  key_taken : Error
  -- the SyntaxError of `BigInt`
  bad_big_int : Error

pub data Result {ℓ} (A : Type ℓ) : Type ℓ where
  err : Error → Result A
  ok : A → Result A

-- What an absent value throws.
abbrev pub or_throw {ℓ} : {A : Type ℓ} → Option A → Error → Result A
or_throw none e = err e
or_throw (some a) e = ok a

infixl 5 ◌>>=◌ ◌>>◌
abbrev pub ◌>>=◌ {ℓ κ} : {A : Type ℓ} {B : Type κ} → Result A → (A → Result B) → Result B
err thrown >>= next = err thrown
ok value >>= next = next value

abbrev pub ◌>>◌ {ℓ} : {B : Type ℓ} → Result (Unit {0}) → Result B → Result B
check >> next = check >>= λ _. next

-- A test that throws when it fails.
abbrev pub guard : Bool → Error → Result (Unit {0})
guard passes e = elim passes [ true ↦ ok tt | false ↦ err e ]

-- What succeeded behind a bind succeeded at both of its steps.
pub >>=-eq-ok {ℓ κ} :
    {A : Type ℓ} {B : Type κ} (first : Result A) (next : A → Result B) {out : B}
    → (first >>= next) ≡ ok out
    → (mid : A) × (first ≡ ok mid) × (next mid ≡ ok out)
>>=-eq-ok (err thrown) next failed = cc
>>=-eq-ok (ok mid) next done = (mid, refl, done)

pub Result-cases {ℓ} :
    {A : Type ℓ} (r : Result A) → ((a : A) × (r ≡ ok a)) ⊎ ((e : Error) × (r ≡ err e))
Result-cases (ok a) = inl (a, refl)
Result-cases (err e) = inr (e, refl)
