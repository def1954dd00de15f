-- ===== src/Api/Velocity/Window.antt =====
-- packages/api/src/services/velocity.ts: how many payments of a wallet the cap lets through.
use zettapay.Prelude.{
  ℕ, zero, suc, ◌+◌, ◌-◌, ◌≤◌, ◌<◌, ◌≡◌, refl, Bool, true, false, ◌&&◌, List, [], ◌∷◌, Text, ◌===◌,
  arith, Bool-cases, text_eq_iff, inl, inr,
}
use zettapay.Api.Errors.{Result, ok, err}
use zettapay.Api.Velocity.{
  Amounts, Payment, VelocityLimits, VelocityCheckInput, one_minute_ms,
  count_payments_by_payer_since, enforce_velocity_limits, VelocityCheckTelemetry,
}

both_true : (b c : Bool) → (b && c) ≡ true → (b ≡ true) × (c ≡ true)
both_true true c h = (refl, h)
both_true false c h = ground arith

module _ (a : Amounts) where
  -- A payment is tried at a time, and recorded, from then on, if the caps let it through; or a
  -- recorded one fails.
  pub data Event : Type 0 where
    tries : ℕ → ℕ → Text → Text → a.Amount → Event
    fails : ℕ → Event

  abbrev pub fail_at : ℕ → List (Payment a) → List (Payment a)
  fail_at n [] = []
  fail_at zero (p ∷ rows) = record p { has_failed = true } ∷ rows
  fail_at (suc n) (p ∷ rows) = p ∷ fail_at n rows

  module _ (velocity : Text → VelocityLimits a) where
    abbrev pub input_of : ℕ → Text → Text → a.Amount → VelocityCheckInput a
    input_of now merchant_id payer_wallet amount = record {
      merchant_id = merchant_id;
      velocity = velocity merchant_id;
      payer_wallet = payer_wallet;
      amount = amount;
      now = now;
    }

    abbrev pub recorded : {A : Type 0} → Payment a → List (Payment a) → Result A → List (Payment a)
    recorded p rows (ok _) = p ∷ rows
    recorded p rows (err _) = rows

    unfoldable pub happens : Event → List (Payment a) → List (Payment a)
    happens (tries now created_at merchant_id payer_wallet amount) rows =
        recorded
          (record {
            merchant_id = merchant_id;
            payer_wallet = payer_wallet;
            amount = amount;
            has_failed = false;
            created_at = created_at;
          })
          rows (enforce_velocity_limits a rows (input_of now merchant_id payer_wallet amount))
    happens (fails n) rows = fail_at n rows

    unfoldable pub happen : List Event → List (Payment a) → List (Payment a)
    happen [] rows = rows
    happen (e ∷ es) rows = happen es (happens e rows)

  abbrev pub time_after : Event → ℕ → ℕ
  time_after (tries now created_at _ _ _) last = created_at
  time_after (fails n) last = last

  -- The clock does not go back.
  abbrev pub IsInTime : Event → ℕ → Type 0
  IsInTime (tries now created_at _ _ _) last = (last ≤ now) × (now ≤ created_at)
  IsInTime (fails n) last = Unit

  abbrev pub IsTimed : ℕ → List Event → Type 0
  IsTimed last [] = Unit
  IsTimed last (e ∷ es) = IsInTime e last × IsTimed (time_after e last) es

  abbrev pub last_time : ℕ → List Event → ℕ
  last_time last [] = last
  last_time last (e ∷ es) = last_time (time_after e last) es

  module _ (m p : Text) where
    count : List (Payment a) → ℕ → ℕ
    count rows since = count_payments_by_payer_since a rows m p since

    -- A later window holds no more.
    count-later : (rows : List (Payment a)) (s t : ℕ) → s ≤ t → count rows t ≤ count rows s
    unfolding count count_payments_by_payer_since
    count-later [] s t h = omega arith
    count-later (r ∷ rows) s t h = ground (arith, count-later rows s t h)

    count-fail_at :
        (n : ℕ) (rows : List (Payment a)) (s : ℕ) → count (fail_at n rows) s ≤ count rows s
    unfolding count count_payments_by_payer_since
    count-fail_at n [] s = omega arith
    count-fail_at zero (r ∷ rows) s = ground arith
    count-fail_at (suc n) (r ∷ rows) s = ground (arith, count-fail_at n rows s)

    -- One row more is at most one payment more, and none of another wallet or merchant.
    count-cons :
        (r : Payment a) (rows : List (Payment a)) (s : ℕ) → count (r ∷ rows) s ≤ count rows s + 1
    unfolding count count_payments_by_payer_since
    count-cons r rows s = ground arith

    count-other :
        (r : Payment a) (rows : List (Payment a)) (s : ℕ)
        → (r.merchant_id === m && (r.payer_wallet === p)) ≡ false
        → count (r ∷ rows) s ≡ count rows s
    unfolding count count_payments_by_payer_since
    count-other r rows s h = ground arith

    module _ (velocity : Text → VelocityLimits a) where
      cap : ℕ
      cap = (velocity m).max_payments_per_minute

      -- At every time from the last on, the last minute holds no more than the cap.
      abbrev IsWithin : List (Payment a) → ℕ → Type 0
      IsWithin rows last = (t : ℕ) → last ≤ t → count rows (t - one_minute_ms) ≤ cap

      -- What the caps let through leaves room for itself.
      enforce-room :
          (rows : List (Payment a)) (now : ℕ) (amount : a.Amount)
          → 0 < cap
          → {out : VelocityCheckTelemetry a}
          → enforce_velocity_limits a rows (input_of velocity now m p amount) ≡ ok out
          → count rows (now - one_minute_ms) + 1 ≤ cap
      unfolding enforce_velocity_limits cap count
      enforce-room rows now amount capped e = ground arith

      recorded-IsWithin :
          (rows : List (Payment a)) (last now created : ℕ) (m' p' : Text) (amount : a.Amount)
          (r : Result (VelocityCheckTelemetry a))
          → 0 < cap
          → last ≤ now
          → now ≤ created
          → IsWithin rows last
          → enforce_velocity_limits a rows (input_of velocity now m' p' amount) ≡ r
          → IsWithin
              (recorded velocity
                (record {
                  merchant_id = m';
                  payer_wallet = p';
                  amount = amount;
                  has_failed = false;
                  created_at = created;
                })
                rows
                r)
              created
      recorded-IsWithin rows last now created m' p' amount (err thrown) capped later recorded_later
            within e =
          λ t after. within t (omega arith)
      recorded-IsWithin rows last now created m' p' amount (ok out) capped later recorded_later
            within e =
          λ t after.
            let row : Payment a = record {
              merchant_id = m';
              payer_wallet = p';
              amount = amount;
              has_failed = false;
              created_at = created;
            } in
            elim (Bool-cases (m' === m && (p' === p))) [
              | inl same ↦
                  let at_m = (text_eq_iff m' m).0 (both_true (m' === m) (p' === p) same).0 in
                  let at_p = (text_eq_iff p' p).0 (both_true (m' === m) (p' === p) same).1 in
                  let room =
                    enforce-room rows now amount capped {out = out} (rw (← at_m, ← at_p) e) in
                  let one_more = count-cons row rows (t - one_minute_ms) in
                  let fewer =
                    count-later rows (now - one_minute_ms) (t - one_minute_ms) (omega arith) in
                  omega (arith, room, one_more, fewer)
              | inr other ↦
                  let equal = count-other row rows (t - one_minute_ms) other in
                  let held = within t (omega arith) in omega (arith, equal, held)
            ]

      happens-IsWithin :
          (e : Event) (rows : List (Payment a)) (last : ℕ)
          → 0 < cap
          → IsInTime e last
          → IsWithin rows last
          → IsWithin (happens velocity e rows) (time_after e last)
      unfolding happens
      happens-IsWithin (tries now created m' p' amount) rows last capped timed within =
          recorded-IsWithin rows last now created m' p' amount _ capped timed.0 timed.1 within refl
      happens-IsWithin (fails n) rows last capped timed within = λ t after.
          let fewer = count-fail_at n rows (t - one_minute_ms) in
          let before = within t after in omega (arith, fewer, before)

      happen-IsWithin :
          (es : List Event) (rows : List (Payment a)) (last : ℕ)
          → 0 < cap
          → IsTimed last es
          → IsWithin rows last
          → IsWithin (happen velocity es rows) (last_time last es)
      unfolding happen
      happen-IsWithin [] rows last capped timed within = within
      happen-IsWithin (e ∷ es) rows last capped timed within =
          happen-IsWithin es _ _ capped timed.1 (happens-IsWithin e rows last capped timed.0 within)

      -- While payments are recorded only when the caps let them through, and fail at any time, then at
      -- every time from the last event on the last minute holds no more payments of a wallet with a
      -- merchant than the merchant's cap, those that failed not counted, if the cap is positive and the
      -- clock does not go back.
      pub payer_bound :
          (es : List Event) (t : ℕ)
          → 0 < (velocity m).max_payments_per_minute
          → IsTimed 0 es
          → last_time 0 es ≤ t
          → count_payments_by_payer_since a (happen velocity es []) m p (t - one_minute_ms)
            ≤ (velocity m).max_payments_per_minute
      unfolding cap count count_payments_by_payer_since
      payer_bound es t capped timed after =
          happen-IsWithin es [] 0 capped timed (λ s later. omega arith) t after
