-- ===== src/Listener/Dispatcher/Curve.antt =====
-- The retry curve of packages/listener/src/webhook-dispatcher.ts.
use zettapay.Prelude.{ℕ, zero, suc, ◌+◌, ◌-◌, ◌*◌, ◌≤◌, ◌≡◌, refl, ◌∙◌, ap, min, get_elem?, arith}
use zettapay.Listener.Dispatcher.{
  retry_curve_ms, max_attempts, hour, second, delay_or_day, retry_delay,
}

entry : ℕ → ℕ
entry i = delay_or_day (get_elem? retry_curve_ms i)

retry_delay-entry : (n : ℕ) → retry_delay n ≡ entry (min n max_attempts - 1)
unfolding retry_delay entry
retry_delay-entry n = refl

entry_late : (n : ℕ) → max_attempts ≤ n → retry_delay n ≡ 24 * hour
unfolding entry
entry_late n h =
    let last : min n max_attempts - 1 ≡ 9 = omega arith in retry_delay-entry n ∙ ap entry last

-- A later attempt never waits less than an earlier one.
retry_delay_step : (n : ℕ) → retry_delay n ≤ retry_delay (suc n)
unfolding retry_delay
retry_delay_step zero = omega arith
retry_delay_step (suc zero) = omega arith
retry_delay_step (suc (suc zero)) = omega arith
retry_delay_step (suc (suc (suc zero))) = omega arith
retry_delay_step (suc (suc (suc (suc zero)))) = omega arith
retry_delay_step (suc (suc (suc (suc (suc zero))))) = omega arith
retry_delay_step (suc (suc (suc (suc (suc (suc zero)))))) = omega arith
retry_delay_step (suc (suc (suc (suc (suc (suc (suc zero))))))) = omega arith
retry_delay_step (suc (suc (suc (suc (suc (suc (suc (suc zero)))))))) = omega arith
retry_delay_step (suc (suc (suc (suc (suc (suc (suc (suc (suc zero))))))))) = omega arith
retry_delay_step (suc (suc (suc (suc (suc (suc (suc (suc (suc (suc n)))))))))) = omega (
  arith,
  entry_late (suc (suc (suc (suc (suc (suc (suc (suc (suc (suc n)))))))))) (omega arith),
  entry_late (suc (suc (suc (suc (suc (suc (suc (suc (suc (suc (suc n))))))))))) (omega arith),
)

retry_delay_add : (k n : ℕ) → retry_delay n ≤ retry_delay (k + n)
retry_delay_add zero n = omega (arith, ap retry_delay (zero_add n))
  where
    zero_add : (m : ℕ) → 0 + m ≡ m
    zero_add m = omega arith
retry_delay_add (suc k) n =
    let shift : suc k + n ≡ suc (k + n) = omega arith in
    omega (arith, retry_delay_add k n, retry_delay_step (k + n), ap retry_delay shift)

-- Retries back off: the wait never shrinks from one attempt to a later one, and lies between one
-- second and 24 hours.
retry_delay_backs_off :
    (n m : ℕ)
    → n ≤ m
    → (retry_delay n ≤ retry_delay m) × (second ≤ retry_delay n) × (retry_delay n ≤ 24 * hour)
unfolding retry_delay
retry_delay_backs_off n m h =
    let split : m - n + n ≡ m = omega arith in
    let from_zero : n + 0 ≡ n = omega arith in
    (
      omega (arith, retry_delay_add (m - n) n, ap retry_delay split),
      omega (arith, retry_delay_add n 0, ap retry_delay from_zero),
      omega (arith, retry_delay_add max_attempts n, entry_late (max_attempts + n) (omega arith)),
    )
