-- ===== src/Listener/RateLimit/Trace.antt =====
-- What the limiter guarantees over a whole run of requests (packages/listener/src/rate-limit.ts).
use zettapay.Prelude.{
  ℕ, ◌≤◌, ◌<◌, ◌≡◌, refl, false, List, [], ◌∷◌, ◌++◌, length, leb, arith, Text, Bool-cases,
  if◌then◌else◌, ap, ◌===◌, text_eq_iff, text_eq_refl, leb_false→lt, inl, inr,
}
use zettapay.Prelude.Dict.{lookup, lookup-insert}
use zettapay.Listener.RateLimit.{
  RateLimitConfig, RateLimitDecision, allowed, denied, Limiter, new_limiter, prune, hit, bucket_of,
  ring_of,
}
use zettapay.Listener.RateLimit.Window.{
  Mirrors, Mirrors-prune, Mirrors-push, IsBounded, IsBounded-push, count_in,
}

-- A request: when it comes and who calls.
abbrev pub Request : Type 0
Request = ℕ × Text

abbrev pub admit : RateLimitDecision → ℕ → List ℕ → List ℕ
admit allowed t log = log ++ t ∷ []
admit (denied scope seconds) t log = log

abbrev pub admit_of : Text → RateLimitDecision → ℕ → Text → List ℕ → List ℕ
admit_of who d t caller log = if caller === who then admit d t log else log

module _ (cfg : RateLimitConfig) where
  -- The times of the requests that were let in, and of those of one caller.
  pub admitted : Limiter → List ℕ → List Request → List ℕ
  admitted lim log [] = log
  admitted lim log ((t, caller) ∷ rs) =
      let (d, lim') = hit cfg t caller lim in admitted lim' (admit d t log) rs

  pub admitted_of : Text → Limiter → List ℕ → List Request → List ℕ
  admitted_of who lim log [] = log
  admitted_of who lim log ((t, caller) ∷ rs) =
      let (d, lim') = hit cfg t caller lim in admitted_of who lim' (admit_of who d t caller log) rs

-- The clock does not go back.
abbrev pub IsTimed : ℕ → List Request → Type 0
IsTimed now [] = Unit
IsTimed now ((t, caller) ∷ rs) = (now ≤ t) × IsTimed t rs

module _ (cfg : RateLimitConfig) (pos : 0 < cfg.window_ms) where
  hit_global :
      (t : ℕ) (caller : Text) (lim : Limiter) (log : List ℕ)
      → Mirrors cfg.window_ms t (prune cfg.window_ms t lim.global_hits) log
      → IsBounded cfg.window_ms cfg.global_per_window log
      → let (d, lim') = hit cfg t caller lim in
        Mirrors cfg.window_ms t lim'.global_hits (admit d t log)
        × IsBounded cfg.window_ms cfg.global_per_window (admit d t log)
  unfolding hit
  hit_global t caller lim log m b =
      let recent = prune cfg.window_ms t lim.global_hits in
      let bucket = prune cfg.window_ms t (bucket_of caller lim) in
      elim (Bool-cases (leb cfg.global_per_window (length recent))) [
        | inl full ↦ rw full (m, b)
        | inr room ↦ elim (Bool-cases (leb cfg.per_ip_per_window (length bucket))) [
          | inl busy ↦ rw (room, busy) (m, b)
          | inr free ↦
              rw (room, free) (Mirrors-push m pos, IsBounded-push m (leb_false→lt _ _ room) b)
        ]
      ]

  admitted-IsBounded :
      (now : ℕ) (lim : Limiter) (log : List ℕ) (rs : List Request)
      → Mirrors cfg.window_ms now lim.global_hits log
      → IsBounded cfg.window_ms cfg.global_per_window log
      → IsTimed now rs
      → IsBounded cfg.window_ms cfg.global_per_window (admitted cfg lim log rs)
  unfolding admitted
  admitted-IsBounded now lim log [] m b timed = b
  admitted-IsBounded now lim log ((t, caller) ∷ rs) m b timed =
      let (d, lim') = hit cfg t caller lim in
      let (m', b') = hit_global t caller lim log (Mirrors-prune m timed.0) b in
      admitted-IsBounded t lim' (admit d t log) rs m' b' timed.1

  -- Over any run from a new limiter in which the clock does not go back, no window of `windowMs`
  -- holds more than `globalPerWindow` requests that were let in.
  pub global_bound :
      (rs : List Request) (t : ℕ)
      → IsTimed 0 rs
      → count_in cfg.window_ms t (admitted cfg new_limiter [] rs) ≤ cfg.global_per_window
  global_bound rs t timed =
      admitted-IsBounded 0 new_limiter [] rs (record { sorted = tt; past = tt; same = refl })
        (λ t'. omega arith) timed t

  -- The bucket of one caller, as it was when that caller last came.
  abbrev Bucket : Text → ℕ → Limiter → List ℕ → Type 0
  Bucket who now lim log = (at : ℕ) × (at ≤ now) × Mirrors cfg.window_ms at (bucket_of who lim) log

  hit_other :
      (who : Text) (t : ℕ) (caller : Text) (lim : Limiter)
      → (caller === who) ≡ false
      → bucket_of who (hit cfg t caller lim).1 ≡ bucket_of who lim
  unfolding hit
  hit_other who t caller lim other =
      let recent = prune cfg.window_ms t lim.global_hits in
      let bucket = prune cfg.window_ms t (bucket_of caller lim) in
      ground (
        arith,
        lookup-insert caller who bucket lim.per_ip,
        lookup-insert caller who (bucket ++ t ∷ []) lim.per_ip,
      )

  hit_own :
      (who : Text) (t : ℕ) (lim : Limiter) (log : List ℕ)
      → Mirrors cfg.window_ms t (prune cfg.window_ms t (bucket_of who lim)) log
      → (at : ℕ) × (at ≤ t) × Mirrors cfg.window_ms at (bucket_of who lim) log
      → IsBounded cfg.window_ms cfg.per_ip_per_window log
      → let (d, lim') = hit cfg t who lim in
        Bucket who t lim' (admit d t log)
        × IsBounded cfg.window_ms cfg.per_ip_per_window (admit d t log)
  unfolding hit
  hit_own who t lim log m old b =
      let recent = prune cfg.window_ms t lim.global_hits in
      let bucket = prune cfg.window_ms t (bucket_of who lim) in
      let kept = ap ring_of (lookup-insert who who bucket lim.per_ip) in
      let pushed = ap ring_of (lookup-insert who who (bucket ++ t ∷ []) lim.per_ip) in
      let own = text_eq_refl who in
      elim (Bool-cases (leb cfg.global_per_window (length recent))) [
        | inl full ↦ rw full (old, b)
        | inr room ↦ elim (Bool-cases (leb cfg.per_ip_per_window (length bucket))) [
          | inl busy ↦ rw (room, busy) ((t, omega arith, rw (kept, own) m), b)
          | inr free ↦
              rw (room, free)
                (
                  (t, omega arith, rw (pushed, own) (Mirrors-push m pos)),
                  IsBounded-push m (leb_false→lt _ _ free) b,
                )
        ]
      ]

  step_of :
      (who : Text) (now t : ℕ) (caller : Text) (lim : Limiter) (log : List ℕ)
      → now ≤ t
      → Bucket who now lim log
      → IsBounded cfg.window_ms cfg.per_ip_per_window log
      → let (d, lim') = hit cfg t caller lim in
        Bucket who t lim' (admit_of who d t caller log)
        × IsBounded cfg.window_ms cfg.per_ip_per_window (admit_of who d t caller log)
  step_of who now t caller lim log le (at, before, m) b = elim (Bool-cases (caller === who)) [
    | inr other ↦ rw other ((at, omega arith, rw (hit_other who t caller lim other) m), b)
    | inl own ↦
        let same = (text_eq_iff caller who).0 own in
        rw (same, text_eq_refl who)
          (hit_own who t lim log (Mirrors-prune m (omega arith)) (at, omega arith, m) b)
  ]

  admitted_of-IsBounded :
      (who : Text) (now : ℕ) (lim : Limiter) (log : List ℕ) (rs : List Request)
      → Bucket who now lim log
      → IsBounded cfg.window_ms cfg.per_ip_per_window log
      → IsTimed now rs
      → IsBounded cfg.window_ms cfg.per_ip_per_window (admitted_of cfg who lim log rs)
  unfolding admitted_of
  admitted_of-IsBounded who now lim log [] m b timed = b
  admitted_of-IsBounded who now lim log ((t, caller) ∷ rs) m b timed =
      let (d, lim') = hit cfg t caller lim in
      let (m', b') = step_of who now t caller lim log timed.0 m b in
      admitted_of-IsBounded who t lim' (admit_of who d t caller log) rs m' b' timed.1

  -- Over any run from a new limiter in which the clock does not go back, no window of `windowMs`
  -- holds more than `perIpPerWindow` requests of one caller that were let in.
  pub per_ip_bound :
      (who : Text) (rs : List Request) (t : ℕ)
      → IsTimed 0 rs
      → count_in cfg.window_ms t (admitted_of cfg who new_limiter [] rs) ≤ cfg.per_ip_per_window
  unfolding lookup
  per_ip_bound who rs t timed =
      admitted_of-IsBounded who 0 new_limiter [] rs
        (0, omega arith, record { sorted = tt; past = tt; same = refl }) (λ t'. omega arith) timed t
