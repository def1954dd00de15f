-- ===== src/Listener/RateLimit.antt =====
-- packages/listener/src/rate-limit.ts: a sliding window over all callers and one for each caller.
pub mod Window
pub mod Trace
pub mod Buckets
pub mod Env
mod Tests
use zettapay.Prelude.{
  ℕ, suc, ◌+◌, ◌-◌, ◌/◌, max, Bool, true, false, Option, none, some, List, [], ◌∷◌, ◌++◌, Text,
  length, leb, if◌then◌else◌,
}
use zettapay.Prelude.Dict.{Dict, lookup, insert}

pub record RateLimitConfig : Type 0 where
  pub per_ip_per_window : ℕ
  pub global_per_window : ℕ
  pub window_ms : ℕ

abbrev pub default_rate_limit : RateLimitConfig
default_rate_limit = record { per_ip_per_window = 30; global_per_window = 300; window_ms = 60000 }

pub data Scope : Type 0 where
  ip global : Scope

pub data RateLimitDecision : Type 0 where
  allowed : RateLimitDecision
  -- which ceiling, and `retryAfterSeconds`
  denied : Scope → ℕ → RateLimitDecision

pub record Limiter : Type 0 where
  pub per_ip : Dict (List ℕ)
  pub global_hits : List ℕ

abbrev pub new_limiter : Limiter
new_limiter = record { per_ip = []; global_hits = [] }

-- `prune(ring, t - window)` drops from the front; `h <= t - window` is `h + window <= t`.
unfoldable pub prune : ℕ → ℕ → List ℕ → List ℕ
prune window t [] = []
prune window t (h ∷ ring) =
    let rest = prune window t ring in if leb (h + window) t then rest else h ∷ ring

-- `Math.max(1, Math.ceil((oldest + window - t) / 1000))`
unfoldable pub retry_after : ℕ → ℕ → List ℕ → ℕ
retry_after window t [] = 1
retry_after window t (oldest ∷ ring) = max 1 ((oldest + window - t + 999) / 1000)

abbrev pub ring_of : Option (List ℕ) → List ℕ
ring_of none = []
ring_of (some ring) = ring

abbrev pub bucket_of : Text → Limiter → List ℕ
bucket_of caller lim = ring_of (lookup caller lim.per_ip)

unfoldable pub hit : RateLimitConfig → ℕ → Text → Limiter → RateLimitDecision × Limiter
hit cfg t caller lim =
    let recent = prune cfg.window_ms t lim.global_hits in
    let bucket = prune cfg.window_ms t (bucket_of caller lim) in
    if leb cfg.global_per_window (length recent)
    then (
      denied Scope.global (retry_after cfg.window_ms t recent),
      record lim { global_hits = recent },
    )
    else if leb cfg.per_ip_per_window (length bucket)
    then (
      denied Scope.ip (retry_after cfg.window_ms t bucket),
      record { per_ip = insert caller bucket lim.per_ip; global_hits = recent },
    )
    else (
      allowed,
      record {
        per_ip = insert caller (bucket ++ t ∷ []) lim.per_ip;
        global_hits = recent ++ t ∷ [];
      },
    )

unfoldable pub count_for : RateLimitConfig → ℕ → Text → Limiter → ℕ
count_for cfg t caller lim = length (prune cfg.window_ms t (bucket_of caller lim))
