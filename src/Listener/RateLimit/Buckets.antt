-- ===== src/Listener/RateLimit/Buckets.antt =====
-- The answer to a caller that is turned away, and what the map of callers keeps
-- (packages/listener/src/rate-limit.ts).
use zettapay.Prelude.{
  ℕ, ◌+◌, ◌-◌, ◌*◌, ◌/◌, ◌≤◌, ◌<◌, ◌≡◌, ◌≢◌, List, [], ◌∷◌, ◌++◌, length, arith, Text, none, max,
}
use zettapay.Prelude.Dict.{lookup, lookup-insert}
use zettapay.Listener.RateLimit.{
  RateLimitConfig, denied, Scope, Limiter, prune, hit, bucket_of, retry_after,
}
use zettapay.Listener.RateLimit.Trace.{Request}

length-prune-le : (window t : ℕ) (ring : List ℕ) → length (prune window t ring) ≤ length ring
unfolding prune
length-prune-le window t [] = omega arith
length-prune-le window t (h ∷ ring) = ground (arith, length-prune-le window t ring)

retry_after_frees :
    (window t : ℕ) (ring : List ℕ)
    → 0 < length ring
    → length (prune window (t + retry_after window t ring * 1000) ring) < length ring
unfolding prune retry_after
retry_after_frees window t [] p = absurd (omega arith)
retry_after_frees window t (h ∷ ring) p =
    let later = t + max 1 ((h + window - t + 999) / 1000) * 1000 in
    let past : h + window ≤ later = omega arith in
    ground (arith, past, length-prune-le window later ring)

-- When a request met the global ceiling, and the ceiling is not 0, fewer of the hits that were live
-- then are live `retryAfterSeconds` later.
pub denied_then_free :
    (cfg : RateLimitConfig) (t : ℕ) (caller : Text) (lim lim' : Limiter) (seconds : ℕ)
    → 0 < cfg.global_per_window
    → hit cfg t caller lim ≡ (denied Scope.global seconds, lim')
    → length (prune cfg.window_ms (t + seconds * 1000) lim'.global_hits) < length lim'.global_hits
unfolding hit
denied_then_free cfg t caller lim lim' seconds some_room e =
    let recent = prune cfg.window_ms t lim.global_hits in
    ground (arith, retry_after_frees cfg.window_ms t recent)

-- The limiter after a run of requests.
pub after : RateLimitConfig → Limiter → List Request → Limiter
after cfg lim [] = lim
after cfg lim ((t, caller) ∷ rs) = after cfg (hit cfg t caller lim).1 rs

hit-keeps :
    (cfg : RateLimitConfig) (t : ℕ) (caller who : Text) (lim : Limiter)
    → lookup who lim.per_ip ≢ none
    → lookup who (hit cfg t caller lim).1.per_ip ≢ none
unfolding hit
hit-keeps cfg t caller who lim there =
    let bucket = prune cfg.window_ms t (bucket_of caller lim) in
    ground (
      arith,
      lookup-insert caller who bucket lim.per_ip,
      lookup-insert caller who (bucket ++ t ∷ []) lim.per_ip,
    )

-- A bucket that was once made is never dropped, however long ago its last hit was.
bucket_never_dropped :
    (cfg : RateLimitConfig) (who : Text) (rs : List Request) (lim : Limiter)
    → lookup who lim.per_ip ≢ none
    → lookup who (after cfg lim rs).per_ip ≢ none
unfolding after
bucket_never_dropped cfg who [] lim there = there
bucket_never_dropped cfg who ((t, caller) ∷ rs) lim there =
    bucket_never_dropped cfg who rs (hit cfg t caller lim).1 (hit-keeps cfg t caller who lim there)
