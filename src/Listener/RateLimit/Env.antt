-- ===== src/Listener/RateLimit/Env.antt =====
-- The setting ZETTAPAY_RATE_LIMIT: `parseRateLimitEnv` of packages/listener/src/rate-limit.ts. A
-- number that is read is exact, where the source's is rounded from 2 ^ 53 on.
use zettapay.Prelude.{
  ℕ, ◌+◌, ◌-◌, ◌*◌, ◌≤◌, ◌≡◌, max, Bool, ◌&&◌, ◌||◌, Option, none, some, List, [], ◌∷◌, Text, codes,
  leb, ltb, if◌then◌else◌, ◌==◌, ◌===◌, split, trim, to_lower_case, map, get_elem?, arith,
}
use zettapay.Listener.RateLimit.{RateLimitConfig}

-- The digits at the front, with the number read so far.
leading_digits : ℕ → Text → ℕ
leading_digits acc [] = acc
leading_digits acc (c ∷ s) =
    let rest = leading_digits (acc * 10 + (c - b'0')) s in
    if leb b'0' c && leb c b'9' then rest else acc

-- `Number.parseInt(s, 10)` of a trimmed text: none stands for `NaN` and for a negative number.
parse_int : Text → Option ℕ
unfolding leading_digits
parse_int [] = none
parse_int (c ∷ s) =
    if c == b'+'
    then elim s [
      | [] ↦ none
      | d ∷ ds ↦ if leb b'0' d && leb d b'9' then some (leading_digits 0 (d ∷ ds)) else none
    ]
    else if leb b'0' c && leb c b'9'
    then some (leading_digits 0 (c ∷ s))
    else none

positive_or : Option ℕ → ℕ → ℕ
positive_or none fallback = fallback
positive_or (some n) fallback = if ltb 0 n then n else fallback

unfoldable pub to_positive_int : Option Text → ℕ → ℕ
unfolding parse_int positive_or
to_positive_int none fallback = fallback
to_positive_int (some s) fallback = positive_or (parse_int s) fallback

slash_to_comma : ℕ → ℕ
slash_to_comma c = if c == b'/' then b',' else c

-- `split(/[,/]/)` and `trim` of each part
unfoldable pub parts_of : Text → List Text
unfolding slash_to_comma
parts_of s = map trim (split b',' (map slash_to_comma s))

unfoldable pub is_off : Text → Bool
is_off s = s === codes "off" || (s === codes "disabled" || s === codes "0")

-- `none` is `null`: no limit.
unfoldable pub parse_rate_limit_env : Option Text → RateLimitConfig → Option RateLimitConfig
parse_rate_limit_env none base = some base
parse_rate_limit_env (some raw) base =
    let trimmed = to_lower_case (trim raw) in
    let parts = parts_of trimmed in
    let per_ip = to_positive_int (get_elem? parts 0) base.per_ip_per_window in
    let all = to_positive_int (get_elem? parts 1) base.global_per_window in
    if trimmed === []
    then some base
    else if is_off trimmed
    then none
    else some (record {
      per_ip_per_window = per_ip;
      global_per_window = max all per_ip;
      window_ms = base.window_ms;
    })

to_positive_int_pos :
    (s : Option Text) (fallback : ℕ) → 1 ≤ fallback → 1 ≤ to_positive_int s fallback
unfolding to_positive_int positive_or
to_positive_int_pos none fallback h = h
to_positive_int_pos (some s) fallback h = ground arith

-- Whatever the text, the limits that come out let at least one request of a caller in, let in at
-- least as many of all callers as of one, and keep the window, if the defaults do.
parse_rate_limit_env_sound :
    (raw : Option Text) (base cfg : RateLimitConfig)
    → 1 ≤ base.per_ip_per_window
    → base.per_ip_per_window ≤ base.global_per_window
    → parse_rate_limit_env raw base ≡ some cfg
    → (1 ≤ cfg.per_ip_per_window)
      × (cfg.per_ip_per_window ≤ cfg.global_per_window)
      × (cfg.window_ms ≡ base.window_ms)
unfolding parse_rate_limit_env
parse_rate_limit_env_sound none base cfg p q e = ground arith
parse_rate_limit_env_sound (some raw) base cfg p q e =
    let parts = parts_of (to_lower_case (trim raw)) in
    ground (arith, to_positive_int_pos (get_elem? parts 0) base.per_ip_per_window p)
