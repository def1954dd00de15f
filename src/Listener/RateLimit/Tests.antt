-- ===== src/Listener/RateLimit/Tests.antt =====
-- Runs of packages/listener/src/rate-limit.ts at concrete inputs.
use zettapay.Prelude.{◌+◌, ◌*◌, ◌≤◌, ◌<◌, refl, List, [], ◌∷◌, Text, codes, length, arith}
use zettapay.Listener.RateLimit.{RateLimitConfig, Limiter, new_limiter, prune, hit, retry_after}
use zettapay.Listener.RateLimit.Window.{count_in}
use zettapay.Listener.RateLimit.Trace.{Request, admitted, admitted_of, global_bound, per_ip_bound}
use zettapay.Listener.RateLimit.Buckets.{denied_then_free}

abbrev config : RateLimitConfig
config = record { per_ip_per_window = 1; global_per_window = 2; window_ms = 5000 }

abbrev alice : Text
alice = codes "10.0.0.1"

abbrev bob : Text
bob = codes "10.0.0.2"

abbrev requests : List Request
requests = (100, alice) ∷ (200, bob) ∷ (300, alice) ∷ (5100, alice) ∷ []

global_bound_example : count_in config.window_ms 5150 (admitted config new_limiter [] requests) ≤ 2
global_bound_example =
    global_bound config (omega arith) requests 5150
      (omega arith, (omega arith, (omega arith, (omega arith, tt))))

per_ip_bound_example :
    count_in config.window_ms 5150 (admitted_of config alice new_limiter [] requests) ≤ 1
per_ip_bound_example =
    per_ip_bound config (omega arith) alice requests 5150
      (omega arith, (omega arith, (omega arith, (omega arith, tt))))

abbrev full : Limiter
full = record { per_ip = (alice, 100 ∷ []) ∷ (bob, 200 ∷ []) ∷ []; global_hits = 100 ∷ 200 ∷ [] }

denied_then_free_example :
    length (prune config.window_ms (300 + 5 * 1000) full.global_hits) < length full.global_hits
unfolding hit prune retry_after
denied_then_free_example = denied_then_free config 300 alice full full 5 (omega arith) refl
