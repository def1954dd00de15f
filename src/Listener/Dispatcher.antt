-- ===== src/Listener/Dispatcher.antt =====
-- packages/listener/src/webhook-dispatcher.ts: due events are posted, and failures are retried on a
-- fixed curve. A tick is one step; what the merchant's server answers is an argument.
pub mod Curve
pub mod Delivery
pub mod Blocked
mod Tests
use zettapay.Prelude.{
  ℕ, suc, ◌+◌, ◌-◌, ◌*◌, Bool, true, false, ◌||◌, ◌&&◌, Option, none, some, List, [], ◌∷◌, ◌++◌,
  Text, codes, length, get_elem?, leb, min, max, if◌then◌else◌,
}
use zettapay.Prelude.Numerals.{to_string}
use zettapay.Listener.Errors.{Result, ok, err}
use zettapay.Listener.Types.{WebhookEvent, WebhookDeliveryResult}
use zettapay.Listener.Storage.{
  Store, Action, pure, gets, ◌>>=◌, ◌>>◌, get_webhook_events_due, mark_webhook_delivered,
}

abbrev pub second : ℕ
second = 1000

abbrev pub minute : ℕ
minute = 60 * second

abbrev pub hour : ℕ
hour = 60 * minute

abbrev pub retry_curve_ms : List ℕ
retry_curve_ms =
    1 * second
    ∷ 5 * second
    ∷ 30 * second
    ∷ 2 * minute
    ∷ 10 * minute
    ∷ 30 * minute
    ∷ 1 * hour
    ∷ 3 * hour
    ∷ 12 * hour
    ∷ 24 * hour
    ∷ []

abbrev pub max_attempts : ℕ
max_attempts = length retry_curve_ms

abbrev pub default_batch : ℕ
default_batch = 25

abbrev delay_or_day : Option ℕ → ℕ
delay_or_day none = 24 * hour
delay_or_day (some delay) = delay

-- `RETRY_CURVE_MS[Math.max(0, Math.min(attempt, length) - 1)] ?? 24 * HOUR`; the subtraction that
-- goes below 0 is the one that `Math.max` brings back to 0.
unfoldable pub retry_delay : ℕ → ℕ
retry_delay attempt_number =
    delay_or_day (get_elem? retry_curve_ms (min attempt_number (length retry_curve_ms) - 1))

unfoldable pub next_retry_date : ℕ → ℕ → ℕ
next_retry_date now attempt_number = now + retry_delay attempt_number

-- What a request comes to: a response with its status, or an exception with its message.
pub data Response : Type 0 where
  status : ℕ → Response
  failure : Text → Response

-- `res.ok`
abbrev pub is_2xx : ℕ → Bool
is_2xx code = leb 200 code && leb code 299

unfoldable pub succeeded : Response → Bool
succeeded (status code) = is_2xx code
succeeded (failure message) = false

status_code_of : Response → Option ℕ
status_code_of (status code) = some code
status_code_of (failure message) = none

error_of : Response → Option Text
error_of (status code) = if is_2xx code then none else some (codes "http_" ++ to_string code)
error_of (failure message) = some message

unfoldable pub delivery_result : ℕ → ℕ → Response → WebhookDeliveryResult
unfolding succeeded status_code_of error_of
delivery_result now attempt_number response = record {
  is_ok = succeeded response;
  status_code = status_code_of response;
  error = error_of response;
  next_retry_at = if succeeded response then none else some (next_retry_date now attempt_number);
}

-- The merchant's server, which is given the event and the number of the attempt.
abbrev pub Server : Type 0
Server = WebhookEvent → ℕ → Response

unfoldable pub deliver_one : ℕ → Server → WebhookEvent → Action (Unit {0})
deliver_one now post evt =
    if leb max_attempts evt.attempts
    then pure tt
    else mark_webhook_delivered now evt.id
        (delivery_result now (evt.attempts + 1) (post evt (evt.attempts + 1)))

unfoldable pub deliver_all : ℕ → Server → List WebhookEvent → Action (Unit {0})
deliver_all now post [] = pure tt
deliver_all now post (evt ∷ due) = deliver_one now post evt >> deliver_all now post due

-- A tick that neither `stop` nor a running tick holds off.
unfoldable pub tick : ℕ → ℕ → Server → Action (Unit {0})
tick now batch post = do deliver_all now post (← get_webhook_events_due now batch)
