-- ===== src/Listener/Dispatcher/Delivery.antt =====
-- One delivery and what it leaves in the event's file (packages/listener/src/webhook-dispatcher.ts
-- and `markWebhookDelivered` of packages/listener/src/storage/json.ts).
use zettapay.Prelude.{
  ℕ, ◌+◌, ◌≡◌, refl, false, not, ◌&&◌, none, some, Text, codes, ◌++◌, leb, arith, ◌===◌,
  if◌then◌else◌, Bool-cases, inl, inr,
}
use zettapay.Prelude.Dict.{lookup, insert, lookup-insert}
use zettapay.Prelude.Numerals.{to_string}
use zettapay.Listener.Errors.{ok}
use zettapay.Listener.Types.{WebhookEvent, WebhookDeliveryResult}
use zettapay.Listener.Storage.{
  Store, good, is_due, read_json_or_null, mark_webhook_delivered, delivered,
}
use zettapay.Listener.Dispatcher.{
  Response, status, failure, max_attempts, Server, succeeded, delivery_result, next_retry_date,
  deliver_one,
}

mark-good :
    (now : ℕ) (id : Text) (result : WebhookDeliveryResult) (s : Store) {evt : WebhookEvent}
    → lookup id s.events ≡ some (good evt)
    → mark_webhook_delivered now id result s
      ≡ (ok tt, record s { events = insert id (good (delivered now result evt)) s.events })
unfolding mark_webhook_delivered
mark-good now id result s found = rw (found, read_json_or_null)

-- What an attempt makes of an event, by the response.
abbrev pub after_response : ℕ → Response → WebhookEvent → WebhookEvent
after_response now (status code) evt =
    if leb 200 code && leb code 299
    then record evt {
      attempts = evt.attempts + 1;
      delivered_at = some now;
      last_status_code = some code;
      last_error = none;
    }
    else record evt {
      attempts = evt.attempts + 1;
      last_status_code = some code;
      last_error = some (codes "http_" ++ to_string code);
      next_retry_at = next_retry_date now (evt.attempts + 1);
    }
after_response now (failure message) evt = record evt {
  attempts = evt.attempts + 1;
  last_error = some message;
  next_retry_at = next_retry_date now (evt.attempts + 1);
}

abbrev pub attempted : ℕ → Server → WebhookEvent → WebhookEvent
attempted now post evt = after_response now (post evt (evt.attempts + 1)) evt

delivered-response :
    (now : ℕ) (r : Response) (evt : WebhookEvent)
    → delivered now (delivery_result now (evt.attempts + 1) r) evt ≡ after_response now r evt
unfolding delivered delivery_result succeeded
delivered-response now (status code) evt = elim (Bool-cases (leb 200 code && leb code 299)) [
  | inl fine ↦ rw fine refl
  | inr bad ↦ rw bad refl
]
delivered-response now (failure message) evt = refl

-- The file of an event that has attempts left gets one attempt more and what the merchant's server
-- answers to the post of that attempt's number: after a 2xx status the time of delivery, that status
-- and no error; after another status that status, its error, and the next point of the retry curve;
-- after an exception its message and the next point, with the last status as before. The file of an
-- event with no attempt left stays, and so does every other file.
pub deliver_one_effect :
    (now : ℕ) (post : Server) (evt : WebhookEvent) (s : Store) (j : Text)
    → lookup evt.id s.events ≡ some (good evt)
    → let (r, s') = deliver_one now post evt s in
      (r ≡ ok tt)
      × (s'.invoices ≡ s.invoices)
      × (s'.merchant ≡ s.merchant)
      × (lookup j s'.events ≡ (
          if not (leb max_attempts evt.attempts) && evt.id === j
          then some (good (attempted now post evt))
          else lookup j s.events))
unfolding deliver_one
deliver_one_effect now post evt s j found = elim (Bool-cases (leb max_attempts evt.attempts)) [
  | inl dead ↦ rw dead (refl, refl, refl, refl)
  | inr alive ↦
      let result = delivery_result now (evt.attempts + 1) (post evt (evt.attempts + 1)) in
      rw
        (
          alive,
          mark-good now evt.id result s found,
          delivered-response now (post evt (evt.attempts + 1)) evt,
        )
        (refl, refl, refl, lookup-insert evt.id j (good (attempted now post evt)) s.events)
]

-- A 2xx answer settles an event: it is never due again. Any other answer, or none, leaves it
-- undelivered and due again exactly from the next point of the retry curve on.
attempted_due :
    (now t : ℕ) (post : Server) (evt : WebhookEvent)
    → evt.delivered_at ≡ none
    → (attempted now post evt).attempts ≡ evt.attempts + 1
      × (is_due t (attempted now post evt) ≡ (
          if succeeded (post evt (evt.attempts + 1))
          then false
          else leb (next_retry_date now (evt.attempts + 1)) t))
unfolding delivered delivery_result is_due
attempted_due now t post evt undelivered = ground arith
