-- ===== src/Listener/Dispatcher/Tests.antt =====
-- Runs of packages/listener/src/webhook-dispatcher.ts at concrete inputs.
use zettapay.Prelude.{ℕ, ◌≡◌, refl, none, some, [], ◌∷◌, Text, codes, ◌===◌, arith}
use zettapay.Prelude.Dict.{lookup}
use zettapay.Listener.Errors.{ok}
use zettapay.Listener.Types.{base, WebhookEvent, base_confirmed}
use zettapay.Listener.Storage.{Store, good}
use zettapay.Listener.Dispatcher.{Server, status, deliver_one, tick}
use zettapay.Listener.Dispatcher.Delivery.{attempted, deliver_one_effect}
use zettapay.Listener.Dispatcher.Blocked.{file_of, dead_events_block}

abbrev event : Text → ℕ → WebhookEvent
event id attempts = record {
  id = id;
  invoice_id = codes "inv_1";
  payload = base_confirmed (record {
    invoice_id = codes "inv_1";
    merchant_id = codes "m";
    chain = base;
    asset = codes "USDC";
    amount = codes "5";
    address = codes "0x1";
    tx_hash = none;
    balance = codes "5";
    confirmed_at = 1;
  });
  attempts = attempts;
  next_retry_at = 1000;
  delivered_at = none;
  last_status_code = none;
  last_error = none;
}

abbrev unavailable : Server
unavailable evt attempt = status 503

-- A dead event in front of a new one.
abbrev store : Store
store = record {
  merchant = none;
  invoices = [];
  events = file_of (event (codes "a") 10) ∷ file_of (event (codes "b") 0) ∷ [];
}

deliver_one_effect_example :
    let evt = event (codes "b") 0 in
    let (r, s') = deliver_one 2000 unavailable evt store in
    (r ≡ ok tt)
    × (s'.invoices ≡ [])
    × (s'.merchant ≡ none)
    × (lookup (codes "b") s'.events ≡ some (good (attempted 2000 unavailable evt)))
unfolding lookup ◌===◌
deliver_one_effect_example =
    deliver_one_effect 2000 unavailable (event (codes "b") 0) store (codes "b") refl

dead_events_block_example : tick 9000 1 unavailable store ≡ (ok tt, store)
dead_events_block_example =
    dead_events_block 2000 9000 unavailable (event (codes "a") 10) []
      (file_of (event (codes "b") 0) ∷ []) store refl ((omega arith, refl, omega arith), tt)
      (omega arith)
