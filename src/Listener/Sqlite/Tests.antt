-- ===== src/Listener/Sqlite/Tests.antt =====
-- Runs of packages/listener/src/storage/sqlite.ts and json.ts at concrete inputs.
use zettapay.Prelude.{◌≡◌, refl, none, some, true, List, [], ◌∷◌, codes, ◌===◌}
use zettapay.Listener.Errors.{ok, err, key_taken}
use zettapay.Listener.Types.{
  InvoiceInput, WebhookEvent, WebhookEventInput, base, confirmed, payment_orphan,
}
use zettapay.Listener.Storage as Json
use zettapay.Listener.Storage.{new_event, delivered}
use zettapay.Listener.Storage.Reachable.{
  Operation, make_invoice, set_status, record_event, mark_event, take_index,
}
use zettapay.Listener.Sqlite as Sqlite
use zettapay.Listener.Sqlite.Tables.{Database, find_row, insert_row, update_row}
use zettapay.Listener.Sqlite.Files.{files}
use zettapay.Listener.Sqlite.Calls.{json_calls, sqlite_calls, sqlite_call}
use zettapay.Listener.Sqlite.Refines.{calls_agree, record_webhook_event-taken}

abbrev empty : Database
empty = record { merchants = []; invoices = []; events = [] }

abbrev invoice : InvoiceInput
invoice = record {
  id = codes "i";
  merchant_id = codes "m";
  chain = base;
  asset = codes "USDC";
  amount = codes "5000000";
  address = codes "0x1";
  child_index = none;
  status = none;
  expires_at = 9000;
}

abbrev event : WebhookEventInput
event = record {
  id = codes "e";
  invoice_id = codes "i";
  payload = payment_orphan (record {
    merchant_id = codes "m";
    chain = base;
    asset = codes "USDC";
    token_address = codes "0x2";
    address = codes "0x1";
    tx_hash = codes "0x3";
    value = codes "17";
    detected_at = 5;
  });
  next_retry_at = 7;
}

-- An invoice that is made and paid, an event that is recorded and delivered, and a call that throws.
abbrev operations : List Operation
operations =
    make_invoice (codes "u") 1000 invoice
    ∷ set_status 2000 (codes "i") confirmed (λ inv. record inv { paid_at = some 2000 })
    ∷ record_event event
    ∷ mark_event 3000 (codes "e")
        (record { is_ok = true; status_code = some 200; error = none; next_retry_at = none })
    ∷ set_status 4000 (codes "nothing") confirmed (λ inv. inv)
    ∷ take_index (codes "m")
    ∷ []

calls_agree_example :
    json_calls operations (files empty)
    ≡ ((sqlite_calls operations empty).0, files (sqlite_calls operations empty).1)
unfolding sqlite_call find_row Sqlite.update_invoice_status Sqlite.create_invoice insert_row ◌===◌
    Sqlite.mark_webhook_delivered Sqlite.record_webhook_event update_row
calls_agree_example = calls_agree operations empty (refl, (tt, (refl, (tt, (tt, (tt, tt))))))

abbrev recorded : Database
recorded = record {
  merchants = [];
  invoices = [];
  events =
      delivered 9
        (record { is_ok = true; status_code = some 200; error = none; next_retry_at = none })
        (new_event event)
      ∷ [];
}

record_webhook_event-taken_example :
    (Sqlite.record_webhook_event event recorded ≡ (err key_taken, recorded))
    × (Json.record_webhook_event event (files recorded) ≡ (
      ok (new_event event),
      files (record recorded {
        events = update_row WebhookEvent.id event.id (new_event event) recorded.events;
      }),
    ))
unfolding find_row delivered ◌===◌
record_webhook_event-taken_example = record_webhook_event-taken recorded event _ refl
