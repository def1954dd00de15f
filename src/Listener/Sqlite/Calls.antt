-- ===== src/Listener/Sqlite/Calls.antt =====
-- Sequences of calls of the two adapters of packages/listener/src/storage.
use zettapay.Prelude.{ℕ, ◌≡◌, none, List, [], ◌∷◌, Text}
use zettapay.Listener.Errors.{Result, ok, err}
use zettapay.Listener.Types.{Merchant, Invoice, WebhookEvent}
use zettapay.Listener.Storage as Json
use zettapay.Listener.Storage.{Store, new_invoice, new_event, Action, merge, delivered}
use zettapay.Listener.Storage.Reachable.{
  Operation, make_merchant, make_invoice, set_status, record_event, mark_event, take_index,
}
use zettapay.Listener.Sqlite as Sqlite
use zettapay.Listener.Sqlite.Tables.{Database, Query, find_row}
use zettapay.Listener.Sqlite.Files.{files}

-- What a call returns.
pub data Answer : Type 0 where
  merchant_is : Merchant → Answer
  invoice_is : Invoice → Answer
  event_is : WebhookEvent → Answer
  index_is : ℕ → Answer
  done : Answer

abbrev pub answered : {A B : Type 0} → (A → Answer) → Result A × B → Result Answer × B
answered f (ok a, s) = (ok (f a), s)
answered f (err e, s) = (err e, s)

unfoldable pub json_call : Operation → Action Answer
json_call (make_merchant uuid now input) s =
    answered merchant_is (Json.create_merchant uuid now input s)
json_call (make_invoice uuid now input) s =
    answered invoice_is (Json.create_invoice uuid now input s)
json_call (set_status now id status patch) s =
    answered invoice_is (Json.update_invoice_status now id status patch s)
json_call (record_event input) s = answered event_is (Json.record_webhook_event input s)
json_call (mark_event now id result) s =
    answered (λ _. done) (Json.mark_webhook_delivered now id result s)
json_call (take_index merchant_id) s = answered index_is (Json.next_child_index merchant_id s)

unfoldable pub sqlite_call : Operation → Query Answer
sqlite_call (make_merchant uuid now input) d =
    answered merchant_is (Sqlite.create_merchant uuid now input d)
sqlite_call (make_invoice uuid now input) d =
    answered invoice_is (Sqlite.create_invoice uuid now input d)
sqlite_call (set_status now id status patch) d =
    answered invoice_is (Sqlite.update_invoice_status now id status patch d)
sqlite_call (record_event input) d = answered event_is (Sqlite.record_webhook_event input d)
sqlite_call (mark_event now id result) d =
    answered (λ _. done) (Sqlite.mark_webhook_delivered now id result d)
sqlite_call (take_index merchant_id) d = answered index_is (Sqlite.next_child_index merchant_id d)

-- No merchant, or the one with the key first.
abbrev pub IsOwn : Text → List Merchant → Type 0
IsOwn k [] = Unit
IsOwn k (m ∷ rows) = m.id ≡ k

-- The call neither inserts under a key that is taken nor asks for the index of a merchant other
-- than the one that is there.
abbrev pub IsCongruent : Operation → Database → Type 0
IsCongruent (make_invoice uuid now input) d =
    find_row Invoice.id (new_invoice uuid now input).id d.invoices ≡ none
IsCongruent (record_event input) d = find_row WebhookEvent.id input.id d.events ≡ none
IsCongruent (take_index merchant_id) d = IsOwn merchant_id d.merchants
IsCongruent _ d = Unit

abbrev pub same_answer : Result Answer × Database → Result Answer × Store
same_answer (r, d) = (r, files d)

-- The calls in turn, with all their answers.
unfoldable pub json_calls : List Operation → Store → List (Result Answer) × Store
json_calls [] s = ([], s)
json_calls (op ∷ ops) s =
    let (r, s1) = json_call op s in let (rs, s2) = json_calls ops s1 in (r ∷ rs, s2)

unfoldable pub sqlite_calls : List Operation → Database → List (Result Answer) × Database
sqlite_calls [] d = ([], d)
sqlite_calls (op ∷ ops) d =
    let (r, d1) = sqlite_call op d in let (rs, d2) = sqlite_calls ops d1 in (r ∷ rs, d2)

-- Every call is congruent where it is made.
abbrev pub AreCongruent : List Operation → Database → Type 0
AreCongruent [] d = Unit
AreCongruent (op ∷ ops) d = IsCongruent op d × AreCongruent ops (sqlite_call op d).1
