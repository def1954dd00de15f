-- ===== src/Listener/Bulk.antt =====
-- packages/listener/src/storage/json.ts and sqlite.ts: `exportAll` and `importBulk` of both adapters,
-- which `zettapay-listener migrate` runs one after the other.
pub mod Distinct
pub mod Keys
pub mod Orders
pub mod Migration
mod Tests
use zettapay.Prelude.{ℕ, ◌+◌, Option, none, some, List, [], ◌∷◌, length, Text}
use zettapay.Prelude.Dict.{Dict}
use zettapay.Listener.Errors.{Result, ok, err, corrupted}
use zettapay.Listener.Types.{Merchant, Invoice, WebhookEvent}
use zettapay.Listener.Storage as Json
use zettapay.Listener.Storage.{File, good, corrupt, Action, Store, ◌>>=◌, ◌>>◌}
use zettapay.Listener.Sqlite as Sqlite
use zettapay.Listener.Sqlite.{Query, Database, upsert_row}

pub record BulkExport : Type 0 where
  pub merchant : Option Merchant
  pub invoices : List Invoice
  pub webhook_events : List WebhookEvent

pub record BulkImportResult : Type 0 where
  pub merchants : ℕ
  pub invoices : ℕ
  pub webhook_events : ℕ

abbrev one_if_some : Option Merchant → ℕ
one_if_some none = 0
one_if_some (some m) = 1

-- The counts of `importBulk`.
abbrev pub import_counts : BulkExport → BulkImportResult
import_counts data_in = record {
  merchants = one_if_some data_in.merchant;
  invoices = length data_in.invoices;
  webhook_events = length data_in.webhook_events;
}

-- The loop that reads a directory; a file that does not parse ends it.
abbrev pub read_all : {A : Type 0} → Dict (File A) → Result (List A)
read_all [] = ok []
read_all ((_, corrupt) ∷ d) = err corrupted
read_all ((_, good a) ∷ d) = elim (read_all d) [ ok rest ↦ ok (a ∷ rest) | err e ↦ err e ]

unfoldable pub json_export_all : Action BulkExport
json_export_all = do
  merchant ← Json.read_merchant_or_null
  invoices ← (λ s. (read_all s.invoices, s))
  events ← (λ s. (read_all s.events, s))
  Json.pure (record { merchant = merchant; invoices = invoices; webhook_events = events })

abbrev pub json_import_merchant : Option Merchant → Action (Unit {0})
json_import_merchant none = Json.pure tt
json_import_merchant (some m) = Json.write_merchant m

unfoldable pub json_import_invoices : List Invoice → Action (Unit {0})
json_import_invoices [] = Json.pure tt
json_import_invoices (inv ∷ more) = Json.write_invoice inv.id inv >> json_import_invoices more

unfoldable pub json_import_events : List WebhookEvent → Action (Unit {0})
json_import_events [] = Json.pure tt
json_import_events (evt ∷ more) = Json.write_event evt.id evt >> json_import_events more

unfoldable pub json_import_bulk : BulkExport → Action BulkImportResult
json_import_bulk data_in =
    json_import_merchant data_in.merchant
    >> json_import_invoices data_in.invoices
    >> json_import_events data_in.webhook_events
    >> Json.pure (import_counts data_in)

abbrev pub first_row : List Merchant → Option Merchant
first_row [] = none
first_row (m ∷ rows) = some m

unfoldable pub sqlite_export_all : Query BulkExport
sqlite_export_all = Sqlite.gets (λ d. record {
  merchant = first_row d.merchants;
  invoices = d.invoices;
  webhook_events = d.events;
})

abbrev upsert_merchant : Option Merchant → List Merchant → List Merchant
upsert_merchant none rows = rows
upsert_merchant (some m) rows = upsert_row Merchant.id m rows

unfoldable pub upsert_all : {A : Type 0} → (A → Text) → List A → List A → List A
upsert_all id_of [] rows = rows
upsert_all id_of (a ∷ more) rows = upsert_all id_of more (upsert_row id_of a rows)

-- One transaction.
unfoldable pub sqlite_import_bulk : BulkExport → Query BulkImportResult
sqlite_import_bulk data_in d = (
  ok (import_counts data_in),
  record {
    merchants = upsert_merchant data_in.merchant d.merchants;
    invoices = upsert_all Invoice.id data_in.invoices d.invoices;
    events = upsert_all WebhookEvent.id data_in.webhook_events d.events;
  },
)
