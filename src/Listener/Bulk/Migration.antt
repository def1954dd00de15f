-- ===== src/Listener/Bulk/Migration.antt =====
-- packages/listener/src/cli/migrate.ts: an export of one adapter into the other.
use mathlib.Core.List.{Permᴰ}
use zettapay.Prelude.{
  ◌≡◌, refl, Option, none, some, List, [], ◌∷◌, ◌++◌, append_assoc, append-nil, sym, subst, ◌∙◌, ap,
}
use zettapay.Prelude.Dict.{Dict}
use zettapay.Listener.Errors.{ok, err}
use zettapay.Listener.Types.{Merchant, Invoice, WebhookEvent}
use zettapay.Listener.Storage.{Store, Action, pure, throw, ◌>>◌, File, good, read_merchant_or_null}
use zettapay.Listener.Storage.Reachable.{Operation, empty_directory}
use zettapay.Listener.Sqlite.Tables.{Database, find_row, upsert_row}
use zettapay.Listener.Sqlite.Files.{files, files_of, insert-find_row-none}
use zettapay.Listener.Sqlite.Calls.{sqlite_calls}
use zettapay.Listener.Bulk.{
  BulkExport, json_export_all, json_import_bulk, json_import_invoices, json_import_events,
  sqlite_export_all, sqlite_import_bulk, import_counts, first_row, json_import_merchant,
}
use zettapay.Listener.Bulk.Distinct.{
  HasDistinctIds, middle_free, upsert_all-append, read_all-files_of,
}
use zettapay.Listener.Bulk.Orders.{Permᴰ-HasDistinctIds}
use zettapay.Listener.Bulk.Keys.{HasKeys, empty_database, calls-HasKeys}

-- The loops over the rows, into a directory that holds others.
import_invoices :
    (rows done : List Invoice) (m : Option (File Merchant)) (other : Dict (File WebhookEvent))
    → HasDistinctIds Invoice.id (done ++ rows)
    → json_import_invoices rows
        (record { merchant = m; invoices = files_of Invoice.id done; events = other })
      ≡ (
        ok tt,
        record { merchant = m; invoices = files_of Invoice.id (done ++ rows); events = other },
      )
unfolding json_import_invoices
import_invoices [] done m other h = rw (append-nil done) refl
import_invoices (row ∷ more) done m other h =
    let assoc = append_assoc done (row ∷ []) more in
    ap (λ d. json_import_invoices more (record { merchant = m; invoices = d; events = other }))
      (insert-find_row-none Invoice.id row.id row done refl
        (middle_free Invoice.id done row more h))
    ∙ import_invoices more (done ++ row ∷ []) m other
        (subst (HasDistinctIds Invoice.id) (sym assoc) h)
    ∙ ap
        (λ rows.
          (ok tt, record { merchant = m; invoices = files_of Invoice.id rows; events = other }))
        assoc

import_events :
    (rows done : List WebhookEvent) (m : Option (File Merchant)) (other : Dict (File Invoice))
    → HasDistinctIds WebhookEvent.id (done ++ rows)
    → json_import_events rows
        (record { merchant = m; invoices = other; events = files_of WebhookEvent.id done })
      ≡ (
        ok tt,
        record { merchant = m; invoices = other; events = files_of WebhookEvent.id (done ++ rows) },
      )
unfolding json_import_events
import_events [] done m other h = rw (append-nil done) refl
import_events (row ∷ more) done m other h =
    let assoc = append_assoc done (row ∷ []) more in
    ap (λ d. json_import_events more (record { merchant = m; invoices = other; events = d }))
      (insert-find_row-none WebhookEvent.id row.id row done refl
        (middle_free WebhookEvent.id done row more h))
    ∙ import_events more (done ++ row ∷ []) m other
        (subst (HasDistinctIds WebhookEvent.id) (sym assoc) h)
    ∙ ap
        (λ rows. (
          ok tt,
          record { merchant = m; invoices = other; events = files_of WebhookEvent.id rows },
        ))
        assoc

-- A step that succeeds hands the directory on.
after :
    {A B : Type 0} (m : Action A) (k : Action B) (s : Store) {a : A} {s' : Store}
    → m s ≡ (ok a, s')
    → (m >> k) s ≡ k s'
after m k s e = ap (λ (r, t). elim r [ ok a ↦ k t | err thrown ↦ throw thrown t ]) e

-- What `exportAll` returns.
exported : Database → BulkExport
exported d = record {
  merchant = first_row d.merchants;
  invoices = d.invoices;
  webhook_events = d.events;
}

module _ (invoices : List Invoice) (events : List WebhookEvent) where
  abbrev tables : List Merchant → Database
  tables rows = record { merchants = rows; invoices = invoices; events = events }

  abbrev loops : Option Merchant → Action (Unit {0})
  loops m = json_import_merchant m >> json_import_invoices invoices >> json_import_events events

  -- The loops, once the merchant is written.
  import_rows :
      (rows : List Merchant) (m : Option Merchant) (file : Option (File Merchant))
      → HasKeys (tables rows)
      → json_import_merchant m empty_directory
        ≡ (ok tt, record { merchant = file; invoices = []; events = [] })
      → loops m empty_directory ≡ (
        ok tt,
        record {
          merchant = file;
          invoices = files_of Invoice.id invoices;
          events = files_of WebhookEvent.id events;
        },
      )
  import_rows rows m file keys e =
      let first = json_import_merchant m in
      let loop = json_import_invoices invoices in
      after (first >> loop) (json_import_events events) empty_directory
        (after first loop empty_directory e ∙ import_invoices invoices [] file [] keys.invoices)
      ∙ import_events events [] file (files_of Invoice.id invoices) keys.events

  json_import-exported :
      (rows : List Merchant)
      → HasKeys (tables rows)
      → json_import_bulk (exported (tables rows)) empty_directory
        ≡ (ok (import_counts (exported (tables rows))), files (tables rows))
  unfolding json_import_bulk exported
  json_import-exported [] keys =
      after (loops none) (pure (import_counts (exported (tables [])))) empty_directory
        (import_rows [] none none keys refl)
  json_import-exported (m ∷ rows) keys =
      after (loops (some m)) (pure (import_counts (exported (tables (m ∷ rows))))) empty_directory
        (import_rows (m ∷ rows) (some m) (some (good m)) keys refl)

  json_export-files :
      (rows : List Merchant)
      → json_export_all (files (tables rows)) ≡ (ok (exported (tables rows)), files (tables rows))
  unfolding json_export_all exported read_merchant_or_null
  json_export-files [] =
      rw (read_all-files_of Invoice.id invoices, read_all-files_of WebhookEvent.id events) refl
  json_export-files (m ∷ rows) =
      rw (read_all-files_of Invoice.id invoices, read_all-files_of WebhookEvent.id events) refl

  sqlite_import-exported :
      (rows : List Merchant)
      → HasKeys (tables rows)
      → sqlite_import_bulk (exported (tables rows)) empty_database
        ≡ (ok (import_counts (exported (tables rows))), tables rows)
  unfolding sqlite_import_bulk exported upsert_row find_row
  sqlite_import-exported [] keys =
      rw
        (
          upsert_all-append Invoice.id invoices [] keys.invoices,
          upsert_all-append WebhookEvent.id events [] keys.events,
        )
        refl
  sqlite_import-exported (m ∷ []) keys =
      rw
        (
          upsert_all-append Invoice.id invoices [] keys.invoices,
          upsert_all-append WebhookEvent.id events [] keys.events,
        )
        refl
  sqlite_import-exported (m ∷ n ∷ rows) keys = absurd keys.merchants

-- Whatever of the six calls that write filled the SQLite tables, their export, read into an empty
-- directory, leaves the files of the same rows. In whatever order a directory with these files is then listed, its export,
-- read into empty tables, gives the rows of the first tables back, in the order of the listing.
pub migration_round_trip :
    (ops : List Operation) (invoices : List Invoice) (events : List WebhookEvent)
    → Permᴰ (sqlite_calls ops empty_database).1.invoices invoices
    → Permᴰ (sqlite_calls ops empty_database).1.events events
    → let d = (sqlite_calls ops empty_database).1 in
      let listed = record d { invoices = invoices; events = events } in
      ((data_out : BulkExport) × (sqlite_export_all d ≡ (ok data_out, d))
        × (json_import_bulk data_out empty_directory ≡ (ok (import_counts data_out), files d)))
      × ((data_in : BulkExport) × (json_export_all (files listed) ≡ (ok data_in, files listed))
          × (sqlite_import_bulk data_in empty_database ≡ (ok (import_counts data_in), listed)))
unfolding sqlite_export_all exported
migration_round_trip ops invoices events listed_invoices listed_events =
    let d = (sqlite_calls ops empty_database).1 in
    let keys =
      calls-HasKeys ops empty_database (record { merchants = tt; invoices = tt; events = tt }) in
    (
      (exported d, refl, json_import-exported d.invoices d.events d.merchants keys),
      (
        exported (record d { invoices = invoices; events = events }),
        json_export-files invoices events d.merchants,
        sqlite_import-exported invoices events d.merchants (record {
          merchants = keys.merchants;
          invoices = Permᴰ-HasDistinctIds Invoice.id listed_invoices keys.invoices;
          events = Permᴰ-HasDistinctIds WebhookEvent.id listed_events keys.events;
        }),
      ),
    )
