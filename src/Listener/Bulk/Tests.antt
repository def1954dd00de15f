-- ===== src/Listener/Bulk/Tests.antt =====
-- A run of packages/listener/src/cli/migrate.ts at concrete tables.
use mathlib.Core.List.{Permᴰ, reverse}
use zettapay.Prelude.{◌≡◌, refl, none, List, [], ◌∷◌, codes, ◌===◌}
use zettapay.Listener.Errors.{ok}
use zettapay.Listener.Types.{base, InvoiceInput}
use zettapay.Listener.Storage.Reachable.{
  Operation, make_merchant, make_invoice, take_index, empty_directory,
}
use zettapay.Listener.Sqlite.Files.{files}
use zettapay.Listener.Sqlite.Calls.{sqlite_call, sqlite_calls}
use zettapay.Listener.Sqlite as Sqlite
use zettapay.Listener.Sqlite.Tables.{Database, find_row, insert_row, update_row}
use zettapay.Listener.Bulk.{
  BulkExport, json_export_all, json_import_bulk, sqlite_export_all, sqlite_import_bulk,
  import_counts,
}
use zettapay.Listener.Bulk.Keys.{empty_database}
use zettapay.Listener.Bulk.Migration.{migration_round_trip}

abbrev invoice : InvoiceInput
invoice = record {
  id = codes "i";
  merchant_id = codes "m";
  chain = base;
  asset = codes "USDC";
  amount = codes "5000000";
  address = codes "0x1";
  child_index = none;
  status = none;
  expires_at = 9000;
}

-- A merchant, an index, an invoice, and the same invoice again, which throws.
abbrev operations : List Operation
operations =
    make_merchant (codes "m") 5 (record {
      shop_name = codes "s";
      email = codes "e";
      xpub = codes "x";
      webhook_url = codes "w";
      webhook_secret_hash = codes "h";
    })
    ∷ take_index (codes "m")
    ∷ make_invoice (codes "u") 1000 invoice
    ∷ make_invoice (codes "v") 2000 invoice
    ∷ make_invoice (codes "v") 2000 (record invoice { id = codes "j" })
    ∷ []

abbrev filled : Database
filled = (sqlite_calls operations empty_database).1

-- The directory lists its two invoices the other way round.
migration_round_trip_example :
    let listed = record filled { invoices = reverse filled.invoices } in
    ((data_out : BulkExport) × (sqlite_export_all filled ≡ (ok data_out, filled))
      × (json_import_bulk data_out empty_directory ≡ (ok (import_counts data_out), files filled)))
    × ((data_in : BulkExport) × (json_export_all (files listed) ≡ (ok data_in, files listed))
        × (sqlite_import_bulk data_in empty_database ≡ (ok (import_counts data_in), listed)))
unfolding sqlite_calls sqlite_call Sqlite.create_merchant Sqlite.create_invoice
    Sqlite.next_child_index find_row insert_row update_row ◌===◌
migration_round_trip_example =
    migration_round_trip operations (reverse filled.invoices) filled.events (Permᴰ.swap refl refl)
      Permᴰ.nil
