-- ===== src/Listener/Sqlite/Files.antt =====
-- The data directory of packages/listener/src/storage/json.ts that holds what the tables of
-- packages/listener/src/storage/sqlite.ts hold: a file for each row, named by its key.
use zettapay.Prelude.{
  ◌≡◌, refl, Option, none, some, List, [], ◌∷◌, ◌++◌, Text, text_eq_iff, arith, ap,
}
use zettapay.Prelude.Dict.{Dict, lookup, insert}
use zettapay.Listener.Types.{Merchant, Invoice, WebhookEvent}
use zettapay.Listener.Storage.{File, good, Store, good_files}
use zettapay.Listener.Sqlite.Tables.{find_row, update_row, Database}

abbrev pub file_or_none : {A : Type 0} → Option A → Option (File A)
file_or_none none = none
file_or_none (some a) = some (good a)

module _ {A : Type 0} (id_of : A → Text) where
  abbrev pub files_of : List A → Dict (File A)
  files_of [] = []
  files_of (r ∷ rows) = (id_of r, good r) ∷ files_of rows

  pub lookup-files_of :
      (k : Text) (rows : List A) → lookup k (files_of rows) ≡ file_or_none (find_row id_of k rows)
  unfolding lookup find_row
  lookup-files_of k [] = refl
  lookup-files_of k (r ∷ rows) = ground (arith, lookup-files_of k rows)

  pub good_files-files_of : (rows : List A) → good_files (files_of rows) ≡ rows
  good_files-files_of [] = refl
  good_files-files_of (r ∷ rows) = ap (λ rest. r ∷ rest) (good_files-files_of rows)

  -- The row that a key finds has that key.
  pub find_row-key :
      (k : Text) (rows : List A) {r : A} → find_row id_of k rows ≡ some r → id_of r ≡ k
  unfolding find_row
  find_row-key k [] e = cc
  find_row-key k (r ∷ rows) {r = s} e =
      ground (arith, text_eq_iff (id_of r) k, find_row-key k rows {r = s})

  -- A file under a key that is free, as an INSERT.
  pub insert-find_row-none :
      (k : Text) (a : A) (rows : List A)
      → k ≡ id_of a
      → find_row id_of k rows ≡ none
      → insert k (good a) (files_of rows) ≡ files_of (rows ++ a ∷ [])
  unfolding insert find_row
  insert-find_row-none k a [] same h = rw same refl
  insert-find_row-none k a (r ∷ rows) same h = ground (arith, insert-find_row-none k a rows same)

  -- A file under a key that is taken, as an UPDATE.
  pub insert-find_row-some :
      (k : Text) (a : A) (rows : List A) {r : A}
      → k ≡ id_of a
      → find_row id_of k rows ≡ some r
      → insert k (good a) (files_of rows) ≡ files_of (update_row id_of k a rows)
  unfolding insert find_row update_row
  insert-find_row-some k a [] same h = cc
  insert-find_row-some k a (r ∷ rows) {r = s} same h =
      ground (arith, insert-find_row-some k a rows {r = s} same)

-- The merchant's file is the first row.
abbrev pub merchant_file : List Merchant → Option (File Merchant)
merchant_file [] = none
merchant_file (m ∷ rows) = some (good m)

abbrev pub files : Database → Store
files d = record {
  merchant = merchant_file d.merchants;
  invoices = files_of Invoice.id d.invoices;
  events = files_of WebhookEvent.id d.events;
}
