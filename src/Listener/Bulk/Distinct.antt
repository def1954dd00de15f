-- ===== src/Listener/Bulk/Distinct.antt =====
-- The primary keys of packages/listener/src/storage/sqlite.ts: no key stands twice in a table.
use zettapay.Prelude.{
  ◌≡◌, refl, false, none, List, [], ◌∷◌, ◌++◌, append_assoc, append-nil, Text, ◌===◌, text_eq_iff,
  arith, sym, ◌∙◌, subst,
}
use zettapay.Listener.Errors.{ok}
use zettapay.Listener.Sqlite.Tables.{find_row, update_row, upsert_row}
use zettapay.Listener.Sqlite.Files.{files_of}
use zettapay.Listener.Bulk.{upsert_all, read_all}

module _ {A : Type 0} (id_of : A → Text) where
  abbrev pub HasDistinctIds : List A → Type 0
  HasDistinctIds [] = Unit
  HasDistinctIds (r ∷ rows) = (find_row id_of (id_of r) rows ≡ none) × HasDistinctIds rows

  find_row-append :
      (k : Text) (xs ys : List A)
      → find_row id_of k xs ≡ none
      → find_row id_of k (xs ++ ys) ≡ find_row id_of k ys
  unfolding find_row
  find_row-append k [] ys h = refl
  find_row-append k (x ∷ xs) ys h = ground (arith, find_row-append k xs ys)

  absent-ne :
      (k : Text) (xs : List A) (a : A) (ys : List A)
      → find_row id_of k (xs ++ a ∷ ys) ≡ none
      → (id_of a === k) ≡ false
  unfolding find_row
  absent-ne k [] a ys h = ground arith
  absent-ne k (x ∷ xs) a ys h = ground (arith, absent-ne k xs a ys)

  -- An INSERT keeps the keys distinct.
  pub append-HasDistinctIds :
      (rows : List A) (a : A)
      → HasDistinctIds rows
      → find_row id_of (id_of a) rows ≡ none
      → HasDistinctIds (rows ++ a ∷ [])
  unfolding find_row
  append-HasDistinctIds [] a h free = (refl, tt)
  append-HasDistinctIds (r ∷ rows) a h free = ground (
    arith,
    text_eq_iff (id_of r) (id_of a),
    text_eq_iff (id_of a) (id_of r),
    find_row-append (id_of r) rows (a ∷ []),
    append-HasDistinctIds rows a,
  )

  find_row-update_row :
      (k j : Text) (a : A) (rows : List A)
      → k ≡ id_of a
      → find_row id_of j rows ≡ none
      → find_row id_of j (update_row id_of k a rows) ≡ none
  unfolding find_row update_row
  find_row-update_row k j a [] same h = refl
  find_row-update_row k j a (r ∷ rows) same h = ground (
    arith,
    text_eq_iff (id_of r) k,
    text_eq_iff (id_of r) j,
    text_eq_iff (id_of a) j,
    find_row-update_row k j a rows same,
  )

  -- An UPDATE keeps the keys distinct.
  pub update_row-HasDistinctIds :
      (k : Text) (a : A) (rows : List A)
      → k ≡ id_of a
      → HasDistinctIds rows
      → HasDistinctIds (update_row id_of k a rows)
  unfolding update_row
  update_row-HasDistinctIds k a [] same h = tt
  update_row-HasDistinctIds k a (r ∷ rows) same h = ground (
    arith,
    text_eq_iff (id_of r) k,
    sym same,
    update_row-HasDistinctIds k a rows same h.1,
    find_row-update_row k (id_of r) a rows same h.0,
    h,
  )

  -- What is at the front is not in the way.
  pub middle_free :
      (done : List A) (a : A) (more : List A)
      → HasDistinctIds (done ++ a ∷ more)
      → find_row id_of (id_of a) done ≡ none
  unfolding find_row
  middle_free [] a more h = refl
  middle_free (r ∷ done) a more h = rw (differ, middle_free done a more h.1) refl
    where
      differ : (id_of r === id_of a) ≡ false
      differ = ground (
        arith,
        absent-ne (id_of r) done a more h.0,
        text_eq_iff (id_of r) (id_of a),
        text_eq_iff (id_of a) (id_of r),
      )

  pub upsert_all-append :
      (rows done : List A)
      → HasDistinctIds (done ++ rows)
      → upsert_all id_of rows done ≡ done ++ rows
  unfolding upsert_all upsert_row
  upsert_all-append [] done h = sym (append-nil done)
  upsert_all-append (a ∷ more) done h = rw (middle_free done a more h) (
      upsert_all-append more (done ++ a ∷ [])
        (subst (HasDistinctIds) (sym (append_assoc done (a ∷ []) more)) h)
      ∙ append_assoc done (a ∷ []) more)

  pub read_all-files_of : (rows : List A) → read_all (files_of id_of rows) ≡ ok rows
  read_all-files_of [] = refl
  read_all-files_of (r ∷ rows) = rw (read_all-files_of rows) refl
