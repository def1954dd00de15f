-- ===== src/Listener/Sqlite/Tables.antt =====
-- packages/listener/src/storage/sqlite.ts: tables with a primary key, and code that queries them
-- and may throw.
use zettapay.Prelude.{
  ◌≡◌, refl, Option, none, some, List, [], ◌∷◌, ◌++◌, Text, ◌===◌, is_some, if◌then◌else◌,
}
use zettapay.Listener.Errors.{Error, Result, ok, err}
use zettapay.Listener.Types.{Merchant, Invoice, WebhookEvent}

module _ {A : Type 0} (id_of : A → Text) where
  -- `WHERE id = ?`
  unfoldable pub find_row : Text → List A → Option A
  find_row k [] = none
  find_row k (r ∷ rows) = if id_of r === k then some r else find_row k rows

  -- INSERT: `none` when the key is taken.
  unfoldable pub insert_row : A → List A → Option (List A)
  insert_row a rows = if is_some (find_row (id_of a) rows) then none else some (rows ++ a ∷ [])

  -- UPDATE of the row with the key; there is at most one.
  unfoldable pub update_row : Text → A → List A → List A
  update_row k a [] = []
  update_row k a (r ∷ rows) = if id_of r === k then a ∷ rows else r ∷ update_row k a rows

  -- `INSERT … ON CONFLICT(id) DO UPDATE` of every other column.
  unfoldable pub upsert_row : A → List A → List A
  upsert_row a rows =
      if is_some (find_row (id_of a) rows) then update_row (id_of a) a rows else rows ++ a ∷ []

module _ {A : Type 0} (id_of : A → Text) where
  pub insert_row_free :
      (a : A) (rows : List A)
      → find_row id_of (id_of a) rows ≡ none
      → insert_row id_of a rows ≡ some (rows ++ a ∷ [])
  unfolding insert_row
  insert_row_free a rows free = rw free refl

  pub insert_row_taken :
      (a : A) (rows : List A) {r : A}
      → find_row id_of (id_of a) rows ≡ some r
      → insert_row id_of a rows ≡ none
  unfolding insert_row
  insert_row_taken a rows taken = rw taken refl

pub record Database : Type 0 where
  pub merchants : List Merchant
  pub invoices : List Invoice
  pub events : List WebhookEvent

abbrev pub Query : Type 0 → Type 0
Query A = Database → Result A × Database

module _ {A : Type 0} where
  abbrev pub pure : A → Query A
  pure a d = (ok a, d)

  abbrev pub throw : Error → Query A
  throw e d = (err e, d)

  abbrev pub gets : (Database → A) → Query A
  gets f d = (ok (f d), d)

abbrev pub modify : (Database → Database) → Query (Unit {0})
modify f d = (ok tt, f d)

infixl 5 ◌>>=◌ ◌>>◌
abbrev pub ◌>>=◌ : {A B : Type 0} → Query A → (A → Query B) → Query B
◌>>=◌ m f d = let (r, d') = m d in elim r [ ok a ↦ f a d' | err e ↦ throw e d' ]

abbrev pub ◌>>◌ : {A B : Type 0} → Query A → Query B → Query B
m >> k = m >>= λ _. k
