-- ===== src/Listener/Storage/Monad.antt =====
-- The data directory, and code that reads and writes it and may throw. What was written before a
-- throw stays written.
use zettapay.Prelude.{Option}
use zettapay.Prelude.Dict.{Dict}
use zettapay.Listener.Errors.{Error, Result, ok, err}
use zettapay.Listener.Types.{Merchant, Invoice, WebhookEvent}

-- A file that is there: one that parses, or one that does not.
pub data File (A : Type 0) : Type 0 where
  good : A → File A
  corrupt : File A

pub record Store : Type 0 where
  pub merchant : Option (File Merchant)
  pub invoices : Dict (File Invoice)
  pub events : Dict (File WebhookEvent)

abbrev pub Action : Type 0 → Type 0
Action A = Store → Result A × Store

module _ {A : Type 0} where
  abbrev pub pure : A → Action A
  pure a s = (ok a, s)

  abbrev pub throw : Error → Action A
  throw e s = (err e, s)

  abbrev pub gets : (Store → A) → Action A
  gets f s = (ok (f s), s)

  abbrev pub lift : Result A → Action A
  lift r s = (r, s)

abbrev pub modify : (Store → Store) → Action (Unit {0})
modify f s = (ok tt, f s)

infixl 5 ◌>>=◌ ◌>>◌
abbrev pub ◌>>=◌ : {A B : Type 0} → Action A → (A → Action B) → Action B
◌>>=◌ m f s = let (r, s') = m s in elim r [ ok a ↦ f a s' | err e ↦ throw e s' ]

abbrev pub ◌>>◌ : {A B : Type 0} → Action A → Action B → Action B
m >> k = m >>= λ _. k
