-- ===== src/Listener/BtcListener/Effects.antt =====
-- The state of the Bitcoin listener, and code that works on it.
use zettapay.Prelude.{ℕ, Option, List, Text}
use zettapay.Prelude.Dict.{Dict}
use zettapay.Listener.Errors.{Result, ok, err}
use zettapay.Listener.Storage.{Store, Action}

pub record State : Type 0 where
  pub store : Store
  pub subscribed : List Text
  pub address_to_invoice : Dict Text
  pub last_block_height : Option ℕ

abbrev pub Listen : Type 0 → Type 0
Listen A = State → Result A × State

module _ {A : Type 0} where
  abbrev pub pure : A → Listen A
  pure a s = (ok a, s)

  abbrev pub gets : (State → A) → Listen A
  gets f s = (ok (f s), s)

  abbrev pub from_store : Action A → Listen A
  from_store m s = let (r, st) = m s.store in (r, record s { store = st })

abbrev pub modify : (State → State) → Listen (Unit {0})
modify f s = (ok tt, f s)

infixl 5 ◌>>=◌ ◌>>◌
abbrev pub ◌>>=◌ : {A B : Type 0} → Listen A → (A → Listen B) → Listen B
◌>>=◌ m f s = let (r, s') = m s in elim r [ ok a ↦ f a s' | err e ↦ (err e, s') ]

abbrev pub ◌>>◌ : {A B : Type 0} → Listen A → Listen B → Listen B
m >> k = m >>= λ _. k
