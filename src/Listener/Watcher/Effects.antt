-- ===== src/Listener/Watcher/Effects.antt =====
-- The state of a poll: the data directory, and the transfers that were dealt with, for each chain.
use zettapay.Prelude.{List, ◌∷◌, Text, if◌then◌else◌}
use zettapay.Listener.Errors.{Result, ok, err}
use zettapay.Listener.Types.{Chain, same_chain}
use zettapay.Listener.Storage.{Store, Action}

pub record State : Type 0 where
  pub store : Store
  pub seen : Chain → List Text

abbrev pub Poll : Type 0 → Type 0
Poll A = State → Result A × State

module _ {A : Type 0} where
  abbrev pub pure : A → Poll A
  pure a s = (ok a, s)

  abbrev pub from_result : Result A → Poll A
  from_result r s = (r, s)

  abbrev pub gets : (State → A) → Poll A
  gets f s = (ok (f s), s)

  abbrev pub from_store : Action A → Poll A
  from_store m s = let (r, st) = m s.store in (r, record s { store = st })

infixl 5 ◌>>=◌ ◌>>◌
abbrev pub ◌>>=◌ : {A B : Type 0} → Poll A → (A → Poll B) → Poll B
◌>>=◌ m f s = let (r, s') = m s in elim r [ ok a ↦ f a s' | err e ↦ (err e, s') ]

abbrev pub ◌>>◌ : {A B : Type 0} → Poll A → Poll B → Poll B
m >> k = m >>= λ _. k

-- `seen.add(key)`
abbrev pub add_seen : Chain → Text → Poll (Unit {0})
add_seen chain key s =
    (ok tt, record s { seen = λ c. if same_chain c chain then key ∷ s.seen c else s.seen c })
