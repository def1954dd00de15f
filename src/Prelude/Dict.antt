-- ===== src/Prelude/Dict.antt =====
-- A `Map`, or a directory of files, keyed by text, in the order in which the keys were first set.
use zettapay.Prelude.Tests.{if◌then◌else◌, Bool-cases}
use zettapay.Prelude.Texts.{Text, ◌===◌, text_eq_iff}
use mathlib.Core.Path.{◌≡◌, refl, sym, ◌∙◌}
use mathlib.Core.Logic.{◌≢◌, ◌⊎◌, inl, inr}
use mathlib.Core.Option.{Option, none, some}
use mathlib.Core.List.{List, [], ◌∷◌}
use native.Mathlib.Omega.{arith}

abbrev pub Dict {ℓ} : Type ℓ → Type ℓ
Dict V = List (Text × V)

module _ {ℓ} {V : Type ℓ} where
  unfoldable pub lookup : Text → Dict V → Option V
  lookup k [] = none
  lookup k ((j, v) ∷ d) = if j === k then some v else lookup k d

  -- Setting a key that is there keeps its place.
  unfoldable pub insert : Text → V → Dict V → Dict V
  insert k v [] = (k, v) ∷ []
  insert k v ((j, w) ∷ d) = if j === k then (k, v) ∷ d else (j, w) ∷ insert k v d

  -- `delete`
  unfoldable pub remove : Text → Dict V → Dict V
  remove k [] = []
  remove k ((j, w) ∷ d) = if j === k then d else (j, w) ∷ remove k d

  pub lookup-insert :
      (k j : Text) (v : V) (d : Dict V)
      → lookup j (insert k v d) ≡ (if k === j then some v else lookup j d)
  unfolding lookup insert
  lookup-insert k j v [] = refl
  lookup-insert k j v ((i, w) ∷ d) =
      ground (arith, text_eq_iff k j, text_eq_iff i k, text_eq_iff i j, lookup-insert k j v d)

  -- A second write under a key replaces the first.
  pub insert-insert : (k : Text) (v w : V) (d : Dict V) → insert k v (insert k w d) ≡ insert k v d
  unfolding insert
  insert-insert k v w [] = ground (arith, text_eq_iff k k)
  insert-insert k v w ((j, u) ∷ d) =
      ground (arith, text_eq_iff j k, text_eq_iff k k, insert-insert k v w d)

module _ {V : Type 0} where
  -- The pair stands in the dictionary.
  abbrev pub Has : Text → V → Dict V → Type 0
  Has k v [] = ⊥
  Has k v ((j, w) ∷ d) = ((j ≡ k) × (w ≡ v)) ⊎ Has k v d

  abbrev pub IsFresh : Text → Dict V → Type 0
  IsFresh k [] = Unit
  IsFresh k ((j, _) ∷ d) = (j ≢ k) × IsFresh k d

  -- No key stands twice.
  abbrev pub HasDistinctKeys : Dict V → Type 0
  HasDistinctKeys [] = Unit
  HasDistinctKeys ((j, _) ∷ d) = IsFresh j d × HasDistinctKeys d

module _ {V : Type 0} where
  IsFresh-insert :
      (j k : Text) (v : V) (d : Dict V) → k ≢ j → IsFresh j d → IsFresh j (insert k v d)
  unfolding insert
  IsFresh-insert j k v [] ne h = (ne, tt)
  IsFresh-insert j k v ((i, w) ∷ d) ne h = ground (arith, IsFresh-insert j k v d ne h.1)

  pub HasDistinctKeys-insert :
      (k : Text) (v : V) (d : Dict V) → HasDistinctKeys d → HasDistinctKeys (insert k v d)
  unfolding insert
  HasDistinctKeys-insert k v [] h = (tt, tt)
  HasDistinctKeys-insert k v ((i, w) ∷ d) h = elim (Bool-cases (i === k)) [
    | inl same ↦ rw (same, ← ((text_eq_iff i k).0 same)) h
    | inr other ↦ rw other (
      IsFresh-insert i k v d (λ e. cc (other, (text_eq_iff i k).1 (sym e))) h.0,
      HasDistinctKeys-insert k v d h.1,
    )
  ]

  pub lookup_fresh : (k : Text) (d : Dict V) → IsFresh k d → lookup k d ≡ none
  unfolding lookup
  lookup_fresh k [] h = refl
  lookup_fresh k ((j, w) ∷ d) h = ground (arith, text_eq_iff j k, lookup_fresh k d h.1)

  Has-ne : (k : Text) (v : V) (j : Text) (d : Dict V) → IsFresh j d → Has k v d → j ≢ k
  Has-ne k v j [] f h = absurd h
  Has-ne k v j ((i, w) ∷ d) f (inl e) = λ q. f.0 (e.0 ∙ sym q)
  Has-ne k v j ((i, w) ∷ d) f (inr h) = Has-ne k v j d f.1 h

  pub lookup-Has :
      (k : Text) (v : V) (d : Dict V) → HasDistinctKeys d → Has k v d → lookup k d ≡ some v
  unfolding lookup
  lookup-Has k v [] u h = absurd h
  lookup-Has k v ((j, w) ∷ d) u (inl e) = ground (arith, text_eq_iff j k)
  lookup-Has k v ((j, w) ∷ d) u (inr h) =
      ground (arith, text_eq_iff j k, Has-ne k v j d u.0 h, lookup-Has k v d u.1 h)

  pub Has-lookup : (k : Text) (v : V) (d : Dict V) → lookup k d ≡ some v → Has k v d
  unfolding lookup
  Has-lookup k v [] e = cc
  Has-lookup k v ((j, w) ∷ d) e = ground (arith, text_eq_iff j k, Has-lookup k v d)

-- What `map` of an Option does.
abbrev pub map_found {ℓ} : {V : Type ℓ} → (V → V) → Option V → Option V
map_found f none = none
map_found f (some v) = some (f v)

module _ {ℓ} {V : Type ℓ} (k : Text) (f : V → V) where
  abbrev update_found : Dict V → Option V → Dict V
  update_found d none = d
  update_found d (some v) = insert k (f v) d

  -- A change of the value under a key that is there.
  unfoldable pub update_at : Dict V → Dict V
  update_at d = update_found d (lookup k d)

  lookup-update_found :
      (j : Text) (d : Dict V) (o : Option V)
      → lookup k d ≡ o
      → lookup j (update_found d o) ≡ (if k === j then map_found f (lookup j d) else lookup j d)
  lookup-update_found j d none e = ground (arith, text_eq_iff k j)
  lookup-update_found j d (some v) e = ground (arith, text_eq_iff k j, lookup-insert k j (f v) d)

  pub lookup-update_at :
      (j : Text) (d : Dict V)
      → lookup j (update_at d) ≡ (if k === j then map_found f (lookup j d) else lookup j d)
  unfolding update_at
  lookup-update_at j d = lookup-update_found j d _ refl
