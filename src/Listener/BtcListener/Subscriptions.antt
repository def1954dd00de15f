-- ===== src/Listener/BtcListener/Subscriptions.antt =====
-- What the Bitcoin listener is subscribed to (`reconcileSubscriptions` of
-- packages/listener/src/listener.ts).
use zettapay.Prelude.{
  ◌≡◌, refl, inl, inr, Bool, true, false, ◌||◌, ◌&&◌, Option, none, some, List, [], ◌∷◌, ◌++◌, Text,
  keep, elem, arith, Bool-cases, if◌then◌else◌, ◌===◌, text_eq_iff, ap, ◌∙◌,
}
use zettapay.Prelude.Dict.{Dict, lookup, insert, lookup-insert}
use zettapay.Listener.Types.{btc, Invoice}
use zettapay.Listener.Storage.{list_pending_invoices, is_open, good_files}
use zettapay.Listener.Storage.Select.{select_unlimited}
use zettapay.Listener.BtcListener.{
  State, Config, address_map, targets_of, add_all, reconcile_subscriptions,
}

-- Some invoice of the list has the address.
abbrev pub is_address_of : Text → List Invoice → Bool
is_address_of addr [] = false
is_address_of addr (inv ∷ invs) = (addr === inv.address) || is_address_of addr invs

-- The id of the last invoice of the list that has the address.
abbrev pub id_at : Text → List Invoice → Option Text
id_at addr [] = none
id_at addr (inv ∷ invs) = elim (id_at addr invs) [
  | some id ↦ some id
  | none ↦ if addr === inv.address then some inv.id else none
]

abbrev or_old : Option Text → Option Text → Option Text
or_old (some id) old = some id
or_old none old = old

elem-append_one :
    (addr x : Text) (xs : List Text) → elem addr (xs ++ x ∷ []) ≡ elem addr xs || addr === x
unfolding elem
elem-append_one addr x [] = ground arith
elem-append_one addr x (y ∷ xs) = ground (arith, elem-append_one addr x xs)

elem-same : (addr x : Text) (xs : List Text) → (addr === x) ≡ true → elem addr xs ≡ elem x xs
elem-same addr x xs same = ap (λ a. elem a xs) ((text_eq_iff addr x).0 same)

elem-add :
    (addr x : Text) (xs : List Text)
    → elem addr (if elem x xs then xs else xs ++ x ∷ []) ≡ elem addr xs || addr === x
elem-add addr x xs = ground (arith, elem-append_one addr x xs, elem-same addr x xs)

elem-targets_of :
    (addr : Text) (targets : List Text) (invs : List Invoice)
    → elem addr (targets_of targets invs) ≡ elem addr targets || is_address_of addr invs
elem-targets_of addr targets [] = ground arith
elem-targets_of addr targets (inv ∷ invs) =
    let next = if elem inv.address targets then targets else targets ++ inv.address ∷ [] in
    ground (arith, elem-targets_of addr next invs, elem-add addr inv.address targets)

elem-add_all :
    (addr : Text) (subscribed targets : List Text)
    → elem addr (add_all subscribed targets) ≡ elem addr subscribed || elem addr targets
unfolding elem
elem-add_all addr subscribed [] = ground arith
elem-add_all addr subscribed (x ∷ targets) =
    let next = if elem x subscribed then subscribed else subscribed ++ x ∷ [] in
    ground (arith, elem-add_all addr next targets, elem-add addr x subscribed)

elem-keep :
    (addr : Text) (p : Text → Bool) (xs : List Text)
    → elem addr (keep p xs) ≡ elem addr xs && p addr
unfolding elem
elem-keep addr p [] = ground arith
elem-keep addr p (x ∷ xs) = elim (Bool-cases (addr === x)) [
  | inr other ↦ ground (arith, elem-keep addr p xs)
  | inl same ↦
      let at : p addr ≡ p x = ap p ((text_eq_iff addr x).0 same) in
      ground (arith, elem-keep addr p xs)
]

or_old-none : (o : Option Text) → or_old o none ≡ o
or_old-none none = refl
or_old-none (some id) = refl

lookup-address_map :
    (addr : Text) (d : Dict Text) (invs : List Invoice)
    → lookup addr (address_map d invs) ≡ or_old (id_at addr invs) (lookup addr d)
lookup-address_map addr d [] = refl
lookup-address_map addr d (inv ∷ invs) = ground (
  arith,
  lookup-address_map addr (insert inv.address inv.id d) invs,
  lookup-insert inv.address addr inv.id d,
  text_eq_iff inv.address addr,
  text_eq_iff addr inv.address,
)

-- After a reconciliation the listener is subscribed to an address exactly when a pending unexpired
-- Bitcoin invoice has it, and an address leads to the id of the last such invoice in the list, or to
-- none, whatever it was subscribed to before.
pub reconcile_subscriptions_exact :
    (cfg : Config) (addr : Text) (s : State)
    → let s' = (reconcile_subscriptions cfg s).1 in
      let pending = keep (is_open cfg.now (some btc)) (good_files s.store.invoices) in
      (elem addr s'.subscribed ≡ is_address_of addr pending)
      × (lookup addr s'.address_to_invoice ≡ id_at addr pending)
unfolding reconcile_subscriptions list_pending_invoices elem lookup
reconcile_subscriptions_exact cfg addr s =
    let pending = keep (is_open cfg.now (some btc)) (good_files s.store.invoices) in
    let targets = targets_of [] pending in
    rw (select_unlimited (is_open cfg.now (some btc)) 0 s.store.invoices) (
      elem-keep addr (λ a. elem a targets) (add_all s.subscribed targets)
          ∙ ground (arith, elem-add_all addr s.subscribed targets, elem-targets_of addr [] pending),
      lookup-address_map addr [] pending ∙ or_old-none (id_at addr pending),
    )
