-- ===== src/Listener/BaseWatcher/Laws.antt =====
-- When the balance watcher touches an invoice (packages/listener/src/base-watcher.ts).
use zettapay.Prelude.{
  ℕ, ◌≤◌, ◌≡◌, refl, ◌≢◌, ◌⊎◌, inl, inr, Bool, true, ◌&&◌, some, List, [], ◌∷◌, Text, keep, leb,
  ◌===◌, text_eq_iff, arith, Bool-cases, Option-cases, leb→le, ◌∙◌, ap,
}
use zettapay.Prelude.Dict.{lookup}
use zettapay.Prelude.Numerals.{big_int}
use zettapay.Listener.Errors.{Result, ok, err, Result-cases}
use zettapay.Listener.Types.{base, confirmed, Invoice}
use zettapay.Listener.Storage.{
  Store, good_files, is_open, list_pending_invoices, record_webhook_event,
}
use zettapay.Listener.Storage.Laws.{update-others}
use zettapay.Listener.Storage.Select.{select_unlimited}
use zettapay.Listener.Watcher.{is_hex_address}
use zettapay.Listener.Watcher.Matching.{In}
use zettapay.Listener.BaseWatcher.{
  Config, balance_of, required_units, emit_confirmed_webhook, paid, confirm, with_required,
  with_balance, check_invoice, check_all, caught, poll_once,
}

-- The invoice's file is the same in both stores.
abbrev pub Untouched : Text → Store → Store → Type 0
Untouched id s s' = lookup id s'.invoices ≡ lookup id s.invoices

-- An invoice of this id stands in the list, and its address holds at least its amount.
pub record IsCovered (cfg : Config) (id : Text) (pending : List Invoice) : Type 0 where
  pub invoice : Invoice
  pub listed : In invoice pending
  pub same_id : invoice.id ≡ id
  pub required : ℕ
  pub balance : ℕ
  pub amount : big_int invoice.amount ≡ some required
  pub held : balance_of cfg invoice.address ≡ some balance
  pub enough : required ≤ balance

confirm-Untouched :
    (cfg : Config) (inv : Invoice) (balance : ℕ) (id : Text) (s : Store)
    → inv.id ≢ id
    → Untouched id s (confirm cfg inv balance s).1
unfolding confirm emit_confirmed_webhook record_webhook_event
confirm-Untouched cfg inv balance id s ne =
    let others = update-others cfg.now inv.id confirmed (paid cfg.now) s id ne in
    ground (arith, others)

required_units_ok :
    (inv : Invoice) {n : ℕ} → required_units inv ≡ ok n → big_int inv.amount ≡ some n
unfolding required_units
required_units_ok inv e = elim (Option-cases (big_int inv.amount)) [
  | inl missing ↦ absurd (ground arith)
  | inr (m, found) ↦ ground arith
]

confirm_then :
    (cfg : Config) (inv : Invoice) (balance : ℕ) (s : Store) (required : ℕ)
    → required_units inv ≡ ok required
    → balance_of cfg inv.address ≡ some balance
    → is_hex_address inv.address ≡ true
    → leb required balance ≡ true
    → (check_invoice cfg inv s).1 ≡ (confirm cfg inv balance s).1
unfolding check_invoice with_balance with_required
confirm_then cfg inv balance s required known held local enough = ground (arith, known, held)

check_invoice_safe :
    (cfg : Config) (inv : Invoice) (id : Text) (s : Store)
    → Untouched id s (check_invoice cfg inv s).1 ⊎ IsCovered cfg id (inv ∷ [])
unfolding check_invoice with_balance with_required
check_invoice_safe cfg inv id s = elim (Bool-cases (is_hex_address inv.address)) [
  | inr bad ↦ inl (rw bad)
  | inl local ↦ elim (Option-cases (balance_of cfg inv.address)) [
    | inl missing ↦ inl (rw (local, missing))
    | inr (balance, held) ↦ elim (Result-cases (required_units inv)) [
      | inr (e, failed) ↦ inl (rw (local, held, failed))
      | inl (required, known) ↦ elim (Bool-cases (leb required balance)) [
        | inr short ↦ inl (rw (local, held, known, short))
        | inl enough ↦ elim (Bool-cases (inv.id === id)) [
          | inl same ↦ inr (record {
            invoice = inv;
            listed = inl refl;
            same_id = (text_eq_iff inv.id id).0 same;
            required = required;
            balance = balance;
            amount = required_units_ok inv known;
            held = held;
            enough = leb→le _ _ enough;
          })
          | inr other ↦
              let elsewhere : inv.id ≢ id = λ e. cc (other, (text_eq_iff inv.id id).1 e) in
              inl (
                ap (λ (st : Store). lookup id st.invoices)
                  (confirm_then cfg inv balance s required known held local enough)
                ∙ confirm-Untouched cfg inv balance id s elsewhere)
        ]
      ]
    ]
  ]
]

IsCovered-later :
    {cfg : Config} {id : Text} {inv : Invoice} {pending : List Invoice}
    → IsCovered cfg id pending
    → IsCovered cfg id (inv ∷ pending)
IsCovered-later c = record {
  invoice = c.invoice;
  listed = inr c.listed;
  same_id = c.same_id;
  required = c.required;
  balance = c.balance;
  amount = c.amount;
  held = c.held;
  enough = c.enough;
}

IsCovered-here :
    {cfg : Config} {id : Text} {inv : Invoice} {pending : List Invoice}
    → IsCovered cfg id (inv ∷ [])
    → IsCovered cfg id (inv ∷ pending)
IsCovered-here c = record {
  invoice = c.invoice;
  listed = elim c.listed [ inl at ↦ inl at | inr none_left ↦ absurd none_left ];
  same_id = c.same_id;
  required = c.required;
  balance = c.balance;
  amount = c.amount;
  held = c.held;
  enough = c.enough;
}

caught_store : (r : Result Bool × Store) → (caught r).1 ≡ r.1
caught_store (ok fine, s) = refl
caught_store (err e, s) = refl

check_all_safe :
    (cfg : Config) (pending : List Invoice) (all_ok : Bool) (id : Text) (s : Store)
    → Untouched id s (check_all cfg pending all_ok s).1 ⊎ IsCovered cfg id pending
unfolding check_all
check_all_safe cfg [] all_ok id s = inl refl
check_all_safe cfg (inv ∷ pending) all_ok id s = elim (check_invoice_safe cfg inv id s) [
  | inr covered ↦ inr (IsCovered-here covered)
  | inl same ↦
      let r = caught (check_invoice cfg inv s) in
      elim (check_all_safe cfg pending (all_ok && r.0) id r.1) [
        | inr covered ↦ inr (IsCovered-later covered)
        | inl same' ↦ inl (
            same'
            ∙ ap (λ (st : Store). lookup id st.invoices) (caught_store (check_invoice cfg inv s))
            ∙ same)
      ]
]

-- A poll leaves an invoice's file as it is, unless an invoice of that id is pending and unexpired
-- on base, and the address of that invoice holds at least its amount.
pub base_poll_safe :
    (cfg : Config) (id : Text) (s : Store)
    → Untouched id s (poll_once cfg s).1
      ⊎ IsCovered cfg id (keep (is_open cfg.now (some base)) (good_files s.invoices))
unfolding poll_once list_pending_invoices
base_poll_safe cfg id s =
    rw (select_unlimited (is_open cfg.now (some base)) 0 s.invoices)
      (check_all_safe cfg (keep (is_open cfg.now (some base)) (good_files s.invoices)) true id s)
