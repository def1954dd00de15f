-- ===== src/Api/Refunds/Interleaving.antt =====
-- packages/api/src/services/refunds.ts: calls that overlap. While one waits for its transfer, others
-- begin and end, and other code writes the payments and the merchants.
use zettapay.Prelude.{
  ℕ, zero, suc, ◌≤◌, ◌≡◌, refl, Bool, Option, none, some, List, [], ◌∷◌, Text, ◌===◌, text_eq_iff,
  if◌then◌else◌, arith, get_elem?,
}
use zettapay.Prelude.Int.{ℤ}
use zettapay.Api.Refunds.{
  Payment, Merchant, Db, Refund, ProcessRefundInput, Waiting, transfer_input, Begun, transferring,
  answered, Checked, stop, go, begin, after_check, after_insert, finish, Transfer, Signing,
  insert_refund, new_refund,
}
use zettapay.Api.Refunds.Rows.{row_count, row_count-le, finish-row_count, inserted-row_count}

-- The tables, the calls that wait, and the payments for which a transfer was ever asked.
pub record State (Amount : Type 0) : Type 0 where
  pub db : Db Amount
  pub waiting : List (Waiting Amount)
  pub asked : List Text

-- What happens next: a call begins, the transfer of a waiting call ends, or other code writes.
pub data Event (Amount : Type 0) : Type 0 where
  calls : Text → ℤ → ProcessRefundInput Amount → Event Amount
  settles : ℕ → Transfer → Event Amount
  writes : List (Payment Amount) → List Merchant → Event Amount

abbrev remove_at : {A : Type 0} → ℕ → List A → List A
remove_at n [] = []
remove_at zero (x ∷ xs) = xs
remove_at (suc n) (x ∷ xs) = x ∷ remove_at n xs

-- How often a text stands in a list.
unfoldable pub occurrences : Text → List Text → ℕ
occurrences t [] = 0
occurrences t (x ∷ xs) = if x === t then suc (occurrences t xs) else occurrences t xs

module _ {Amount : Type 0} (differ : Amount → Amount → Bool) (signing : Signing Amount)
    (is_public_key : Text → Bool) where
  abbrev begun : State Amount → Begun Amount × Db Amount → State Amount
  begun s (answered answer, d) = record s { db = d }
  begun s (transferring w, d) = record {
    db = d;
    waiting = w ∷ s.waiting;
    asked = w.payment.id ∷ s.asked;
  }

  abbrev settled : State Amount → ℕ → Transfer → Option (Waiting Amount) → State Amount
  settled s n outcome none = s
  settled s n outcome (some w) = record s {
    db = (finish w outcome s.db).1;
    waiting = remove_at n s.waiting;
  }

  unfoldable pub step : Event Amount → State Amount → State Amount
  step (calls refund_id now input) s =
      begun s (begin differ signing is_public_key refund_id now input s.db)
  step (settles n outcome) s = settled s n outcome (get_elem? s.waiting n)
  step (writes payments merchants) s = record s {
    db = record s.db { payments = payments; merchants = merchants };
  }

  unfoldable pub steps : List (Event Amount) → State Amount → State Amount
  steps [] s = s
  steps (e ∷ es) s = steps es (step e s)

module _ {Amount : Type 0} where
  -- Every transfer was asked for a payment with a refund, and no two for the same payment.
  abbrev IsSafe : State Amount → Type 0
  IsSafe s = (p : Text) → occurrences p s.asked ≤ row_count p s.db.refunds

  -- A call that begins keeps the state safe.
  begun-IsSafe :
      (differ : Amount → Amount → Bool) (signing : Signing Amount) (is_public_key : Text → Bool)
      (refund_id : Text) (input : ProcessRefundInput Amount) (s : State Amount) (c : Checked Amount)
      → IsSafe s
      → IsSafe (
          begun differ signing is_public_key s
            (after_check differ signing is_public_key refund_id input s.db c))
  unfolding occurrences
  begun-IsSafe differ signing is_public_key refund_id input s (stop answer) h = h
  begun-IsSafe differ signing is_public_key refund_id input s (go payment merchant) h =
      inserted (insert_refund r s.db) refl
    where
      r : Refund Amount
      r = new_refund differ signing is_public_key refund_id input payment merchant

      w : Waiting Amount
      w = record {
        refund_id = refund_id;
        payment = payment;
        merchant_id = merchant.id;
        transfer = transfer_input payment;
      }

      inserted :
          (o : Option (Db Amount))
          → insert_refund r s.db ≡ o
          → IsSafe (
              begun differ signing is_public_key s
                (after_insert differ signing is_public_key w s.db o))
      inserted none e = h
      inserted (some d') e = λ p.
          let (free, rows) = inserted-row_count p refund_id r s.db d' e in
          ground (arith, h p, h payment.id, text_eq_iff payment.id p, free, rows)

  settled-IsSafe :
      (differ : Amount → Amount → Bool) (signing : Signing Amount) (is_public_key : Text → Bool)
      (s : State Amount) (n : ℕ) (outcome : Transfer) (o : Option (Waiting Amount))
      → IsSafe s
      → IsSafe (settled differ signing is_public_key s n outcome o)
  settled-IsSafe differ signing is_public_key s n outcome none h = h
  settled-IsSafe differ signing is_public_key s n outcome (some w) h =
      λ p. rw (finish-row_count p w outcome s.db) (h p)

module _ {Amount : Type 0} (differ : Amount → Amount → Bool) (signing : Signing Amount)
    (is_public_key : Text → Bool) where
  step-IsSafe :
      (e : Event Amount) (s : State Amount)
      → IsSafe s
      → IsSafe (step differ signing is_public_key e s)
  unfolding step begin
  step-IsSafe (calls refund_id now input) s h =
      begun-IsSafe differ signing is_public_key refund_id input s _ h
  step-IsSafe (settles n outcome) s h = settled-IsSafe differ signing is_public_key s n outcome _ h
  step-IsSafe (writes payments merchants) s h = h

  steps-IsSafe :
      (es : List (Event Amount)) (s : State Amount)
      → IsSafe s
      → IsSafe (steps differ signing is_public_key es s)
  unfolding steps
  steps-IsSafe [] s h = h
  steps-IsSafe (e ∷ es) s h = steps-IsSafe es _ (step-IsSafe e s h)

  -- However calls, ends of transfers and writes of other code to the payments and the merchants
  -- follow each other, from tables in which nothing was asked for yet, no payment is ever sent back
  -- twice: at most one transfer is asked for.
  pub asked_once :
      (es : List (Event Amount)) (d : Db Amount) (p : Text)
      → occurrences p
          (steps differ signing is_public_key es
            (record { db = d; waiting = []; asked = [] })).asked
        ≤ 1
  unfolding occurrences
  asked_once es d p =
      let s : State Amount = record { db = d; waiting = []; asked = [] } in
      let safe = steps-IsSafe es s (λ q. omega arith) p in
      omega (arith, safe, row_count-le p (steps differ signing is_public_key es s).db.refunds)
