-- ===== src/Api/Subscriptions/Snapshot.antt =====
-- packages/api/src/services/subscription_charger.ts: the rows that a tick reads before it charges.
use zettapay.Prelude.{
  ℕ, suc, zero, ◌≤◌, ◌≡◌, refl, ap, ◌∙◌, Bool, true, some, List, [], ◌∷◌, Text, ◌===◌, find, keep,
  take, leb, if◌then◌else◌, arith, Bool-cases, inl, inr, All,
}
use zettapay.Api.Subscriptions.Rows.{schedule, schedule_of, count_id}
use zettapay.Api.Subscriptions.{
  Subscription, SubscriptionInterval, Payments, Db, list_due_subscriptions, is_due, sorted,
  insert_sorted, find_subscription,
}

module _ {Amount : Type 0} where
  All-insert_sorted :
      (P : Subscription Amount → Type 0) (s : Subscription Amount)
      (subs : List (Subscription Amount))
      → P s
      → All P subs
      → All P (insert_sorted s subs)
  All-insert_sorted P s [] h k = (h, tt)
  All-insert_sorted P s (t ∷ subs) h k =
      let rest = All-insert_sorted P s subs h k.1 in
      elim (Bool-cases (leb s.next_charge_at t.next_charge_at)) [
        | inl first ↦ rw first (h, k)
        | inr later ↦ rw later (k.0, rest)
      ]

  All-sorted :
      (P : Subscription Amount → Type 0) (subs : List (Subscription Amount))
      → All P subs
      → All P (sorted subs)
  All-sorted P [] h = tt
  All-sorted P (s ∷ subs) h = All-insert_sorted P s (sorted subs) h.0 (All-sorted P subs h.1)

  All-take :
      (P : Subscription Amount → Type 0) (n : ℕ) (subs : List (Subscription Amount))
      → All P subs
      → All P (take n subs)
  All-take P zero subs h = tt
  All-take P (suc n) [] h = tt
  All-take P (suc n) (s ∷ subs) h = (h.0, All-take P n subs h.1)

  module _ (id : Text) where
    count_id-insert_sorted :
        (s : Subscription Amount) (subs : List (Subscription Amount))
        → count_id id (insert_sorted s subs) ≡ count_id id (s ∷ subs)
    count_id-insert_sorted s [] = refl
    count_id-insert_sorted s (t ∷ subs) = ground (arith, count_id-insert_sorted s subs)

    count_id-sorted :
        (subs : List (Subscription Amount)) → count_id id (sorted subs) ≡ count_id id subs
    count_id-sorted [] = refl
    count_id-sorted (s ∷ subs) =
        count_id-insert_sorted s (sorted subs)
        ∙ ap (λ n. if s.id === id then suc n else n) (count_id-sorted subs)

    count_id-take :
        (n : ℕ) (subs : List (Subscription Amount)) → count_id id (take n subs) ≤ count_id id subs
    count_id-take zero subs = omega arith
    count_id-take (suc n) [] = omega arith
    count_id-take (suc n) (s ∷ subs) = ground (arith, count_id-take n subs)

    count_id-keep :
        (f : Subscription Amount → Bool) (subs : List (Subscription Amount))
        → count_id id (keep f subs) ≤ count_id id subs
    count_id-keep f [] = omega arith
    count_id-keep f (s ∷ subs) = ground (arith, count_id-keep f subs)

    module _ (interval : SubscriptionInterval) (next : ℕ) where
      -- The row, if it has the id, has the schedule.
      abbrev IsScheduled : Subscription Amount → Type 0
      IsScheduled s = (s.id === id) ≡ true → (s.interval ≡ interval) × (s.next_charge_at ≡ next)

      -- And it is due.
      abbrev pub Fits : ℕ → Subscription Amount → Type 0
      Fits now s =
          (s.id === id) ≡ true
          → (s.interval ≡ interval) × (s.next_charge_at ≡ next) × (s.next_charge_at ≤ now)

      pub none-Fits :
          (now : ℕ) (subs : List (Subscription Amount)) → count_id id subs ≡ 0 → All (Fits now) subs
      none-Fits now [] h = tt
      none-Fits now (s ∷ subs) h = elim (Bool-cases (s.id === id)) [
        | inl mine ↦ absurd (omega (arith, rw mine at h))
        | inr other ↦ ((λ e. cc (e, other)), none-Fits now subs (rw other at h))
      ]

      none-IsScheduled :
          (subs : List (Subscription Amount)) → count_id id subs ≡ 0 → All IsScheduled subs
      none-IsScheduled [] h = tt
      none-IsScheduled (s ∷ subs) h = elim (Bool-cases (s.id === id)) [
        | inl mine ↦ absurd (omega (arith, rw mine at h))
        | inr other ↦ ((λ e. cc (e, other)), none-IsScheduled subs (rw other at h))
      ]

      find-IsScheduled :
          (subs : List (Subscription Amount))
          → count_id id subs ≤ 1
          → schedule_of (find (λ s. s.id === id) subs) ≡ some (interval, next)
          → All IsScheduled subs
      find-IsScheduled [] few h = tt
      find-IsScheduled (s ∷ subs) few h = elim (Bool-cases (s.id === id)) [
        | inl mine ↦
            let rest : count_id id subs ≡ 0 = omega (arith, rw mine at few) in
            let same : some (s.interval, s.next_charge_at) ≡ some (interval, next) = rw mine at h in
            ((λ e. (cc same, cc same)), none-IsScheduled subs rest)
        | inr other ↦
            ((λ e. cc (e, other)), find-IsScheduled subs (rw other at few) (rw other at h))
      ]

      keep-Fits :
          (now : ℕ) (subs : List (Subscription Amount))
          → All IsScheduled subs
          → All (Fits now) (keep (is_due now) subs)
      keep-Fits now [] h = tt
      keep-Fits now (s ∷ subs) h =
          let rest = keep-Fits now subs h.1 in
          elim (Bool-cases (is_due now s)) [
            | inl due ↦ rw due ((λ e. let (i, n) = h.0 e in (i, n, ground arith)), rest)
            | inr not_due ↦ rw not_due rest
          ]

module _ {Amount : Type 0} {p : Payments Amount} (id : Text) where
  -- A tick reads at most one row of the subscription, with its schedule, when that is due.
  pub list_due_subscriptions-Fits :
      (interval : SubscriptionInterval) (next now limit : ℕ) (d : Db p)
      → count_id id d.subscriptions ≤ 1
      → schedule id d ≡ some (interval, next)
      → All (Fits id interval next now) (list_due_subscriptions now limit d)
        × (count_id id (list_due_subscriptions now limit d) ≤ 1)
  unfolding list_due_subscriptions find_subscription
  list_due_subscriptions-Fits interval next now limit d few h =
      let rows = keep (is_due now) d.subscriptions in
      let a = count_id-take id limit (sorted rows) in
      let b = count_id-sorted id rows in
      let c = count_id-keep id (is_due now) d.subscriptions in
      (
        All-take (Fits id interval next now) limit (sorted rows) (
            All-sorted (Fits id interval next now) rows (
              keep-Fits id interval next now d.subscriptions
                (find-IsScheduled id interval next d.subscriptions few h))),
        omega (arith, a, b, c, few),
      )
