-- ===== src/Api/Subscriptions/Cycles.antt =====
-- packages/api/src/services/subscription_charger.ts: how often a subscription is charged, when no two
-- ticks overlap.
use zettapay.Prelude.{
  ℕ, zero, suc, ◌≤◌, ◌<◌, ◌≡◌, refl, sym, ap, ◌∙◌, ◌&&◌, some, List, [], ◌∷◌, Text, ◌===◌, arith,
  Bool-cases, inl, inr, ◌⊎◌, All,
}
use native.Mathlib.Decide.{dec_lt}
use zettapay.Prelude.Dict.{map_found}
use zettapay.Api.Subscriptions.Snapshot.{Fits, none-Fits, list_due_subscriptions-Fits}
use zettapay.Api.Subscriptions.Rows.{charges, rescheduled, schedule, count_id}
use zettapay.Api.Subscriptions.Effects.{is_charged, Effect, charge_one-Effect}
use zettapay.Api.Subscriptions.{
  Subscription, SubscriptionInterval, Payments, Db, Signing, Outcome, charged, failed, thrown,
  World, charge_one, charge_all, after_outcome, charge_due_subscriptions,
}

abbrev pub iterate : (ℕ → ℕ) → ℕ → ℕ → ℕ
iterate f zero x = x
iterate f (suc n) x = f (iterate f n x)

last_or_before : (n m : ℕ) → n < suc m → (n ≡ m) ⊎ (n < m)
last_or_before n m h = elim (dec_lt n m) [ yes below ↦ inr below | no above ↦ inl (omega arith) ]

module _ {Amount : Type 0} (p : Payments Amount) (signing : Signing Amount)
    (advance : SubscriptionInterval → ℕ → ℕ) (pause_after : ℕ) (id : Text) (start : ℕ)
    (interval : SubscriptionInterval) where
  -- The next charge is as many cycles behind the start as there were charges, and each of these was
  -- due at `last` at the latest.
  record IsOnCycle (last : ℕ) (d : Db p) : Type 0 where
    pub scheduled :
        schedule id d ≡ some (interval, iterate (advance interval) (charges id d.audit) start)
    pub was_due : (n : ℕ) → n < charges id d.audit → iterate (advance interval) n start ≤ last

  abbrev due_at : Db p → ℕ
  due_at d = iterate (advance interval) (charges id d.audit) start

  step-IsOnCycle :
      (last now : ℕ) (s : Subscription Amount) (o : Outcome) (d d' : Db p)
      → last ≤ now
      → Fits id interval (due_at d) now s
      → Effect p signing advance pause_after id s o d d'
      → IsOnCycle last d
      → IsOnCycle now d'
  step-IsOnCycle last now s o d d' later fits e h =
      let before : (n : ℕ) → n < charges id d.audit → iterate (advance interval) n start ≤ now =
        λ n below. let held = h.was_due n below in omega (arith, held, later) in
      elim (Bool-cases (is_charged o && (s.id === id))) [
        | inl hit ↦
            let (same_interval, same_next, due) = fits (ground arith) in
            let more : charges id d'.audit ≡ suc (charges id d.audit) =
              rw hit at e.charges_effect in
            let moved : schedule id d'
                ≡ map_found (rescheduled (advance s.interval s.next_charge_at)) (schedule id d) =
              rw hit at e.schedule_effect in
            record {
              scheduled =
                  rw (more, ← same_next, ← same_interval)
                    (moved
                      ∙ ap (map_found (rescheduled (advance s.interval s.next_charge_at)))
                          h.scheduled
                      ∙ ap (λ i. some (i, advance s.interval s.next_charge_at))
                          (sym same_interval));
              was_due = λ n below.
                  elim (last_or_before n (charges id d.audit) (omega (arith, more))) [
                    | inl latest ↦ rw (latest, ← same_next) due
                    | inr earlier ↦ before n earlier
                  ];
            }
        | inr miss ↦
            let same : charges id d'.audit ≡ charges id d.audit = rw miss at e.charges_effect in
            let kept : schedule id d' ≡ schedule id d = rw miss at e.schedule_effect in
            record {
              scheduled = rw same (kept ∙ h.scheduled);
              was_due = λ n below. before n (omega (arith, same));
            }
      ]

  -- The rest of the loop still meets the schedule that it read.
  rest-Fits :
      (now : ℕ) (s : Subscription Amount) (subs : List (Subscription Amount)) (o : Outcome)
      (d d' : Db p)
      → count_id id (s ∷ subs) ≤ 1
      → All (Fits id interval (due_at d) now) subs
      → Effect p signing advance pause_after id s o d d'
      → All (Fits id interval (due_at d') now) subs
  rest-Fits now s subs o d d' once fit e = elim (Bool-cases (s.id === id)) [
    | inl mine ↦
        let few = rw mine at once in none-Fits id interval (due_at d') now subs (omega (arith, few))
    | inr other ↦
        let same : charges id d'.audit ≡ charges id d.audit = e.charges_effect ∙ ground arith in
        rw same fit
  ]

  count_id-rest :
      (s : Subscription Amount) (subs : List (Subscription Amount))
      → count_id id (s ∷ subs) ≤ 1
      → count_id id subs ≤ 1
  count_id-rest s subs h = ground arith

  -- The tick that ends with an error ends where its last charge did.
  after_outcome-IsOnCycle :
      (now : ℕ) (o : Outcome) (d d' rest : Db p)
      → IsOnCycle now d'
      → count_id id d'.subscriptions ≡ count_id id d.subscriptions
      → IsOnCycle now rest × (count_id id rest.subscriptions ≡ count_id id d'.subscriptions)
      → IsOnCycle now (after_outcome p signing advance pause_after o d' rest)
        × (count_id id (after_outcome p signing advance pause_after o d' rest).subscriptions
            ≡ count_id id d.subscriptions)
  after_outcome-IsOnCycle now thrown d d' rest h same next = (h, same)
  after_outcome-IsOnCycle now charged d d' rest h same next = (next.0, next.1 ∙ same)
  after_outcome-IsOnCycle now (failed reason) d d' rest h same next = (next.0, next.1 ∙ same)

  charge_all-IsOnCycle :
      (world : World p signing advance pause_after) (last now : ℕ)
      (subs : List (Subscription Amount)) (d : Db p)
      → last ≤ now
      → count_id id subs ≤ 1
      → All (Fits id interval (due_at d) now) subs
      → IsOnCycle last d
      → IsOnCycle now (charge_all p signing advance pause_after world now subs d)
        × (count_id id (charge_all p signing advance pause_after world now subs d).subscriptions
            ≡ count_id id d.subscriptions)
  unfolding charge_all
  charge_all-IsOnCycle world last now [] d later once fit h = (
    record {
      scheduled = h.scheduled;
      was_due = λ n below. let held = h.was_due n below in omega (arith, held, later);
    },
    refl,
  )
  charge_all-IsOnCycle world last now (s ∷ subs) d later once fit h =
      let e = charge_one-Effect p signing advance pause_after id world now s d in
      let ran = charge_one p signing advance pause_after world now s d in
      let first = step-IsOnCycle last now s ran.0 d ran.1 later fit.0 e h in
      after_outcome-IsOnCycle now ran.0 d ran.1 _ first e.count_effect (
        charge_all-IsOnCycle world now now subs ran.1 (omega arith) (count_id-rest s subs once)
          (rest-Fits now s subs ran.0 d ran.1 once fit.1 e) first)

  tick-IsOnCycle :
      (world : World p signing advance pause_after) (last now batch_size : ℕ) (d : Db p)
      → last ≤ now
      → count_id id d.subscriptions ≤ 1
      → IsOnCycle last d
      → let d' = charge_due_subscriptions p signing advance pause_after world now batch_size d in
        IsOnCycle now d' × (count_id id d'.subscriptions ≡ count_id id d.subscriptions)
  unfolding charge_due_subscriptions
  tick-IsOnCycle world last now batch_size d later few h =
      let (fits, once) =
        list_due_subscriptions-Fits id interval (due_at d) now batch_size d few h.scheduled in
      charge_all-IsOnCycle world last now _ d later once fits h

-- A tick: its time, how many rows it takes, and the identifiers and transfers it meets.
pub record Tick {Amount : Type 0} (p : Payments Amount) (signing : Signing Amount)
    (advance : SubscriptionInterval → ℕ → ℕ) (pause_after : ℕ) : Type 0 where
  pub now : ℕ
  pub batch_size : ℕ
  pub world : World p signing advance pause_after

module _ {Amount : Type 0} {p : Payments Amount} {signing : Signing Amount}
    {advance : SubscriptionInterval → ℕ → ℕ} {pause_after : ℕ} where
  -- One tick after the other.
  abbrev pub run_ticks : List (Tick p signing advance pause_after) → Db p → Db p
  run_ticks [] d = d
  run_ticks (t ∷ ticks) d =
      run_ticks ticks
        (charge_due_subscriptions p signing advance pause_after t.world t.now t.batch_size d)

  -- The times do not go back, and end at `last`.
  abbrev pub IsInOrder : ℕ → List (Tick p signing advance pause_after) → ℕ → Type 0
  IsInOrder from [] last = from ≤ last
  IsInOrder from (t ∷ ticks) last = (from ≤ t.now) × IsInOrder t.now ticks last

module _ {Amount : Type 0} (p : Payments Amount) (signing : Signing Amount)
    (advance : SubscriptionInterval → ℕ → ℕ) (pause_after : ℕ) (id : Text) (start : ℕ)
    (interval : SubscriptionInterval) where
  run_ticks-IsOnCycle :
      (from last : ℕ) (ticks : List (Tick p signing advance pause_after)) (d : Db p)
      → IsInOrder from ticks last
      → count_id id d.subscriptions ≤ 1
      → IsOnCycle p signing advance pause_after id start interval from d
      → IsOnCycle p signing advance pause_after id start interval last (run_ticks ticks d)
  run_ticks-IsOnCycle from last [] d later few h = record {
    scheduled = h.scheduled;
    was_due = λ n below. let held = h.was_due n below in omega (arith, held, later);
  }
  run_ticks-IsOnCycle from last (t ∷ ticks) d order few h =
      let (next, same) =
        tick-IsOnCycle p signing advance pause_after id start interval t.world from t.now
          t.batch_size d order.0 few h in
      run_ticks-IsOnCycle t.now last ticks _ order.1 (rw same few) next

  -- For a subscription whose identifier one row has at most, which the journal has not as charged
  -- and whose next charge is at `start`, after any ticks of which each is over before the next one
  -- reads its rows, and whose times do not go back, whatever their transfers come to: if the journal has it as charged n times, its next charge is at the time n
  -- cycles after `start`, and the time k cycles after `start`, for each k below n, is not after the
  -- last tick.
  pub charged_once_per_cycle :
      (last : ℕ) (ticks : List (Tick p signing advance pause_after)) (d : Db p)
      → IsInOrder 0 ticks last
      → count_id id d.subscriptions ≤ 1
      → schedule id d ≡ some (interval, start)
      → charges id d.audit ≡ 0
      → let d' = run_ticks ticks d in
        let n = charges id d'.audit in
        (schedule id d' ≡ some (interval, iterate (advance interval) n start))
        × ((k : ℕ) → k < n → iterate (advance interval) k start ≤ last)
  charged_once_per_cycle last ticks d order few h fresh =
      let end = run_ticks-IsOnCycle 0 last ticks d order few (record {
        scheduled = rw fresh h;
        was_due = λ n below. absurd (omega (arith, fresh, below));
      }) in
      (end.scheduled, end.was_due)
