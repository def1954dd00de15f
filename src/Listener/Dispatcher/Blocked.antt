-- ===== src/Listener/Dispatcher/Blocked.antt =====
-- Events whose retries are used up (packages/listener/src/webhook-dispatcher.ts).
use zettapay.Prelude.{
  ℕ, ◌≤◌, ◌≡◌, refl, true, none, List, [], ◌∷◌, ◌++◌, All, map, length, take, keep, arith, ap, ◌∙◌,
  Text,
}
use zettapay.Prelude.Dict.{Dict}
use zettapay.Listener.Errors.{ok}
use zettapay.Listener.Types.{WebhookEvent}
use zettapay.Listener.Storage.{Store, File, good, is_due, good_files, get_webhook_events_due}
use zettapay.Listener.Storage.Select.{select-take}
use zettapay.Listener.Dispatcher.{max_attempts, Server, deliver_one, deliver_all, tick}

-- The event's retries are used up, it is not delivered, and its time has come.
abbrev pub IsDead : ℕ → WebhookEvent → Type 0
IsDead now e = (max_attempts ≤ e.attempts) × (e.delivered_at ≡ none) × (e.next_retry_at ≤ now)

abbrev pub file_of : WebhookEvent → Text × File WebhookEvent
file_of e = (e.id, good e)

dead_due : (now t : ℕ) (e : WebhookEvent) → now ≤ t → IsDead now e → is_due t e ≡ true
unfolding is_due
dead_due now t e le h = ground arith

keep_dead :
    (now t : ℕ) (dead : List WebhookEvent) (rest : Dict (File WebhookEvent))
    → now ≤ t
    → All (IsDead now) dead
    → keep (is_due t) (good_files (map file_of dead ++ rest))
      ≡ dead ++ keep (is_due t) (good_files rest)
keep_dead now t [] rest le h = refl
keep_dead now t (e ∷ dead) rest le h =
    ground (arith, dead_due now t e le h.0, keep_dead now t dead rest le h.1)

take-append : (xs ys : List WebhookEvent) → take (length xs) (xs ++ ys) ≡ xs
take-append [] ys = refl
take-append (x ∷ xs) ys = rw (take-append xs ys)

deliver_dead :
    (now t : ℕ) (post : Server) (dead : List WebhookEvent) (s : Store)
    → All (IsDead now) dead
    → deliver_all t post dead s ≡ (ok tt, s)
unfolding deliver_all deliver_one
deliver_dead now t post [] s h = refl
deliver_dead now t post (e ∷ dead) s h = ground (arith, deliver_dead now t post dead s h.1)

-- A batch of dead events at the front of the directory stops all delivery: at every later time a
-- tick posts nothing and changes nothing, whatever else is due.
pub dead_events_block :
    (now t : ℕ) (post : Server) (e : WebhookEvent) (dead : List WebhookEvent)
    (rest : Dict (File WebhookEvent)) (s : Store)
    → s.events ≡ map file_of (e ∷ dead) ++ rest
    → All (IsDead now) (e ∷ dead)
    → now ≤ t
    → tick t (length (e ∷ dead)) post s ≡ (ok tt, s)
unfolding tick get_webhook_events_due
dead_events_block now t post e dead rest s files h le =
    let due =
      select-take (is_due t) (length dead) s.events
      ∙ ap (λ d. take (length (e ∷ dead)) (keep (is_due t) (good_files d))) files
      ∙ ap (take (length (e ∷ dead))) (keep_dead now t (e ∷ dead) rest le h)
      ∙ take-append (e ∷ dead) (keep (is_due t) (good_files rest)) in
    rw due (deliver_dead now t post (e ∷ dead) s h)
