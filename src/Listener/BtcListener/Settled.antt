-- ===== src/Listener/BtcListener/Settled.antt =====
-- What is settled stays settled, whatever the Bitcoin listener is told
-- (packages/listener/src/listener.ts).
use zettapay.Prelude.{
  ℕ, ◌≡◌, refl, inl, inr, true, false, Option, none, some, List, [], ◌∷◌, Text, leb, if◌then◌else◌,
  arith, Bool-cases, Option-cases, ◌∙◌, sym, subst,
}
use zettapay.Prelude.Dict.{lookup}
use zettapay.Listener.Errors.{Result, ok, err}
use zettapay.Listener.Types.{btc, pending, confirmed, is_pending, Invoice, InvoiceStatus}
use zettapay.Listener.Storage.{
  Store, Action, File, is_open, select, good, corrupt, get_invoice, list_pending_invoices,
  read_json_or_null, record_webhook_event, update_invoice_status,
}
use zettapay.Listener.Storage.WellFormed.{IsWellFormed, update-IsWellFormed, record-IsWellFormed}
use zettapay.Listener.BtcListener.{
  State, Config, MempoolTx, Listen, pure, from_store, ◌>>=◌, ◌>>◌, emit_confirmed_webhook, settle,
  when_pending, when_tracked, process_tx, process_txs, paid, untrack, same_hash,
  compute_confirmations,
}
use zettapay.Listener.BtcListener.Laws.{Untouched, process_tx_safe}
use zettapay.Listener.BtcListener.Messages.{
  Rest, Message, grouped, flat, candidates, advance_confirmations_on_new_block, has_block,
  handle_ws_message,
}

-- The directory is well formed, and the invoice's file says something else than pending.
abbrev pub IsSettled : Text → Invoice → State → Type 0
IsSettled id inv s =
    IsWellFormed s.store
    × (lookup id s.store.invoices ≡ some (good inv))
    × (is_pending inv.status ≡ false)

-- A run of `m` never breaks `P`.
abbrev Keeps : {A : Type 0} → (State → Type 0) → Listen A → Type 0
Keeps P m = (s : State) → P s → P (m s).1

Keeps-bind :
    {A B : Type 0} (P : State → Type 0) (m : Listen A) (f : A → Listen B)
    → Keeps P m
    → ((a : A) → Keeps P (f a))
    → Keeps P (m >>= f)
Keeps-bind {A} {B} P m f first next s h = go (m s) (first s h)
  where
    go :
        (r : Result A × State)
        → P r.1
        → P (elim r.0 as (λ _. Result B × State) [ ok a ↦ f a r.1 | err e ↦ (err e, r.1) ]).1
    go (ok a, s') h' = next a s' h'
    go (err e, s') h' = h'

abbrev WellFormedState : State → Type 0
WellFormedState s = IsWellFormed s.store

Keeps-store :
    {A : Type 0} (m : Action A)
    → ((st : Store) → IsWellFormed st → IsWellFormed (m st).1)
    → Keeps WellFormedState (from_store m)
Keeps-store m h s wf = h s.store wf

emit-WellFormed :
    (cfg : Config) (inv : Invoice) (n : ℕ)
    → Keeps WellFormedState (emit_confirmed_webhook cfg inv n)
unfolding emit_confirmed_webhook record_webhook_event
emit-WellFormed cfg inv n s wf = unfold record_webhook_event in record-IsWellFormed _ s.store wf

update-WellFormed :
    {B : Type 0} (cfg : Config) (id : Text) (status : InvoiceStatus) (patch : Invoice → Invoice)
    (f : Invoice → Listen B)
    → ((inv : Invoice) → Keeps WellFormedState (f inv))
    → Keeps WellFormedState (from_store (update_invoice_status cfg.now id status patch) >>= f)
update-WellFormed cfg id status patch f next =
    Keeps-bind WellFormedState (from_store (update_invoice_status cfg.now id status patch)) f
      (Keeps-store (update_invoice_status cfg.now id status patch)
        (update-IsWellFormed cfg.now id status patch))
      next

settle-WellFormed :
    (cfg : Config) (address : Text) (tx : MempoolTx) (inv : Invoice)
    → Keeps WellFormedState (settle cfg address tx inv)
unfolding settle
settle-WellFormed cfg address tx inv s wf =
    let n = compute_confirmations s.last_block_height tx in
    elim (Bool-cases (leb (cfg.required inv) n)) [
      | inl enough ↦ rw enough (
          update-WellFormed cfg inv.id confirmed (paid cfg.now tx.txid)
            (λ done. emit_confirmed_webhook cfg done n >> untrack address)
            (λ done.
              Keeps-bind WellFormedState (emit_confirmed_webhook cfg done n) (λ _. untrack address)
                (emit-WellFormed cfg done n) (λ _ s' wf'. wf'))
            s wf)
      | inr early ↦ elim (Bool-cases (same_hash inv.tx_hash tx.txid)) [
        | inl known ↦ rw (early, known) wf
        | inr new ↦
            rw (early, new)
              (update-WellFormed cfg inv.id pending (λ i. record i { tx_hash = some tx.txid })
                (λ _. pure tt) (λ _ s' wf'. wf') s wf)
      ]
    ]

when_pending-WellFormed :
    (cfg : Config) (address : Text) (tx : MempoolTx) (found : Option Invoice)
    → Keeps WellFormedState (when_pending cfg address tx found)
when_pending-WellFormed cfg address tx none s wf = wf
when_pending-WellFormed cfg address tx (some inv) s wf = elim (Bool-cases (is_pending inv.status)) [
  | inl is_open ↦ rw is_open (settle-WellFormed cfg address tx inv s wf)
  | inr closed ↦ rw closed wf
]

get_invoice-same : (id : Text) (st : Store) → (get_invoice id st).1 ≡ st
unfolding get_invoice
get_invoice-same id st = elim (Option-cases (lookup id st.invoices)) [
  | inl missing ↦ rw (missing, read_json_or_null) refl
  | inr (corrupt, found) ↦ rw (found, read_json_or_null) refl
  | inr (good inv, found) ↦ rw (found, read_json_or_null) refl
]

when_tracked-WellFormed :
    (cfg : Config) (address : Text) (tx : MempoolTx) (tracked : Option Text)
    → Keeps WellFormedState (when_tracked cfg address tx tracked)
when_tracked-WellFormed cfg address tx none s wf = wf
when_tracked-WellFormed cfg address tx (some key) s wf =
    Keeps-bind WellFormedState (from_store (get_invoice key)) (when_pending cfg address tx)
      (Keeps-store (get_invoice key) (λ st h. rw (get_invoice-same key st) h))
      (when_pending-WellFormed cfg address tx) s wf

process_tx-WellFormed :
    (cfg : Config) (address : Text) (tx : MempoolTx)
    → Keeps WellFormedState (process_tx cfg address tx)
unfolding process_tx
process_tx-WellFormed cfg address tx s wf =
    when_tracked-WellFormed cfg address tx (lookup address s.address_to_invoice) s wf

process_tx-IsSettled :
    (id : Text) (inv : Invoice) (cfg : Config) (address : Text) (tx : MempoolTx)
    → Keeps (IsSettled id inv) (process_tx cfg address tx)
process_tx-IsSettled id inv cfg address tx s (wf, file, closed) = (
  process_tx-WellFormed cfg address tx s wf,
  elim (process_tx_safe cfg address tx id s) [
    | inl same ↦ same ∙ file
    | inr t ↦
        let at : t.key ≡ id = sym (wf.invoices t.key t.invoice t.file) ∙ t.same_id in
        let here : lookup id s.store.invoices ≡ some (good t.invoice) =
          subst (λ k. lookup k s.store.invoices ≡ some (good t.invoice)) at t.file in
        absurd (contrary (sym file ∙ here) closed t.is_open)
  ],
  closed,
)
  where
    contrary :
        {a b : Invoice}
        → ◌≡◌ {A = Option (File Invoice)} (some (good a)) (some (good b))
        → is_pending a.status ≡ false
        → is_pending b.status ≡ true
        → ⊥
    contrary e x y = ground arith

process_txs-IsSettled :
    (id : Text) (inv : Invoice) (cfg : Config) (txs : List (Text × MempoolTx))
    → Keeps (IsSettled id inv) (process_txs cfg txs)
unfolding process_txs
process_txs-IsSettled id inv cfg [] s h = h
process_txs-IsSettled id inv cfg ((address, tx) ∷ txs) s h =
    Keeps-bind (IsSettled id inv) (process_tx cfg address tx) (λ _. process_txs cfg txs)
      (process_tx-IsSettled id inv cfg address tx) (λ _. process_txs-IsSettled id inv cfg txs) s h

advance-IsSettled :
    (id : Text) (inv : Invoice) (cfg : Config) (rest : Rest)
    → Keeps (IsSettled id inv) (advance_confirmations_on_new_block cfg rest)
unfolding advance_confirmations_on_new_block list_pending_invoices
advance-IsSettled id inv cfg rest s h =
    process_txs-IsSettled id inv cfg
      (candidates rest (select (is_open cfg.now (some btc)) 0 0 s.store.invoices)) s h

-- In a well-formed directory, an invoice that is confirmed, expired or otherwise not pending keeps
-- its file through every message of the socket, a message that ends in a throw included.
pub settled_stays :
    (id : Text) (inv : Invoice) (cfg : Config) (rest : Rest) (msg : Message) (s : State)
    → IsWellFormed s.store
    → lookup id s.store.invoices ≡ some (good inv)
    → is_pending inv.status ≡ false
    → Untouched id s (handle_ws_message cfg rest msg s).1
unfolding handle_ws_message
settled_stays id inv cfg rest msg s wf file closed =
    let P = IsSettled id inv in
    let multi = process_txs cfg (grouped msg.multi_address_transactions) in
    let single = process_txs cfg (flat msg.address_transactions) in
    let last : Listen (Unit {0}) =
      if has_block msg then advance_confirmations_on_new_block cfg rest else pure tt in
    let last_keeps : Keeps P last = elim (Bool-cases (has_block msg)) [
      | inl block ↦ λ s' h. rw block (advance-IsSettled id inv cfg rest s' h)
      | inr quiet ↦ λ s' h. rw quiet h
    ] in
    let (_, kept, _) =
      Keeps-bind P multi (λ _. single >> last)
        (process_txs-IsSettled id inv cfg (grouped msg.multi_address_transactions))
        (λ _.
          Keeps-bind P single (λ _. last)
            (process_txs-IsSettled id inv cfg (flat msg.address_transactions)) (λ _. last_keeps))
        s (wf, file, closed) in
    kept ∙ sym file
