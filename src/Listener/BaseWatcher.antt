-- ===== src/Listener/BaseWatcher.antt =====
-- packages/listener/src/base-watcher.ts, the class `BaseWatcher`: an invoice with an address of its
-- own is paid when the address's balance covers it. A poll is one step at one instant; what the
-- endpoint answers is a function. Log lines, timers and the status fields that only report are left
-- out.
pub mod Laws
mod Tests
use zettapay.Prelude.{
  ℕ, ◌+◌, ◌-◌, Bool, true, false, not, ◌&&◌, Option, none, some, List, [], ◌∷◌, ◌++◌, Text, codes,
  leb, if◌then◌else◌, ◌==◌, ◌===◌, to_lower_case, drop, length, replicate,
}
use zettapay.Prelude.Numerals.{big_int, to_string}
use zettapay.Listener.Errors.{Error, bad_big_int, Result, ok, err, or_throw}
use zettapay.Listener.Types.{base, confirmed, Invoice, base_confirmed, BalancePayload}
use zettapay.Listener.Storage.{
  Store, Action, pure, lift, ◌>>=◌, ◌>>◌, list_pending_invoices, update_invoice_status,
  record_webhook_event,
}
use zettapay.Listener.Pricing.{pad_start}
use zettapay.Listener.Watcher.{is_hex_address}

abbrev pub webhook_retry_initial_ms : ℕ
webhook_retry_initial_ms = 1000

abbrev pub balance_of_selector : Text
balance_of_selector = codes "0x70a08231"

-- The call's data for an address.
unfoldable pub encode_balance_of : Text → Text
encode_balance_of address = balance_of_selector ++ pad_start 64 (to_lower_case (drop 2 address))

-- The `result` of a call: a text, or anything else, which every failure counts as.
pub data CallResult : Type 0 where
  no_text : CallResult
  text : Text → CallResult

-- What the options fix, and what a poll is given: the answer of the endpoint to `eth_call` of a
-- contract with some data, and what the clock and `randomUUID` return.
pub record Config : Type 0 where
  pub usdc_address : Text
  pub eth_call : Text → Text → CallResult
  pub now : ℕ
  -- What `randomUUID` returns for the event of an invoice.
  pub uuid : Text → Text

starts_with_0x : Text → Bool
starts_with_0x (z ∷ x ∷ s) = z == b'0' && (x == b'x')
starts_with_0x _ = false

-- A text that does not parse makes `BigInt` throw, which is caught: `none`.
unfoldable pub balance_units : CallResult → Option ℕ
unfolding starts_with_0x
balance_units no_text = none
balance_units (text s) =
    if not (starts_with_0x s) then none else if s === codes "0x" then some 0 else big_int s

unfoldable pub balance_of : Config → Text → Option ℕ
balance_of cfg address = balance_units (cfg.eth_call cfg.usdc_address (encode_balance_of address))

unfoldable pub required_units : Invoice → Result ℕ
required_units inv = or_throw (big_int inv.amount) bad_big_int

paid_at_or : Option ℕ → ℕ → ℕ
paid_at_or none now = now
paid_at_or (some t) now = t

unfoldable pub emit_confirmed_webhook : Config → Invoice → ℕ → Action (Unit {0})
unfolding paid_at_or
emit_confirmed_webhook cfg invoice balance =
    record_webhook_event (record {
      id = codes "evt_" ++ cfg.uuid invoice.id;
      invoice_id = invoice.id;
      payload = base_confirmed (record {
        invoice_id = invoice.id;
        merchant_id = invoice.merchant_id;
        chain = invoice.chain;
        asset = invoice.asset;
        amount = invoice.amount;
        address = invoice.address;
        tx_hash = invoice.tx_hash;
        balance = to_string balance;
        confirmed_at = paid_at_or invoice.paid_at cfg.now;
      });
      next_retry_at = cfg.now + webhook_retry_initial_ms;
    })
    >> pure tt

-- The patch of a confirmation.
abbrev pub paid : ℕ → Invoice → Invoice
paid now inv = record inv { paid_at = some now }

-- The body of `if (balance >= required)`.
unfoldable pub confirm : Config → Invoice → ℕ → Action (Unit {0})
confirm cfg inv balance = do
  done ← update_invoice_status cfg.now inv.id confirmed (paid cfg.now)
  emit_confirmed_webhook cfg done balance

unfoldable pub with_required : Config → Invoice → ℕ → Result ℕ → Action Bool
with_required cfg inv balance (err e) s = (err e, s)
with_required cfg inv balance (ok required) s =
    (if leb required balance then confirm cfg inv balance >> pure true else pure true) s

unfoldable pub with_balance : Config → Invoice → Option ℕ → Action Bool
with_balance cfg inv none s = (ok false, s)
with_balance cfg inv (some balance) s = with_required cfg inv balance (required_units inv) s

-- `false` when the read failed.
unfoldable pub check_invoice : Config → Invoice → Action Bool
check_invoice cfg inv s =
    if is_hex_address inv.address
    then with_balance cfg inv (balance_of cfg inv.address) s
    else (ok true, s)

-- The `catch` around one invoice.
abbrev pub caught : Result Bool × Store → Bool × Store
caught (ok fine, s) = (fine, s)
caught (err e, s) = (false, s)

-- The loop of `pollOnce`.
unfoldable pub check_all : Config → List Invoice → Bool → Store → Bool × Store
check_all cfg [] all_ok s = (all_ok, s)
check_all cfg (inv ∷ pending) all_ok s =
    let (fine, s') = caught (check_invoice cfg inv s) in check_all cfg pending (all_ok && fine) s'

polled : Config → Result (List Invoice) × Store → Bool × Store
unfolding check_all
polled cfg (err e, s) = (false, s)
polled cfg (ok pending, s) = check_all cfg pending true s

-- The new `lastPollOk` and the new state.
unfoldable pub poll_once : Config → Store → Bool × Store
unfolding polled
poll_once cfg s = polled cfg (list_pending_invoices cfg.now (some base) 0 s)
