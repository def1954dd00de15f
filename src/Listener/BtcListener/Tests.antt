-- ===== src/Listener/BtcListener/Tests.antt =====
-- Runs of packages/listener/src/listener.ts at concrete inputs.
use zettapay.Prelude.{◌≡◌, true, none, some, [], ◌∷◌, codes, ◌⊎◌}
use zettapay.Listener.Types.{Invoice, btc, pending}
use zettapay.Listener.Storage.{good}
use zettapay.Listener.BtcListener.{State, Config, MempoolTx, process_tx}
use zettapay.Prelude.{keep, elem}
use zettapay.Prelude.Dict.{lookup}
use zettapay.Listener.Storage.{is_open, good_files}
use zettapay.Listener.BtcListener.{reconcile_subscriptions}
use zettapay.Listener.BtcListener.Subscriptions.{
  is_address_of, id_at, reconcile_subscriptions_exact,
}
use zettapay.Listener.Types.{confirmed}
use zettapay.Listener.Storage.{create_invoice, update_invoice_status}
use zettapay.Listener.Storage.Reachable.{
  Operation, make_invoice, set_status, run, run_all, empty_directory, reachable-IsWellFormed,
}
use zettapay.Listener.BtcListener.Messages.{Rest, Message, handle_ws_message}
use zettapay.Listener.BtcListener.Settled.{settled_stays}
use zettapay.Prelude.Dict.{insert}
use zettapay.Prelude.{◌===◌, ◌++◌, refl, List}
use zettapay.Listener.BtcListener.Laws.{Untouched, IsTracked, process_tx_safe}

abbrev invoice : Invoice
invoice = record {
  id = codes "inv_1";
  merchant_id = codes "m";
  chain = btc;
  asset = codes "BTC";
  amount = codes "0.5";
  address = codes "bc1q";
  child_index = some 0;
  status = pending;
  expires_at = 9000;
  paid_at = none;
  tx_hash = none;
  created_at = 1;
  updated_at = 1;
}

abbrev config : Config
config = record { required = λ inv. 1; now = 2000; uuid = λ id. codes "u" ++ id }

abbrev state : State
state = record {
  store = record { merchant = none; invoices = (codes "inv_1", good invoice) ∷ []; events = [] };
  subscribed = codes "bc1q" ∷ [];
  address_to_invoice = (codes "bc1q", codes "inv_1") ∷ [];
  last_block_height = some 100;
}

-- Half a bitcoin.
abbrev payment : MempoolTx
payment = record {
  txid = codes "t";
  is_confirmed = true;
  block_height = some 99;
  vout = (codes "bc1q", 50000000) ∷ [];
}

process_tx_safe_example :
    Untouched (codes "inv_1") state (process_tx config (codes "bc1q") payment state).1
    ⊎ IsTracked (codes "bc1q") (codes "inv_1") state
process_tx_safe_example = process_tx_safe config (codes "bc1q") payment (codes "inv_1") state

reconcile_subscriptions_exact_example :
    let s' = (reconcile_subscriptions config state).1 in
    let pending = keep (is_open 2000 (some btc)) (good_files state.store.invoices) in
    (elem (codes "bc1q") s'.subscribed ≡ is_address_of (codes "bc1q") pending)
    × (lookup (codes "bc1q") s'.address_to_invoice ≡ id_at (codes "bc1q") pending)
reconcile_subscriptions_exact_example = reconcile_subscriptions_exact config (codes "bc1q") state

-- The invoice is made and confirmed.
abbrev history : List Operation
history =
    make_invoice (codes "u") 1 (record {
      id = codes "inv_1";
      merchant_id = codes "m";
      chain = btc;
      asset = codes "BTC";
      amount = codes "0.5";
      address = codes "bc1q";
      child_index = some 0;
      status = none;
      expires_at = 9000;
    })
    ∷ set_status 1500 (codes "inv_1") confirmed (λ inv. inv)
    ∷ []

abbrev settled : State
settled = record {
  store = run_all history empty_directory;
  subscribed = codes "bc1q" ∷ [];
  address_to_invoice = (codes "bc1q", codes "inv_1") ∷ [];
  last_block_height = some 100;
}

-- A second payment to the same address, and a new block.
abbrev message : Message
message = record {
  multi_address_transactions =
      record { address = codes "bc1q"; confirmed = payment ∷ []; mempool = [] } ∷ [];
  address_transactions = [];
  block = some 101;
  blocks = none;
}

abbrev rest : Rest
rest = record { fetch_tx = λ h. none; fetch_address_txs = λ a. none }

settled_stays_example :
    Untouched (codes "inv_1") settled (handle_ws_message config rest message settled).1
unfolding run_all run create_invoice update_invoice_status insert lookup ◌===◌
settled_stays_example =
    settled_stays (codes "inv_1") (record invoice { status = confirmed; updated_at = 1500 }) config
      rest message settled (reachable-IsWellFormed history) refl refl
