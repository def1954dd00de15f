-- ===== src/Listener/Watcher/Tests.antt =====
-- Runs of packages/listener/src/fixed-address-watcher.ts at concrete inputs.
use zettapay.Prelude.{◌≡◌, refl, ◌⊎◌, true, none, some, [], ◌∷◌, Text, codes, ◌===◌, if◌then◌else◌}
use zettapay.Prelude.Dict.{lookup}
use zettapay.Prelude.Numerals.{big_int}
use zettapay.Listener.Errors.{ok}
use zettapay.Listener.Types.{Invoice, base, pending}
use zettapay.Listener.Storage.{good}
use zettapay.Listener.Chains.{EvmTokenSpec, base_spec, base_usdc, usdc}
use zettapay.Listener.Nonce.{match_amount}
use zettapay.Listener.Quorum.{RpcObservation}
use zettapay.Listener.Watcher.{
  RpcLog, Net, eth_block_number, eth_get_logs, text, logs, State, Config, FixedChainConfig,
  find_invoice_by_value, nonce_of, handle_transfer,
}
use zettapay.Listener.Watcher.Scan.{scan_token}
use zettapay.Listener.Watcher.Transfers.{Untouched}
use zettapay.Listener.Watcher.Safety.{IsPaidFor, scan_token_safe}
use zettapay.Listener.Watcher.Outcomes.{paid_file, handle_transfer_confirms}

abbrev address : Text
address = codes "0x00000000000000000000000000000000000000Aa"

abbrev invoice : Invoice
invoice = record {
  id = codes "inv_1";
  merchant_id = codes "m";
  chain = base;
  asset = codes "USDC";
  amount = codes "5000042";
  address = address;
  child_index = none;
  status = pending;
  expires_at = 9000;
  paid_at = none;
  tx_hash = none;
  created_at = 1;
  updated_at = 1;
}

abbrev token : EvmTokenSpec
token = record { symbol = usdc; address = base_usdc; decimals = 6 }

abbrev chain : FixedChainConfig
chain = record {
  spec = base_spec;
  rpc_url = codes "https://a";
  rpc_urls = codes "https://a" ∷ codes "https://b" ∷ [];
  enabled_tokens = token ∷ [];
}

-- 5000042 is 0x4c4b6a.
abbrev transfer : RpcLog
transfer = record {
  transaction_hash = codes "0xt";
  log_index = codes "0x0";
  block_number = codes "0x63";
  data_hex = codes "0x4c4b6a";
}

-- Both endpoints report the transfer, in the last block but one.
abbrev net : Net
net url eth_block_number = text (codes "0x64")
net url (eth_get_logs contract from_block to_block recipient) = logs (transfer ∷ [])

abbrev config : Config
config = record {
  merchant_id = codes "m";
  address = address;
  chains = chain ∷ [];
  block_window = 50;
  quorum = 2;
  sha256 = λ s. s;
  net = net;
  now = 2000;
}

abbrev state : State
state = record {
  store = record { merchant = none; invoices = (codes "inv_1", good invoice) ∷ []; events = [] };
  seen = λ c. [];
}

scan_token_safe_example :
    Untouched (codes "inv_1") state (scan_token config chain token (invoice ∷ []) state).1
    ⊎ IsPaidFor config chain token (invoice ∷ []) (codes "inv_1")
scan_token_safe_example = scan_token_safe config chain token (invoice ∷ []) (codes "inv_1") state

handle_transfer_confirms_example :
    let (r, s') = handle_transfer config chain token (invoice ∷ []) (codes "0xt") 5000042 2 state in
    (r ≡ ok true)
    × ((j : Text)
        → lookup j s'.store.invoices ≡ (
            if codes "inv_1" === j
            then some (paid_file 2000 (codes "0xt") invoice)
            else lookup j state.store.invoices))
unfolding find_invoice_by_value nonce_of big_int match_amount lookup ◌===◌
handle_transfer_confirms_example =
    handle_transfer_confirms config chain token (invoice ∷ []) (codes "0xt") 5000042 2 42 invoice
      invoice state refl refl

abbrev reported : RpcObservation
reported = record { value = 5000042; confirmations = 2 }
