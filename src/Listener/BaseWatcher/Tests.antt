-- ===== src/Listener/BaseWatcher/Tests.antt =====
-- A run of packages/listener/src/base-watcher.ts at concrete inputs.
use zettapay.Prelude.{◌++◌, ◌⊎◌, none, some, [], ◌∷◌, codes, keep}
use zettapay.Listener.Types.{Invoice, base, pending}
use zettapay.Listener.Storage.{Store, good, good_files, is_open}
use zettapay.Listener.Chains.{base_usdc}
use zettapay.Listener.BaseWatcher.{Config, text, poll_once}
use zettapay.Listener.BaseWatcher.Laws.{Untouched, IsCovered, base_poll_safe}

abbrev invoice : Invoice
invoice = record {
  id = codes "inv_1";
  merchant_id = codes "m";
  chain = base;
  asset = codes "USDC";
  amount = codes "5000000";
  address = codes "0x00000000000000000000000000000000000000Aa";
  child_index = some 0;
  status = pending;
  expires_at = 9000;
  paid_at = none;
  tx_hash = none;
  created_at = 1;
  updated_at = 1;
}

-- Every address holds 0x4c4b40, which is 5000000.
abbrev config : Config
config = record {
  usdc_address = base_usdc;
  eth_call = λ contract data_hex. text (codes "0x4c4b40");
  now = 2000;
  uuid = λ id. codes "u" ++ id;
}

abbrev store : Store
store = record { merchant = none; invoices = (codes "inv_1", good invoice) ∷ []; events = [] }

base_poll_safe_example :
    Untouched (codes "inv_1") store (poll_once config store).1
    ⊎ IsCovered config (codes "inv_1") (keep (is_open 2000 (some base)) (good_files store.invoices))
base_poll_safe_example = base_poll_safe config (codes "inv_1") store
