-- ===== src/Listener/Storage/Tests.antt =====
-- A run of packages/listener/src/storage/json.ts at concrete inputs.
use zettapay.Prelude.{none, some, List, [], ◌∷◌, codes}
use zettapay.Listener.Types.{base, confirmed, InvoiceInput}
use zettapay.Listener.Storage.WellFormed.{IsWellFormed}
use zettapay.Listener.Storage.Reachable.{
  Operation, make_invoice, set_status, take_index, run_all, empty_directory, reachable-IsWellFormed,
}

abbrev input : InvoiceInput
input = record {
  id = [];
  merchant_id = codes "m";
  chain = base;
  asset = codes "USDC";
  amount = codes "5000000";
  address = codes "0x1";
  child_index = some 0;
  status = none;
  expires_at = 9000;
}

-- An invoice that is made and paid, and a call that throws.
abbrev operations : List Operation
operations =
    make_invoice (codes "u") 1000 input
    ∷ take_index (codes "nobody")
    ∷ set_status 2000 (codes "inv_u") confirmed (λ inv. record inv { paid_at = some 2000 })
    ∷ []

reachable-IsWellFormed_example : IsWellFormed (run_all operations empty_directory)
reachable-IsWellFormed_example = reachable-IsWellFormed operations
