-- ===== src/Listener/BtcListener/Messages.antt =====
-- The sources of transactions of packages/listener/src/listener.ts: the socket's messages, a new
-- block, and the backfill. What the REST endpoint answers is a function.
use zettapay.Prelude.{
  ℕ, max, Bool, ◌||◌, Option, none, some, List, [], ◌∷◌, ◌++◌, Text, if◌then◌else◌, ◌==◌, is_some,
}
use zettapay.Listener.Types.{btc, Invoice}
use zettapay.Listener.Storage.{list_pending_invoices}
use zettapay.Listener.BtcListener.{
  Config, MempoolTx, Listen, pure, modify, from_store, ◌>>=◌, ◌>>◌, process_txs,
}

-- `restGet`: `none` is `null`, which every failure gives.
pub record Rest : Type 0 where
  pub fetch_tx : Text → Option MempoolTx
  pub fetch_address_txs : Text → Option (List MempoolTx)

-- The transactions of one address in a message.
pub record Group : Type 0 where
  pub address : Text
  pub confirmed : List MempoolTx
  pub mempool : List MempoolTx

pub record Message : Type 0 where
  pub multi_address_transactions : List Group
  pub address_transactions : List (Text × List MempoolTx)
  -- the heights of `block` and of `blocks`, where they are there
  pub block : Option ℕ
  pub blocks : Option (List ℕ)

abbrev pub at : Text → List MempoolTx → List (Text × MempoolTx)
at address [] = []
at address (tx ∷ txs) = (address, tx) ∷ at address txs

abbrev pub grouped : List Group → List (Text × MempoolTx)
grouped [] = []
grouped (g ∷ groups) = at g.address (g.confirmed ++ g.mempool) ++ grouped groups

abbrev pub flat : List (Text × List MempoolTx) → List (Text × MempoolTx)
flat [] = []
flat ((address, txs) ∷ rest) = at address txs ++ flat rest

abbrev fetched : Rest → Option Text → Option MempoolTx
fetched rest none = none
fetched rest (some []) = none
fetched rest (some (c ∷ h)) = rest.fetch_tx (c ∷ h)

abbrev or_empty : Option (List MempoolTx) → List MempoolTx
or_empty none = []
or_empty (some txs) = txs

-- What the loops of `advanceConfirmationsOnNewBlock` and `backfillPending` process.
abbrev pub candidates : Rest → List Invoice → List (Text × MempoolTx)
candidates rest [] = []
candidates rest (inv ∷ pending) = elim (fetched rest inv.tx_hash) [
  | none ↦ candidates rest pending
  | some tx ↦ (inv.address, tx) ∷ candidates rest pending
]

abbrev pub histories : Rest → List Invoice → List (Text × MempoolTx)
histories rest [] = []
histories rest (inv ∷ pending) =
    at inv.address (or_empty (rest.fetch_address_txs inv.address)) ++ histories rest pending

unfoldable pub advance_confirmations_on_new_block : Config → Rest → Listen (Unit {0})
advance_confirmations_on_new_block cfg rest = do
  pending ← from_store (list_pending_invoices cfg.now (some btc) 0)
  process_txs cfg (candidates rest pending)

abbrev pub has_block : Message → Bool
has_block msg = is_some msg.block || is_some msg.blocks

unfoldable pub handle_ws_message : Config → Rest → Message → Listen (Unit {0})
handle_ws_message cfg rest msg = do
  process_txs cfg (grouped msg.multi_address_transactions)
  process_txs cfg (flat msg.address_transactions)
  if has_block msg then advance_confirmations_on_new_block cfg rest else pure tt

-- A height of 0 counts as none.
abbrev tip_of_block : Option ℕ → Option ℕ → Option ℕ
tip_of_block none tip = tip
tip_of_block (some h) tip = if h == 0 then tip else some h

abbrev highest : ℕ → List ℕ → ℕ
highest h [] = h
highest h (k ∷ hs) = highest (max h k) hs

abbrev tip_of_blocks : Option (List ℕ) → Option ℕ → Option ℕ
tip_of_blocks none tip = tip
tip_of_blocks (some []) tip = tip
tip_of_blocks (some (h ∷ hs)) tip = some (highest h hs)

-- The handler of the socket's `message` event, behind the parsing.
unfoldable pub on_message : Config → Rest → Message → Listen (Unit {0})
on_message cfg rest msg =
    modify (λ s. record s {
      last_block_height = tip_of_blocks msg.blocks (tip_of_block msg.block s.last_block_height);
    })
    >> handle_ws_message cfg rest msg

unfoldable pub backfill_pending : Config → Rest → Listen (Unit {0})
backfill_pending cfg rest = do
  pending ← from_store (list_pending_invoices cfg.now (some btc) 0)
  process_txs cfg (histories rest pending)
