-- ===== src/Listener/Watcher/Network.antt =====
-- The JSON-RPC endpoints: the calls that the watcher makes and what an endpoint may answer.
use zettapay.Prelude.{ℕ, List, Text}

pub record RpcLog : Type 0 where
  pub transaction_hash : Text
  pub log_index : Text
  pub block_number : Text
  pub data_hex : Text

pub data Call : Type 0 where
  eth_block_number : Call
  -- token contract, first block, last block, recipient
  eth_get_logs : Text → ℕ → ℕ → Text → Call

-- The `result` of a call; every failure is `null`.
pub data RpcResult : Type 0 where
  null other : RpcResult
  text : Text → RpcResult
  logs : List RpcLog → RpcResult

-- What each endpoint answers in one poll.
abbrev pub Net : Type 0
Net = Text → Call → RpcResult
