-- ===== src/Listener/Chains.antt =====
-- The chain and token registry of packages/listener/src/fixed-address-watcher.ts.
use zettapay.Prelude.{
  ℕ, Bool, true, false, Option, none, some, List, [], ◌∷◌, ◌++◌, Text, codes, find, if◌then◌else◌,
  ◌===◌, elem, split, trim, to_lower_case,
}
use zettapay.Prelude.Dict.{Dict, lookup}
use zettapay.Listener.Types.{Chain, base, polygon, eth}

pub record EvmTokenSpec : Type 0 where
  pub symbol : Text
  pub address : Text
  pub decimals : ℕ

pub record EvmChainSpec : Type 0 where
  pub chain : Chain
  pub chain_id : ℕ
  pub usdc_address : Text
  pub tokens : List EvmTokenSpec
  pub default_rpc_url : Text
  pub rpc_env_var : Text
  pub min_confirmations : ℕ

abbrev pub usdc : Text
usdc = codes "USDC"

abbrev pub usdt : Text
usdt = codes "USDT"

abbrev pub base_usdc : Text
base_usdc = codes "0x833589fCD6eDb6E08f4c7C32D4f71b54bdA02913"

abbrev pub base_usdt : Text
base_usdt = codes "0xfde4C96c8593536E31F229EA8f37b2ADa2699bb2"

abbrev pub eth_usdc : Text
eth_usdc = codes "0xA0b86991c6218b36c1d19D4a2e9Eb0cE3606eB48"

abbrev pub polygon_usdc : Text
polygon_usdc = codes "0x3c499c542cEF5E3811e1192ce70d8cC03d5c3359"

abbrev token : Text → Text → EvmTokenSpec
token symbol address = record { symbol = symbol; address = address; decimals = 6 }

abbrev pub base_spec : EvmChainSpec
base_spec = record {
  chain = base;
  chain_id = 8453;
  usdc_address = base_usdc;
  tokens = token usdc base_usdc ∷ token usdt base_usdt ∷ [];
  default_rpc_url = codes "https://mainnet.base.org";
  rpc_env_var = codes "BASE_RPC_URL";
  min_confirmations = 1;
}

abbrev pub ethereum_spec : EvmChainSpec
ethereum_spec = record {
  chain = eth;
  chain_id = 1;
  usdc_address = eth_usdc;
  tokens = token usdc eth_usdc ∷ [];
  default_rpc_url = codes "https://eth.llamarpc.com";
  rpc_env_var = codes "ETHEREUM_RPC_URL";
  min_confirmations = 2;
}

abbrev pub polygon_spec : EvmChainSpec
polygon_spec = record {
  chain = polygon;
  chain_id = 137;
  usdc_address = polygon_usdc;
  tokens = token usdc polygon_usdc ∷ [];
  default_rpc_url = codes "https://polygon-rpc.com";
  rpc_env_var = codes "POLYGON_RPC_URL";
  min_confirmations = 5;
}

abbrev pub evm_chain_registry : Dict EvmChainSpec
evm_chain_registry =
    (codes "base", base_spec)
    ∷ (codes "ethereum", ethereum_spec)
    ∷ (codes "polygon", polygon_spec)
    ∷ []

unfoldable pub lookup_evm_chain : Text → Option EvmChainSpec
lookup_evm_chain alias = lookup (to_lower_case (trim alias)) evm_chain_registry

-- A chain with no token is not in the registry; the blank stands for `undefined`.
abbrev first_token : List EvmTokenSpec → EvmTokenSpec
first_token [] = token [] []
first_token (t ∷ ts) = t

abbrev token_or_first : Option EvmTokenSpec → List EvmTokenSpec → EvmTokenSpec
token_or_first none ts = first_token ts
token_or_first (some t) ts = t

unfoldable pub default_evm_token : EvmChainSpec → EvmTokenSpec
default_evm_token spec = token_or_first (find (λ t. t.symbol === usdc) spec.tokens) spec.tokens

abbrev or_usdc : Option Text → Text
or_usdc none = codes "usdc"
or_usdc (some asset) = asset

unfoldable pub lookup_evm_token : EvmChainSpec → Option Text → Option EvmTokenSpec
lookup_evm_token spec asset =
    let sym = to_lower_case (trim (or_usdc asset)) in
    find (λ t. to_lower_case t.symbol === sym) spec.tokens

is_filled : Text → Bool
is_filled [] = false
is_filled (_ ∷ _) = true

-- `split(',').map(trim, toLowerCase).filter(Boolean)`
aliases : List Text → List Text
aliases [] = []
aliases (part ∷ parts) =
    let a = to_lower_case (trim part) in
    let rest = aliases parts in if is_filled a then a ∷ rest else rest

abbrev or_default : Text → List Text → List Text
or_default d [] = d ∷ []
or_default d (a ∷ as') = a ∷ as'

symbol_of : Text → Option Text
symbol_of alias =
    if alias === codes "usdt" then some usdt else if alias === codes "usdc" then some usdc else none

-- The loop of `parseEvmTokens`; `out` is also the set of what was seen.
tokens_from : List Text → List Text → List Text
tokens_from out [] = out
tokens_from out (alias ∷ rest) = elim (symbol_of alias) [
  | none ↦ tokens_from out rest
  | some sym ↦ tokens_from (if elem sym out then out else out ++ sym ∷ []) rest
]

unfoldable pub parse_evm_tokens : Option Text → List Text
unfolding aliases is_filled symbol_of tokens_from
parse_evm_tokens csv =
    let out = tokens_from [] (or_default (codes "usdc") (aliases (split b',' (or_usdc csv)))) in
    if elem usdc out then out else usdc ∷ out

abbrev or_base : Option Text → Text
or_base none = codes "base"
or_base (some csv) = csv

-- The loop of `parseFixedChains`.
chains_from : List Text → List EvmChainSpec → List Text → List EvmChainSpec
chains_from seen out [] = out
chains_from seen out (alias ∷ rest) = elim (lookup alias evm_chain_registry) [
  | none ↦ chains_from seen out rest
  | some spec ↦
      chains_from (if elem alias seen then seen else alias ∷ seen)
        (if elem alias seen then out else out ++ spec ∷ []) rest
]

abbrev specs_or_base : List EvmChainSpec → List EvmChainSpec
specs_or_base [] = base_spec ∷ []
specs_or_base (s ∷ ss) = s ∷ ss

unfoldable pub parse_fixed_chains : Option Text → List EvmChainSpec
unfolding aliases is_filled chains_from
parse_fixed_chains csv =
    specs_or_base
      (chains_from [] [] (or_default (codes "base") (aliases (split b',' (or_base csv)))))
