-- ===== src/Recharge/Assets.antt =====
-- The symbol and the decimals of the asset of a deposit.
use cot_server.Base.{◌≡◌, ℕ, String, Bool, true, false, not, truthy, text_or_empty, arith}
use cot_server.Model.Chain.{ExternalChainName, eth, bsc, tron}
use cot_server.Model.Wallet.{ExternalTransDetail, TokenInfo}
use cot_server.Host.{Host, Call, Service, lift, pure, ask, ◌>>=◌, get_contract_token_info}
use cot_server.Host.Returns.{
  Returns, Returns-if, Returns-pure, Returns-after, Returns-with_host, Gives, Gives-ok, Gives-err,
  Gives-map,
}
use cot_server.Host.Reads.{Read, Returns-asked}
use cot_server.OrderHelper.{token_info_of}
use cot_server.Recharge.Deposit.{symbol_of, main_asset}

-- The main assets of the external chains.
pub data IsMain (h : Host) : ExternalChainName → String × ℕ → Type 0 where
  main_eth : IsMain h eth (h.asset_eth, 18)
  main_bsc : IsMain h bsc (h.asset_bnb, 18)
  main_tron : IsMain h tron (h.asset_trx, 6)

abbrev token_call : Host → ExternalTransDetail → Call
token_call h from =
    get_contract_token_info (h.text_of_chain from.chain_name) (text_or_empty from.contract_address)

-- The asset is the contract's token, as the wallet has described it, or without a contract the main
-- asset of the chain.
pub data IsAsset (h : Host) (from : ExternalTransDetail) : String × ℕ → Type 0 where
  of_token :
      (info : TokenInfo)
      → truthy from.contract_address ≡ true
      → Read h.token_info (token_call h from) info
      → IsAsset h from (info.symbol, info.decimals)
  of_main :
      (asset : String × ℕ)
      → truthy from.contract_address ≡ false
      → IsMain h from.chain_name asset
      → IsAsset h from asset

module _ (h : Host) where
  main_asset-IsMain : (chain : ExternalChainName) → Gives (IsMain h chain) (main_asset h chain)
  unfolding main_asset
  main_asset-IsMain eth = Gives-ok _ main_eth
  main_asset-IsMain bsc = Gives-ok _ main_bsc
  main_asset-IsMain tron = Gives-ok _ main_tron
  main_asset-IsMain (ExternalChainName.other _) = Gives-err _

  has_contract : (b : Bool) → not b ≡ false → b ≡ true
  has_contract b e = ground (arith, e)

  no_contract : (b : Bool) → not b ≡ true → b ≡ false
  no_contract b e = ground (arith, e)

  token_info_of-Returns :
      (chain : ExternalChainName) (address : String)
      → Returns {S = Unit {0}} h
          (Read h.token_info (get_contract_token_info (h.text_of_chain chain) address))
          (token_info_of chain address)
  unfolding token_info_of
  token_info_of-Returns chain address =
      Returns-with_host
        (λ g. ask (λ k. k.token_info) (get_contract_token_info (g.text_of_chain chain) address))
        (Returns-asked (λ k. k.token_info)
          (get_contract_token_info (h.text_of_chain chain) address))

  main_part :
      (from : ExternalTransDetail)
      → not (truthy from.contract_address) ≡ true
      → Returns {S = Unit {0}} h (IsAsset h from) (lift (main_asset h from.chain_name))
  main_part from n = record {
    at = λ w.
        (Gives-map (main_asset h from.chain_name) (λ a m. of_main a (no_contract _ n) m)
          (main_asset-IsMain from.chain_name)).value;
  }

  token_part :
      (from : ExternalTransDetail)
      → not (truthy from.contract_address) ≡ false
      → Returns {S = Unit {0}} h (IsAsset h from) (
          token_info_of from.chain_name (text_or_empty from.contract_address) >>= λ info.
          pure (info.symbol, info.decimals))
  token_part from y =
      Returns-after (Read h.token_info (token_call h from))
        (token_info_of from.chain_name (text_or_empty from.contract_address)) _
        (token_info_of-Returns from.chain_name (text_or_empty from.contract_address))
        (λ info r. Returns-pure _ (of_token info (has_contract _ y) r))

  symbol_of-Returns : (from : ExternalTransDetail) → Returns h (IsAsset h from) (symbol_of from)
  unfolding symbol_of
  symbol_of-Returns from = search (Returns-with_host, Returns-if, main_part, token_part) depth 10

  -- What follows may rest on it.
  pub Returns-asset :
      {B : Type 0} {Q : B → Type 0} (from : ExternalTransDetail) (f : String × ℕ → Service B)
      → ((asset : String × ℕ) → IsAsset h from asset → Returns h Q (f asset))
      → Returns h Q (symbol_of from >>= f)
  Returns-asset from f k =
      Returns-after (IsAsset h from) (symbol_of from) f (symbol_of-Returns from) k
