-- ===== src/Settings/Starts.antt =====
-- The calls that set the addresses for deposits, at the start of the order process.
use cot_server.Base.{String}
use cot_server.Model.Chain.{ExternalChainName, InternalChainName, eth, bsc, tron}
use cot_server.Model.Config.{ExternalAssetInfoItem, RechargeItem}
use cot_server.Host.{Host, Call, address_to_hex}
use cot_server.Host.Keeps.{CallsOnly, calls_only, CallsOnly-map}
use cot_server.GlobalValue.{init_external_account}
use cot_server.GlobalValue.Accounts.{KeyCall, init_external_account-KeyCall}
use cot_server.Settings.{with_address, shown_address, start_item}
use cot_server.Settings.Traversals.{if_there-CallsOnly}

-- `P` holds for the calls of the keys and for the other form of an address.
module _ (h : Host) (P : Call → Type 0) (keys : (c : Call) → KeyCall c → P c)
    (hex : (address : String) → P (address_to_hex address)) where
  account-Only : (c : ExternalChainName) (a : String) → CallsOnly h P (init_external_account c a)
  account-Only c a =
      CallsOnly-map (init_external_account c a) keys (init_external_account-KeyCall h c a)

  pub with_address-Only :
      (c : ExternalChainName) (x : ExternalAssetInfoItem) → CallsOnly h P (with_address c x)
  unfolding with_address shown_address
  with_address-Only c x = search (calls_only, account-Only, hex) depth 20

  pub start_item-Only :
      (c : InternalChainName) (a : String) (x : RechargeItem) → CallsOnly h P (start_item c a x)
  unfolding start_item
  start_item-Only c a x =
      let on_bsc =
        if_there-CallsOnly h P (with_address bsc) (with_address-Only bsc)
          x.support_chain.bsc_item in
      let on_eth =
        if_there-CallsOnly h P (with_address eth) (with_address-Only eth)
          x.support_chain.eth_item in
      let on_tron =
        if_there-CallsOnly h P (with_address tron) (with_address-Only tron)
          x.support_chain.tron_item in
      search (calls_only, on_bsc, on_eth, on_tron) depth 20
