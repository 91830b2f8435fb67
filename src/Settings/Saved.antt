-- ===== src/Settings/Saved.antt =====
-- Which configurations are saved.
use cot_server.Base.{String, true, not, some}
use cot_server.Model.Chain.{ExternalChainName, InternalChainName}
use cot_server.Model.Config.{ExternalAssetInfoItem, RechargeItem, RechargeObject}
use cot_server.Host.{
  Host, pure, ask, get_asset_details, save_config, Call, call, validate_config,
  config_validate_error, ◌>>◌, catch_with, ask_now,
}
use cot_server.Host.Keeps.{
  CallsOnly, calls_only, CallsOnly-not_thrown, CallsOnly-bind, CallsOnly-ask, CallsOnly-pure,
}
use cot_server.Host.Returns.{CallsOnly-after}
use cot_server.Settings.{
  each_chain, each_item, with_token, with_address, complete_external, complete_item, name_external,
  name_item, start_item, install_config, start_config, set_recharge,
}
use cot_server.GlobalValue.Accounts.{KeyCall}
use cot_server.Settings.Starts.{with_address-Only, start_item-Only}
use cot_server.Settings.Traversals.{each_chain-CallsOnly, each_item-CallsOnly}
use cot_server.Settings.Items.{complete_item-Same, name_item-Same, start_item-Same}
use cot_server.Settings.Kept.{SameConfig, each_item-Same}

-- A saved configuration is the given one, completed; other calls are not looked at.
abbrev pub SavesSame : RechargeObject → Call → Type 0
SavesSame config (save_config c) = SameConfig config c
SavesSame config _ = Unit

keys_save_nothing : (config : RechargeObject) (c : Call) → KeyCall c → SavesSame config c
keys_save_nothing config (save_config c) k = absurd k
keys_save_nothing config _ k = tt

module _ (h : Host) (config : RechargeObject) where
  with_address-SavesSame :
      (c : ExternalChainName) (x : ExternalAssetInfoItem)
      → CallsOnly h (SavesSame config) (with_address c x)
  with_address-SavesSame =
      with_address-Only h (SavesSame config) (keys_save_nothing config) (λ _. tt)

  complete_external-SavesSame :
      (c : ExternalChainName) (x : ExternalAssetInfoItem)
      → CallsOnly h (SavesSame config) (complete_external c x)
  unfolding complete_external with_token
  complete_external-SavesSame c x = search (calls_only, with_address-SavesSame) depth 20

  name_external-SavesSame :
      (c : InternalChainName) (x : ExternalAssetInfoItem)
      → CallsOnly h (SavesSame config) (name_external c x)
  unfolding name_external
  name_external-SavesSame c x = search (calls_only) depth 20

  complete_item-SavesSame :
      (c : InternalChainName) (a : String) (x : RechargeItem)
      → CallsOnly h (SavesSame config) (complete_item c a x)
  unfolding complete_item
  complete_item-SavesSame c a x =
      let chains =
        each_chain-CallsOnly h (SavesSame config) complete_external complete_external-SavesSame
          x.support_chain in
      CallsOnly-bind (ask (λ k. k.asset_details) (get_asset_details c a)) _
        (CallsOnly-ask (λ k. k.asset_details) (get_asset_details c a) tt)
        (λ info.
          CallsOnly-bind (each_chain complete_external x.support_chain)
            (λ y. pure (record x { logo = some info.icon_url; support_chain = y })) chains
            (λ y. CallsOnly-pure _))

  name_item-SavesSame :
      (c : InternalChainName) (a : String) (x : RechargeItem)
      → CallsOnly h (SavesSame config) (name_item c a x)
  unfolding name_item
  name_item-SavesSame c a x =
      let chains =
        each_chain-CallsOnly h (SavesSame config) (λ _. name_external c)
          (λ _. name_external-SavesSame c) x.support_chain in
      search (calls_only, chains) depth 20

  start_item-SavesSame :
      (c : InternalChainName) (a : String) (x : RechargeItem)
      → CallsOnly h (SavesSame config) (start_item c a x)
  start_item-SavesSame = start_item-Only h (SavesSame config) (keys_save_nothing config) (λ _. tt)

  -- setConfig, setRecharge and the start of the order process save nothing but the configuration
  -- that they are given, completed: the same chains and assets, with the same switches, addresses of
  -- the platform, contracts and conditions of redemption; an external asset without a contract keeps
  -- its name.
  pub set_recharge-SavesSame :
      CallsOnly h (SavesSame config) (install_config config)
      × CallsOnly h (SavesSame config) (set_recharge config)
      × CallsOnly h (SavesSame config) (start_config config)
  unfolding install_config set_recharge start_config
  set_recharge-SavesSame =
      let completed =
        each_item-CallsOnly h (SavesSame config) complete_item complete_item-SavesSame config in
      let named = each_item-CallsOnly h (SavesSame config) name_item name_item-SavesSame config in
      let saved =
        CallsOnly-after (SameConfig config) (each_item complete_item config)
          (λ c. call (save_config c) >> pure true) completed
          (each_item-Same h complete_item (complete_item-Same h) config)
          (λ c p. search (calls_only, p) depth 10) in
      let written =
        CallsOnly-after (SameConfig config) (each_item name_item config) (λ c. call (save_config c))
          named (each_item-Same h name_item (name_item-Same h) config)
          (λ c p. search (calls_only, p) depth 10) in
      (
        CallsOnly-bind (ask (λ k. k.flag) (validate_config config)) _
            (CallsOnly-ask (λ k. k.flag) (validate_config config) tt)
            (λ valid. CallsOnly-not_thrown (not valid) config_validate_error _ (λ _. saved)),
        CallsOnly-bind (ask (λ k. k.flag) (validate_config config)) _
            (CallsOnly-ask (λ k. k.flag) (validate_config config) tt)
            (λ valid. CallsOnly-not_thrown (not valid) config_validate_error _ (λ _. written)),
        CallsOnly-after (SameConfig config) (each_item start_item config)
            (λ c. catch_with (ask_now (λ k. k.done) (save_config c)) tt)
            (each_item-CallsOnly h (SavesSame config) start_item start_item-SavesSame config)
            (each_item-Same h start_item (start_item-Same h) config)
            (λ c p. search (calls_only, p) depth 10),
      )
