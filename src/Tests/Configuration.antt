-- ===== src/Tests/Configuration.antt =====
-- Examples for the configurations and their checks.
use cot_server.Base.{◌≡◌, refl, ◌↔◌, true, none, some, []}
use cot_server.Model.Value.{
  Value, undefined, bool, text, object, field, no_more, entries, property, is_boolean, truthy_value,
}
use cot_server.Host.{ok, alone}
use cot_server.Host.Keeps.{CallsOnly}
use cot_server.Host.Returns.{Returns}
use cot_server.ConfigUpgrade.{Upgrade, versions_array, method_of, upgrade}
use cot_server.ConfigUpgrade.Versions.{due, run_all, upgrade-run_all}
use cot_server.Settings.{install_config, set_recharge, start_config}
use cot_server.Settings.Saved.{SavesSame, set_recharge-SavesSame}
use cot_server.Recharge.Pool.{pool_item}
use cot_server.Recharge.Pool.Sums.{IsPool, pool_item-IsPool}
use cot_server.Validator.{recharge_class_verify}
use cot_server.Validator.Items.{IsConfig}
use cot_server.Validator.Accepted.{recharge_class_verify-IsConfig}
use cot_server.Tests.Data.{example_host, config, usdm_item}

abbrev first_version : Upgrade
first_version = record {
  static_config = record {
    version = some 1;
    core_num = none;
    wallet = none;
    ports = record { web = some 1; global = some 2; business = none; order = none; trans = some 4 };
  };
  written = [];
}

upgrade-run_all_example :
    (upgrade first_version
      ≡ run_all method_of (due first_version.static_config.version versions_array) first_version)
    × ((upgrade first_version).0 ≡ ok tt)
    × (upgrade (upgrade first_version).1 ≡ (ok tt, (upgrade first_version).1))
upgrade-run_all_example = upgrade-run_all first_version

-- The old port `trans` becomes `business`.
renamed_port : (upgrade first_version).1.static_config.ports.business ≡ some 4
unfolding upgrade
renamed_port = refl

set_recharge-SavesSame_example :
    CallsOnly example_host (SavesSame config) (install_config config)
    × CallsOnly example_host (SavesSame config) (set_recharge config)
    × CallsOnly example_host (SavesSame config) (start_config config)
set_recharge-SavesSame_example = set_recharge-SavesSame example_host config

pool_item-IsPool_example :
    Returns example_host (IsPool example_host usdm_item) (pool_item usdm_item)
pool_item-IsPool_example = pool_item-IsPool example_host usdm_item

-- A configuration with one asset, for deposits on BSC.
abbrev sent_config : Value
sent_config = object (
    field "PMChain"
      (object (
        field "USDM"
          (object (
            field "enable" (bool true) (
              field "applyAddress" (text "cApply") (
                field "supportChain"
                  (object (
                    field "BSC"
                      (object
                        (field "enable" (bool true) (field "depositAddress" (text "0xd0") no_more)))
                      no_more))
                  no_more))))
          no_more))
      no_more)

accepted : (recharge_class_verify sent_config example_host (alone tt [])).0 ≡ ok true
unfolding recharge_class_verify entries property is_boolean truthy_value
accepted = refl

-- What is checked in setRecharge is `undefined`, and `undefined` is accepted.
undefined_accepted : (recharge_class_verify undefined example_host (alone tt [])).0 ≡ ok true
unfolding recharge_class_verify entries
undefined_accepted = refl

recharge_class_verify-IsConfig_example :
    ((recharge_class_verify sent_config example_host (alone tt [])).0 ≡ ok true)
    ↔ IsConfig example_host (λ _. true) sent_config
recharge_class_verify-IsConfig_example =
    recharge_class_verify-IsConfig example_host (λ _. true) (λ _ _. refl) sent_config (alone tt [])
