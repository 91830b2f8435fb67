-- ===== src/ConfigUpgrade.antt =====
-- packages/server/src/config/config-upgrade.helper.ts: the static configuration is brought to the
-- latest version when a process starts. The state is `staticConfig` and what has been written of it
-- to its file, the latest first.
pub mod Versions
use cot_server.Base.{
  ℕ, String, Bool, true, false, Option, none, some, List, [], ◌∷◌, ltb, str_eq, if◌then◌else◌,
}
use cot_server.Host.{Error, upgrade_method_missing, Result, ok, err}

-- `ports`; `trans` is the old name of `business`.
pub record Ports : Type 0 where
  pub web : Option ℕ
  pub global : Option ℕ
  pub business : Option ℕ
  pub order : Option ℕ
  pub trans : Option ℕ

-- The parts of the static configuration that the upgrade reads or writes. `core_num` is
-- `coreForProcess.coreNumForWebServer`, `wallet` has an address and a port.
pub record StaticConfig : Type 0 where
  pub version : Option ℕ
  pub core_num : Option ℕ
  pub wallet : Option (String × ℕ)
  pub ports : Ports

pub record VersionArray : Type 0 where
  pub version : ℕ
  pub method : String

pub record Upgrade : Type 0 where
  pub static_config : StaticConfig
  pub written : List StaticConfig

-- `__versionsArray`
unfoldable pub versions_array : List VersionArray
versions_array =
    record { version = 1; method = "initConfig" }
    ∷ record { version = 2; method = "updateConfigHost" }
    ∷ record { version = 3; method = "independenceWallet" }
    ∷ []

-- `a ?? b`
or_else : Option ℕ → Option ℕ → Option ℕ
or_else none b = b
or_else (some a) b = some a

-- initConfig and updateConfigHost, whose bodies are empty.
unfoldable pub init_config : StaticConfig → StaticConfig
init_config c = c

unfoldable pub update_config_host : StaticConfig → StaticConfig
update_config_host c = c

-- independenceWallet
unfoldable pub independence_wallet : StaticConfig → StaticConfig
unfolding or_else
independence_wallet c = record c {
  core_num = some 3;
  wallet = some ("localhost", 6055);
  ports = record {
    web = c.ports.web;
    global = c.ports.global;
    business = or_else c.ports.trans c.ports.business;
    order = some 5059;
    trans = none;
  };
}

-- `this[method]`
unfoldable pub method_of : String → Option (StaticConfig → StaticConfig)
unfolding init_config update_config_host independence_wallet
method_of name =
    if str_eq name "initConfig"
    then some init_config
    else if str_eq name "updateConfigHost"
    then some update_config_host
    else if str_eq name "independenceWallet"
    then some independence_wallet
    else none

-- `version === undefined || version < versionInfo.version`
unfoldable pub is_older : Option ℕ → ℕ → Bool
is_older none latest = true
is_older (some version) latest = ltb version latest

-- What is done for one version: its method, the new version number, and the write of the file.
unfoldable pub upgrade_to :
    ℕ → Option (StaticConfig → StaticConfig) → Upgrade → Result (Unit {0}) × Upgrade
upgrade_to latest none u = (err upgrade_method_missing, u)
upgrade_to latest (some method) u =
    let config : StaticConfig = record (method u.static_config) { version = some latest } in
    (ok tt, record { static_config = config; written = config ∷ u.written })

-- The rest of the loop, unless a method was missing.
unfoldable pub unless_thrown :
    Result (Unit {0}) × Upgrade
    → (Upgrade → Result (Unit {0}) × Upgrade)
    → Result (Unit {0}) × Upgrade
unless_thrown (ok _, u) rest = rest u
unless_thrown (err e, u) rest = (err e, u)

-- The loop of upgrade; `version` is its local variable.
unfoldable pub upgrade_loop :
    (String → Option (StaticConfig → StaticConfig))
    → List VersionArray
    → Option ℕ
    → Upgrade
    → Result (Unit {0}) × Upgrade
unfolding is_older upgrade_to unless_thrown
upgrade_loop methods [] version u = (ok tt, u)
upgrade_loop methods (v ∷ rest) version u = elim (is_older version v.version) [
  | true ↦
      unless_thrown (upgrade_to v.version (methods v.method) u)
        (upgrade_loop methods rest (some v.version))
  | false ↦ upgrade_loop methods rest version u
]

-- upgrade
unfoldable pub upgrade : Upgrade → Result (Unit {0}) × Upgrade
unfolding upgrade_loop versions_array method_of
upgrade u = upgrade_loop method_of versions_array u.static_config.version u
