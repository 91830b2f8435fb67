-- ===== src/Tests/Data.antt =====
-- A host that answers every call in the same way, a configuration, and orders.
use cot_server.Base.{leb, ◌*◌, length, String, true, false, none, some, [], ◌∷◌, str_eq}
use cot_server.Base.BigInt.{pos}
use cot_server.Model.Chain.{bsc, tron, pmchain, TransactionLinkType}
use cot_server.Model.Wallet.{
  ExternalTransDetail, FromTrJson, TransactionBase, WalletAccount, RedemptionTr,
}
use cot_server.Model.Config.{ExternalAssetInfoItem, RechargeItem, RechargeObject}
use cot_server.Model.Recharge.{
  RechargeOrder, RechargeOrderStateId, ToTrInfo, TransDetail, issue, SignatureInfo,
}
use cot_server.Model.Redemption.{RedemptionOrder, RedemptionOrderStateId, destroy}
use cot_server.Model.User.{UserStatus, UserRole, UserEntity}
use cot_server.Model.Admin.{Authorization}
use cot_server.Host.{Host, ok}
use cot_server.Memory.{RwKeypairs}
use cot_server.GlobalValue.{ExternalAccounts}
use cot_server.Recharge.Order.Obj.{RechargeOrderObj}
use cot_server.Redemption.Order.Obj.{RedemptionOrderObj}

-- BSC is open with a token, the other chains are not supported.
abbrev pub bsc_support : ExternalAssetInfoItem
bsc_support = record {
  enable = true;
  contract = some "0xc0";
  deposit_address = "0xd0";
  asset_type = "USDT";
  logo = none;
}

abbrev pub usdm_item : RechargeItem
usdm_item = record {
  enable = true;
  chain_name = pmchain;
  asset_type = "USDM";
  apply_address = "cApply";
  support_chain = record { eth_item = none; bsc_item = some bsc_support; tron_item = none };
  redemption = record {
    enable = true;
    min = pos 1000;
    max = pos 2000000;
    fee = λ _. some "100";
    radio_fee = "0.003";
  };
  logo = none;
}

abbrev pub config : RechargeObject
config = (pmchain, ("USDM", usdm_item) ∷ []) ∷ []

abbrev pub deposit : ExternalTransDetail
deposit = record {
  chain_name = bsc;
  from = "0xf0";
  to = "0xd0";
  amount = "5000";
  contract_address = some "0xc0";
  tx_hash = "0xhash";
}

abbrev pub receiver : ToTrInfo
receiver = record {
  chain_name = pmchain;
  address = "cReceiver";
  asset_type = "USDM";
  timestamp = 1000;
}

abbrev pub from_tr_json : FromTrJson
from_tr_json = record { eth = none; bsc = some "0xsigned"; tron = none; trc20 = none }

abbrev pub recharge_detail : TransDetail
recharge_detail = record {
  from_detail = deposit;
  to_detail = receiver;
  from_asset_symbol = "USDT";
  from_decimals = 18;
  to_amount = pos 5000;
}

abbrev pub recharge_row : RechargeOrder
recharge_row = record {
  entity_id = "r1";
  state = RechargeOrderStateId.internal_wait_on_chain;
  wallet_address = some "0xf0";
  wallet_chain = some bsc;
  wallet_tx_id = "w1";
  wallet_amount = some "5000";
  wallet_asset = some "USDT";
  wallet_decimals = some 18;
  contract_address = some "0xc0";
  internal_chain = pmchain;
  internal_address = "cReceiver";
  recharge_tx_id = "t1";
  recharge_amount = pos 5000;
  recharge_tx_on_chain = false;
  recharge_asset_type = "USDM";
  recharge_type = issue;
}

abbrev pub recharge_obj : RechargeOrderObj
recharge_obj = record {
  entity = recharge_row;
  cur_state_id = RechargeOrderStateId.internal_wait_on_chain;
  create_from_tx_obj_success = true;
  retry_recharge_tx_stamp = none;
  retry_recharge_tx_num = 0;
}

-- The order with no transfer under way.
abbrev pub due_obj : RechargeOrderObj
due_obj = record recharge_obj { entity = record recharge_row { recharge_tx_id = "r1" } }

abbrev pub redemption_row : RedemptionOrder
redemption_row = record {
  entity_id = "d1";
  state = RedemptionOrderStateId.external_wait_on_chain;
  internal_chain = pmchain;
  internal_address = "cSender";
  redemption_tx_id = "i1";
  redemption_amount = pos 50000;
  redemption_asset_type = "USDM";
  redemption_ratio = "0.003";
  redemption_fee = pos 100;
  wallet_address = "0xPayee";
  wallet_chain = bsc;
  wallet_tx_id = "x1";
  contract_address = some "0xc0";
  wallet_amount = "49750";
  wallet_asset = "USDT";
  redemption_type = destroy;
}

abbrev pub redemption_obj : RedemptionOrderObj
redemption_obj = record {
  entity = redemption_row;
  cur_state_id = RedemptionOrderStateId.external_wait_on_chain;
  create_from_tx_obj_success = true;
  retry_to_tx_stamp = none;
  retry_to_tx_num = 0;
}

-- The redemption order with no payout under way.
abbrev pub unpaid_obj : RedemptionOrderObj
unpaid_obj = record redemption_obj { entity = record redemption_row { wallet_tx_id = "d1" } }

-- A report of the transaction `id`.
abbrev pub report : String → TransactionBase
report id = record { entity_id = id; link_type = TransactionLinkType.other; link_id = "" }

abbrev pub keypairs : RwKeypairs
keypairs = ("rechargev2", record { secret = "s"; keypair = "k" }) ∷ []

-- The keypair that issues USDM.
abbrev pub issuers : RwKeypairs
issuers = ("RECHARGEV2_ACCOUNT_PMChain_USDM", record { secret = "s"; keypair = "k" }) ∷ []

abbrev pub account : WalletAccount
account = record { secret = "s"; address = "0xd0"; private_key = "p"; public_key = "q" }

abbrev pub accounts : ExternalAccounts
accounts = (bsc, ("USDT", account) ∷ []) ∷ []

abbrev pub redemption_tr : RedemptionTr
redemption_tr = record {
  bcf = some (record {
    chain_name = pmchain;
    tr_json = record {
      body = "{}";
      remark = record { chain_name = some bsc; address = some "0xPayee"; asset_type = some "USDT" };
    };
  });
}

abbrev pub signature : SignatureInfo
signature = record { signature = "sig"; public_key = "pk"; timestamp = 900 }

abbrev pub user : UserEntity
user = record {
  login_name = "u";
  password = "p";
  nick_name = "n";
  login_time = some 0;
  status = UserStatus.start;
  role = UserRole.admin;
}

abbrev pub example_host : Host
example_host = record {
  done = λ _. ok tt;
  flag = λ _. ok true;
  number = λ _. ok 1000;
  text = λ _. ok "5000";
  optional_text = λ _. ok none;
  config = λ _. ok config;
  optional_config = λ _. ok (some config);
  token_info = λ _. ok (record { symbol = "USDT"; decimals = 18; icon = "" });
  contract_balance = λ _. ok (record { decimal = 18; balance = "7000" });
  asset_details = λ _.
      ok (record { issued_asset_prealnum = "90"; remain_asset_prealnum = "40"; icon_url = "i" });
  trans_detail = λ _. ok deposit;
  trans_info =
      λ _. ok (record { is_success = true; tx_hash = "0x"; fail_reason = none; fee = "1" });
  transaction = λ _.
      ok (record {
        entity_id = "t1";
        link_type = TransactionLinkType.recharge_order;
        link_id = "r1";
      });
  account_addresses = λ _. ok [];
  address_obj = λ _. ok ((bsc, ("USDT", "0xd") ∷ []) ∷ []);
  account = λ _. ok account;
  recharge_row = λ _. ok none;
  recharge_rows = λ _. ok [];
  redemption_row = λ _. ok none;
  redemption_rows = λ _. ok [];
  recharge_row_force = λ _. ok recharge_row;
  redemption_row_force = λ _. ok redemption_row;
  user_row_force = λ _. ok user;
  user_row = λ _. ok none;
  operate_rows = λ _. ok [];
  same_lower_case = λ a b. str_eq a b;
  is_eth_address = λ _. true;
  is_tron_address = λ _. false;
  is_eth_address_value = λ _. true;
  is_tron_address_value = λ _. false;
  is_internal_chain_name = λ name. str_eq name "PMChain";
  is_internal_asset_type = λ name. str_eq name "USDM";
  is_valid_number = λ text. true;
  locale_leq = λ a b. leb (Prim.Native.String.count a) (Prim.Native.String.count b);
  bioforest_chain = "BIOFOREST";
  is_valid_sha256 = λ _. true;
  decimal_to_bcf = λ _ _. ok (pos 5000);
  decimal_to_contract = λ _ z. ok z;
  chain_keys = λ _. tron ∷ bsc ∷ [];
  number_quotient = λ _ _. "0.003";
  to_fraction = λ _. ok (record { numerator = "3"; denominator = "1000" });
  auth_to_json = λ i. i.token;
  auth_of_json = λ t.
      ok (Authorization.info (record { login_name = "u"; expired_time = 604801000; token = t }));
  fix_to_json = λ _. "{}";
  text_to_json = λ t. t;
  all_recharge_records = λ _. ok [];
  destroy_detail = λ chain _. record {
    chain_name = chain;
    from = "cSender";
    to = "cApply";
    amount = "50000";
    asset_type = "USDM";
  };
  text_of_chain = λ _. "BSC";
  text_of_internal_chain = λ _. "PMChain";
  internal_retry_max = 3;
  external_retry_max = 3;
  internal_retry_interval = 60000;
  external_retry_interval = 60000;
  asset_pmc = "PMC";
  asset_biw = "BIW";
  asset_bnb = "BNB";
  asset_eth = "ETH";
  asset_trx = "TRX";
  bcf_default_decimals = 8;
  is_dev = false;
  is_order_worker = true;
  version = "1";
}

-- The clock goes on by 20 seconds with each call.
abbrev pub clock_host : Host
clock_host = record example_host { number = λ c. ok (20000 * length c) }
