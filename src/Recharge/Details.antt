-- ===== src/Recharge/Details.antt =====
-- What is known of the detail of a deposit once it has been read, and once it has been verified.
use cot_server.Base.{
  ℕ, String, Option, some, subst, ◌≡◌, ◌⊎◌, inl, inr, Bool, true, false, not, arith,
}
use cot_server.Model.Wallet.{FromTrJson, ExternalTransDetail}
use cot_server.Model.Config.{RechargeItem, RechargeObject}
use cot_server.Model.Recharge.{ToTrInfo, TransDetail}
use cot_server.Host.{Host, ok, get_recharge_config}
use cot_server.OrderHelper.Sent.{IsSent, IsSentIf, Returns-sent}
use cot_server.Host.Reads.{Read, Returns-Read}
use cot_server.Recharge.Assets.{IsAsset, Returns-asset}
use cot_server.Recharge.Checks.{IsDeposit, verify_recharge_trans_detail-IsDeposit}
use cot_server.Host.Returns.{
  Returns, returns, Returns-with_host, Returns-not_thrown, Returns-found, Returns-pure, Returns-if,
  Returns-always, Returns-checked, Returns-after,
}
use cot_server.Recharge.Helper.{
  is_recharge_dev_test, check_chain_asset_item, verify_recharge_trans_detail,
}
use cot_server.Recharge.Deposit.{
  dev_detail, get_recharge_trans_detail, verify_recharge_param, verify_balance, read_detail,
}

-- The receiver's asset is configured and open in the configuration that was read, the deposit is what
-- the wallet has answered for the request's transaction, on a chain that is open there, and the
-- amount to be paid is the deposit's amount, converted with the decimals of its asset.
pub record IsConverted (h : Host) (from_tr_json : FromTrJson) (to : ToTrInfo) (d : TransDetail)
    : Type 0 where
  pub recharge : RechargeObject
  pub config_read : Read h.config get_recharge_config recharge
  pub item : RechargeItem
  pub configured : check_chain_asset_item recharge to.chain_name to.asset_type ≡ ok item
  pub enabled : item.enable ≡ true
  pub sent : IsSent h from_tr_json item.support_chain d.from_detail
  pub asset : String × ℕ
  pub priced : IsAsset h d.from_detail asset
  pub symbol : d.from_asset_symbol ≡ asset.0
  pub decimals : d.from_decimals ≡ asset.1
  pub amount : h.decimal_to_bcf d.from_decimals d.from_detail.amount ≡ ok d.to_amount

-- The detail of a request for the receiver `to`; a development process may make the deposit up.
pub record IsDetail (h : Host) (from_tr_json : FromTrJson) (to : ToTrInfo) (d : TransDetail)
    : Type 0 where
  pub receiver : d.to_detail ≡ to
  pub converted : (h.is_dev ≡ true) ⊎ IsConverted h from_tr_json to d

-- A deposit that the configuration takes that was read for the check.
pub record IsVerified (h : Host) (d : TransDetail) : Type 0 where
  pub config : RechargeObject
  pub config_read : Read h.config get_recharge_config config
  pub verified : IsDeposit h d config

is_dev_if : (h : Host) → not h.is_dev ≡ false → (b : Bool) → b ≡ true → h.is_dev ≡ true
is_dev_if h e b _ = ground (arith, e)

no_dev : (h : Host) → false ≡ true → h.is_dev ≡ true
no_dev h e = ground (arith, e)

dev_test-Returns :
    (h : Host) → Returns {S = Unit {0}} h (λ b. b ≡ true → h.is_dev ≡ true) is_recharge_dev_test
unfolding is_recharge_dev_test
dev_test-Returns h = search (returns, is_dev_if, no_dev) depth 20

made_up-IsDetail :
    (h : Host) (from_tr_json : FromTrJson) (to : ToTrInfo) (d : TransDetail)
    → d.to_detail ≡ to
    → h.is_dev ≡ true
    → IsDetail h from_tr_json to d
made_up-IsDetail h from_tr_json to d r e = record { receiver = r; converted = inl e }

dev_detail-Returns :
    (h : Host) (from_tr_json : FromTrJson) (to : ToTrInfo)
    → h.is_dev ≡ true
    → Returns h (IsDetail h from_tr_json to) (dev_detail to)
unfolding dev_detail
dev_detail-Returns h from_tr_json to e = search (returns, made_up-IsDetail, e) depth 20

converted-IsDetail :
    (h : Host) (from_tr_json : FromTrJson) (to : ToTrInfo) (d : TransDetail)
    (recharge : RechargeObject) (item : RechargeItem) (found : Option ExternalTransDetail)
    (asset : String × ℕ)
    → Read h.config get_recharge_config recharge
    → d.to_detail ≡ to
    → check_chain_asset_item recharge to.chain_name to.asset_type ≡ ok item
    → not item.enable ≡ false
    → IsSentIf h from_tr_json item.support_chain found
    → found ≡ some d.from_detail
    → IsAsset h d.from_detail asset
    → d.from_asset_symbol ≡ asset.0
    → d.from_decimals ≡ asset.1
    → h.decimal_to_bcf d.from_decimals d.from_detail.amount ≡ ok d.to_amount
    → IsDetail h from_tr_json to d
converted-IsDetail h from_tr_json to d recharge item found asset k r c e t f s p q a = record {
  receiver = r;
  converted = inr (record {
    recharge = recharge;
    config_read = k;
    item = item;
    configured = c;
    enabled = ground (arith, e);
    asset = asset;
    priced = s;
    symbol = p;
    decimals = q;
    sent = subst (IsSentIf h from_tr_json item.support_chain) f t;
    amount = a;
  });
}

read_detail-Returns :
    (h : Host) (from_tr_json : FromTrJson) (to : ToTrInfo)
    → Returns h (IsDetail h from_tr_json to) (read_detail from_tr_json to)
unfolding read_detail
read_detail-Returns h from_tr_json to =
    search
      (
        Returns-with_host, Returns-Read, Returns-checked, Returns-not_thrown, Returns-sent,
        Returns-found, Returns-asset, Returns-pure, converted-IsDetail,
      )
      depth 30 fits 50000

pub get_recharge_trans_detail-Returns :
    (h : Host) (from_tr_json : FromTrJson) (to : ToTrInfo)
    → Returns h (IsDetail h from_tr_json to) (get_recharge_trans_detail from_tr_json to)
unfolding get_recharge_trans_detail
get_recharge_trans_detail-Returns h from_tr_json to =
    Returns-after (λ b. b ≡ true → h.is_dev ≡ true) is_recharge_dev_test _ (dev_test-Returns h)
      (λ b k.
        Returns-if b _ _ (λ e. dev_detail-Returns h from_tr_json to (k e))
          (λ _. read_detail-Returns h from_tr_json to))

verified :
    (h : Host) (d : TransDetail) (config : RechargeObject) (u : Unit {0})
    → Read h.config get_recharge_config config
    → verify_recharge_trans_detail h d config ≡ ok u
    → IsVerified h d
verified h d config u r e = record {
  config = config;
  config_read = r;
  verified = (verify_recharge_trans_detail-IsDeposit h d config).0 e;
}

verify_balance-Returns :
    (h : Host) (d : TransDetail)
    → IsVerified h d
    → Returns h (λ _. IsVerified h d) (verify_balance d)
verify_balance-Returns h d v = Returns-always (verify_balance d) (λ _. v)

pub verify_recharge_param-Returns :
    (h : Host) (d : TransDetail) → Returns h (λ _. IsVerified h d) (verify_recharge_param d)
unfolding verify_recharge_param
verify_recharge_param-Returns h d =
    search (Returns-Read, Returns-checked, returns, verify_balance-Returns, verified) depth 20
