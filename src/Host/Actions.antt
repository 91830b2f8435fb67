-- ===== src/Host/Actions.antt =====
-- The host and the monad of methods.
use cot_server.Base.{ℕ, String, Bool, true, false, Option, none, some, List, ◌∷◌, if◌then◌else◌}
use cot_server.Base.BigInt.{ℤ}
use cot_server.Model.Chain.{InternalChainName, ExternalChainName}
use cot_server.Model.Wallet.{
  ExternalTransDetail, InternalTransDetail, DestroyAssetTransaction, TokenInfo, ContractBalance,
  AssetDetails, Fraction, WalletAccount, AddressObj, TransactionBase,
}
use cot_server.Model.Config.{RechargeObject, SupportChain}
use cot_server.Model.Value.{Value}
use cot_server.Model.Recharge.{RechargeOrder, RechargeRecord}
use cot_server.Model.Redemption.{RedemptionOrder}
use cot_server.Model.User.{UserEntity, OperateRecordEntity}
use cot_server.Model.Admin.{AdminAuthInfo, Authorization, FixOrderReq}
use cot_server.Host.Errors.{Error, Result, ok, err}
use cot_server.Host.Calls.{Call}

-- The calls so far, the latest first. An answer is a function of them, the call itself included.
abbrev pub History : Type 0
History = List Call

-- `getExternalTrans` and `getInternalTrans`, as far as the order details read them.
pub record TransInfo : Type 0 where
  pub is_success : Bool
  pub tx_hash : String
  pub fail_reason : Option String
  pub fee : String

pub record Host : Type 0 where
  -- answers of services
  pub done : History → Result (Unit {0})
  pub flag : History → Result Bool
  pub number : History → Result ℕ
  pub text : History → Result String
  pub optional_text : History → Result (Option String)
  pub config : History → Result RechargeObject
  pub optional_config : History → Result (Option RechargeObject)
  pub token_info : History → Result TokenInfo
  pub contract_balance : History → Result ContractBalance
  pub asset_details : History → Result AssetDetails
  pub trans_detail : History → Result ExternalTransDetail
  pub trans_info : History → Result TransInfo
  pub transaction : History → Result TransactionBase
  pub account : History → Result WalletAccount
  pub address_obj : History → Result AddressObj
  pub account_addresses : History → Result (List (String × String))
  pub recharge_row : History → Result (Option RechargeOrder)
  pub recharge_rows : History → Result (List RechargeOrder)
  pub redemption_row : History → Result (Option RedemptionOrder)
  pub redemption_rows : History → Result (List RedemptionOrder)
  -- findOneByForce throws when there is no such row
  pub recharge_row_force : History → Result RechargeOrder
  pub redemption_row_force : History → Result RedemptionOrder
  pub user_row_force : History → Result UserEntity
  pub user_row : History → Result (Option UserEntity)
  pub operate_rows : History → Result (List OperateRecordEntity)
  -- pure functions of the wallet SDK
  pub same_lower_case : String → String → Bool
  pub is_eth_address : String → Bool
  pub is_tron_address : String → Bool
  -- the same tests of a value, and whether the enumerations have a name
  pub is_eth_address_value : Value → Bool
  pub is_tron_address_value : Value → Bool
  pub is_internal_chain_name : String → Bool
  pub is_internal_asset_type : String → Bool
  -- isNumber of class-validator, for a number as it is printed
  pub is_valid_number : String → Bool
  pub is_valid_sha256 : String → Bool
  -- `a.localeCompare(b) <= 0`
  pub locale_leq : String → String → Bool
  pub decimal_to_bcf : ℕ → String → Result ℤ
  pub decimal_to_contract : ℕ → ℤ → Result ℤ
  -- `Number(a) / Number(b)`, as it is printed
  pub number_quotient : String → String → String
  pub to_fraction : String → Result Fraction
  -- the names of an object's own fields, in the order in which they were set
  pub chain_keys : SupportChain → List ExternalChainName
  -- JSON.stringify and JSON.parse, on what the administration keeps as texts
  pub auth_to_json : AdminAuthInfo → String
  pub auth_of_json : String → Result Authorization
  pub fix_to_json : FixOrderReq → String
  pub text_to_json : String → String
  -- $asyncAllNoNullMap, on what the records of a page have given
  pub all_recharge_records : List (Result RechargeRecord) → Result (List RechargeRecord)
  pub destroy_detail : InternalChainName → DestroyAssetTransaction → InternalTransDetail
  pub text_of_chain : ExternalChainName → String
  pub text_of_internal_chain : InternalChainName → String
  -- constants of the wallet SDK, and the process
  pub internal_retry_max : ℕ
  pub external_retry_max : ℕ
  pub internal_retry_interval : ℕ
  pub external_retry_interval : ℕ
  pub bioforest_chain : String
  pub asset_pmc : String
  pub asset_biw : String
  pub asset_bnb : String
  pub asset_eth : String
  pub asset_trx : String
  pub bcf_default_decimals : ℕ
  pub is_dev : Bool
  pub is_order_worker : Bool
  pub version : String

-- `self` is the object that the method works on. While a method waits for a call, the process runs
-- other methods: `others` is what they make of the object until the answer is there.
pub record World (S : Type 0) : Type 0 where
  pub self : S
  pub calls : History
  pub others : History → S → S

abbrev pub Action {ℓ} : Type 0 → Type ℓ → Type ℓ
Action S A = Host → World S → Result A × World S

module _ {ℓ} {S : Type 0} {A : Type ℓ} where
  abbrev pub pure : A → Action S A
  pure a h w = (ok a, w)

  abbrev pub throw : Error → Action S A
  throw e h w = (err e, w)

  abbrev pub lift : Result A → Action S A
  lift r h w = (r, w)

  -- What an optional value holds, or an error if it is `undefined`.
  abbrev pub or_throw : Option A → Error → Action S A
  or_throw none e h w = (err e, w)
  or_throw (some a) e h w = (ok a, w)

module _ {S : Type 0} where
  abbrev pub host : Action S Host
  host h w = (ok h, w)

  abbrev pub get : Action S S
  get h w = (ok w.self, w)

  abbrev pub put : S → Action S (Unit {0})
  put s h w = (ok tt, record w { self = s })

  abbrev pub throw_if : Bool → Error → Action S (Unit {0})
  throw_if b e h w = (if b then err e else ok tt, w)

  -- A call to the outside that is answered at once: it is recorded, and the host answers.
  abbrev pub ask_now {ℓ} : {A : Type ℓ} → (Host → History → Result A) → Call → Action S A
  ask_now answer c h w = (answer h (c ∷ w.calls), record w { calls = c ∷ w.calls })

  -- A call whose answer is waited for (`await`).
  abbrev pub ask {ℓ} : {A : Type ℓ} → (Host → History → Result A) → Call → Action S A
  ask answer c h w = (
    answer h (c ∷ w.calls),
    record w { self = w.others (c ∷ w.calls) w.self; calls = c ∷ w.calls },
  )

  abbrev pub call : Call → Action S (Unit {0})
  call c = ask (λ h. h.done) c

-- A method of a class that keeps no state of its own.
abbrev pub Service {ℓ} : Type ℓ → Type ℓ
Service A = Action (Unit {0}) A

-- A world in which no other method touches the object.
abbrev pub alone : {S : Type 0} → S → History → World S
alone s c = record { self = s; calls = c; others = λ _ s. s }

infixl 5 ◌>>=◌ ◌>>◌
abbrev pub ◌>>=◌ {ℓ κ} :
    {S : Type 0} {A : Type ℓ} {B : Type κ} → Action S A → (A → Action S B) → Action S B
◌>>=◌ m f h w = let (r, w') = m h w in elim r [ ok a ↦ f a h w' | err e ↦ (err e, w') ]

abbrev pub ◌>>◌ {κ} : {S : Type 0} {B : Type κ} → Action S (Unit {0}) → Action S B → Action S B
m >> k = m >>= λ _. k

abbrev pub when : {S : Type 0} → Bool → Action S (Unit {0}) → Action S (Unit {0})
when true m = m
when false m = pure tt

-- `try { m } catch (e) { handler; throw e }`: an error of the handler takes the place of `e`.
abbrev pub catch_rethrow {ℓ} :
    {S : Type 0} {A : Type ℓ} → Action S A → Action S (Unit {0}) → Action S A
catch_rethrow m handler h w =
    let (r, w') = m h w in elim r [ ok a ↦ (ok a, w') | err e ↦ (handler >> throw e) h w' ]

-- `try { return m } catch (e) { return a }`
abbrev pub catch_with {ℓ} : {S : Type 0} {A : Type ℓ} → Action S A → A → Action S A
catch_with m a h w = let (r, w') = m h w in elim r [ ok b ↦ (ok b, w') | err e ↦ (ok a, w') ]
