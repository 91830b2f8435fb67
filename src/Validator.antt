-- ===== src/Validator.antt =====
-- packages/server/src/helper/validator.helper.ts: the checks of values that are sent, but for those
-- that read a text as a number or as a date. The tests of class-validator are parts of the host.
pub mod Items
pub mod Results
pub mod Accepted
use cot_server.Base.{
  String, Bool, true, false, not, ◌&&◌, ◌||◌, List, [], ◌∷◌, Option, none, some, if◌then◌else◌,
}
use cot_server.Model.Value.{
  Value, Values, text, number, array, item, truthy_value, is_boolean, property, entries,
}
use cot_server.Host.{
  Host, Result, ok, err, undefined_value, ◌then◌, Service, pure, lift, host, ask, ◌>>=◌,
  is_bcf_address_value,
}

-- isString of class-validator
unfoldable pub is_string : Value → Bool
is_string (text _) = true
is_string _ = false

-- isNumber of class-validator
unfoldable pub is_number : Host → Value → Bool
is_number h (number s) = h.is_valid_number s
is_number h _ = false

-- IsStringOrNumber
unfoldable pub is_string_or_number : Host → Value → Bool
unfolding is_string is_number
is_string_or_number h value = is_string value || is_number h value

-- The loops of IsNumberArray and IsStringArray.
unfoldable pub every_item : (Value → Bool) → Values → Bool
every_item test Values.end = true
every_item test (item value rest) =
    let others = every_item test rest in if not (test value) then false else others

-- IsNumberArray
unfoldable pub is_number_array : Host → Value → Bool
unfolding every_item is_number
is_number_array h (array values) = every_item (is_number h) values
is_number_array h _ = false

-- IsStringArray
unfoldable pub is_string_array : Value → Bool
unfolding every_item is_string
is_string_array (array values) = every_item is_string values
is_string_array _ = false

-- IsBCFAddress
unfoldable pub is_bcf_address : Value → Service Bool
is_bcf_address value = do
  valid ← ask (λ h. h.flag) (is_bcf_address_value value)
  pure (if not valid then false else true)

-- The loop of IsBCFAddressArray.
unfoldable pub every_bcf_address : Values → Service Bool
every_bcf_address Values.end = pure true
every_bcf_address (item value rest) = do
  valid ← ask (λ h. h.flag) (is_bcf_address_value value)
  elim valid [ false ↦ pure false | true ↦ every_bcf_address rest ]

-- IsBCFAddressArray
unfoldable pub is_bcf_address_array : Value → Service Bool
unfolding every_bcf_address
is_bcf_address_array (array values) = every_bcf_address values
is_bcf_address_array _ = pure false

-- `value[name]`
unfoldable pub read : String → Value → Result Value
read name value = elim (property name value) [ none ↦ err undefined_value | some x ↦ ok x ]

-- The three conditions of ethCheck and tronCheck, with the test of an address of the chain.
unfoldable pub is_chain_item : (Value → Bool) → (enable contract deposit_address : Value) → Bool
is_chain_item is_address enable contract deposit_address =
    is_boolean enable
    && (not (truthy_value contract) || is_address contract)
    && is_address deposit_address

-- ethCheck and tronCheck
unfoldable pub chain_check : (Value → Bool) → Value → Result Bool
unfolding read is_chain_item
chain_check is_address value = read "enable" value then λ enable.
    (read "contract" value then λ contract.
    (read "depositAddress" value then λ deposit_address.
    ok (is_chain_item is_address enable contract deposit_address)))

-- `item.supportChain.X`, and its check if it counts as true.
unfoldable pub check_if_there : (Value → Bool) → String → Value → Result Bool
unfolding chain_check
check_if_there is_address name support_chain = read name support_chain then λ value.
    (if truthy_value value then chain_check is_address value else ok true)

-- The checks of the three external chains; the first that fails is the end.
unfoldable pub check_chains : Host → Value → Result Bool
unfolding check_if_there
check_chains h value = read "supportChain" value then λ chains.
    (check_if_there h.is_eth_address_value "ETH" chains then λ on_eth.
    (if not on_eth
      then ok false
      else (check_if_there h.is_eth_address_value "BSC" chains then λ on_bsc.
          (if not on_bsc then ok false else check_if_there h.is_tron_address_value "TRON" chains))))

-- The checks of one item of the configuration.
unfoldable pub check_item : Host → Value → Service Bool
unfolding check_chains
check_item h value = do
  enable ← lift (read "enable" value)
  if not (is_boolean enable) then pure false else (do
    apply_address ← lift (read "applyAddress" value)
    valid ← ask (λ h. h.flag) (is_bcf_address_value apply_address)
    if not valid then pure false else lift (check_chains h value))

-- The inner loop of RechargeClassVerify, over the assets of a chain.
unfoldable pub every_asset : Host → List (String × Value) → Service Bool
unfolding check_item
every_asset h [] = pure true
every_asset h ((asset_type, value) ∷ rest) =
    let others = every_asset h rest in
    if not (h.is_internal_asset_type asset_type)
    then pure false
    else (do good ← check_item h value; if good then others else pure false)

-- Its outer loop, over the chains.
unfoldable pub every_chain : Host → List (String × Value) → Service Bool
unfolding every_asset
every_chain h [] = pure true
every_chain h ((chain_name, value) ∷ rest) =
    let others = every_chain h rest in
    if not (h.is_internal_chain_name chain_name)
    then pure false
    else (do good ← every_asset h (entries value); if good then others else pure false)

-- RechargeClassVerify
unfoldable pub recharge_class_verify : Value → Service Bool
unfolding every_chain
recharge_class_verify value = do h ← host; every_chain h (entries value)
