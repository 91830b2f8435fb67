-- ===== src/Validator/Items.antt =====
-- What RechargeClassVerify accepts: the conditions on a configuration and its parts, and what the
-- checks of the external chains say of them.
use cot_server.Base.{◌≡◌, refl, String, Bool, true, All, arith, Bool-cases, inl, inr}
use cot_server.Model.Value.{Value, truthy_value, is_boolean, entries}
use cot_server.Host.{Host, ok}
use cot_server.Host.Returns.{Gives, gives, Gives-then, Gives-if, Gives-map, Gives-ok}
use cot_server.Validator.{read, is_chain_item, chain_check, check_if_there}

-- The data of an external chain: a switch that is a boolean, an address for deposits, and, if a
-- contract is named, that is an address too.
pub record IsChainItem (is_address : Value → Bool) (value : Value) : Type 0 where
  pub enable : Value
  pub contract : Value
  pub deposit_address : Value
  pub has_enable : read "enable" value ≡ ok enable
  pub has_contract : read "contract" value ≡ ok contract
  pub has_deposit : read "depositAddress" value ≡ ok deposit_address
  pub boolean : is_boolean enable ≡ true
  pub token : truthy_value contract ≡ true → is_address contract ≡ true
  pub deposit : is_address deposit_address ≡ true

-- What stands under the name of an external chain: data as above, or a value that counts as false.
pub record IsOnChain (is_address : Value → Bool) (name : String) (chains : Value) : Type 0 where
  pub value : Value
  pub there : read name chains ≡ ok value
  pub good : truthy_value value ≡ true → IsChainItem is_address value

-- An item of the configuration, where `good` says which values are addresses of the internal chain.
pub record IsItem (h : Host) (good : Value → Bool) (value : Value) : Type 0 where
  pub enable : Value
  pub apply_address : Value
  pub chains : Value
  pub has_enable : read "enable" value ≡ ok enable
  pub boolean : is_boolean enable ≡ true
  pub has_address : read "applyAddress" value ≡ ok apply_address
  pub address : good apply_address ≡ true
  pub has_chains : read "supportChain" value ≡ ok chains
  pub on_eth : IsOnChain h.is_eth_address_value "ETH" chains
  pub on_bsc : IsOnChain h.is_eth_address_value "BSC" chains
  pub on_tron : IsOnChain h.is_tron_address_value "TRON" chains

-- All chains and all assets of the configuration are known, and all items are as above.
abbrev pub IsConfig : Host → (Value → Bool) → Value → Type 0
IsConfig h good value =
    All
      (λ chain.
        (h.is_internal_chain_name chain.0 ≡ true)
        × All (λ asset. (h.is_internal_asset_type asset.0 ≡ true) × IsItem h good asset.1)
            (entries chain.1))
      (entries value)

module _ (is_address : Value → Bool) where
  all-IsChainItem :
      (value e c d : Value)
      → read "enable" value ≡ ok e
      → read "contract" value ≡ ok c
      → read "depositAddress" value ≡ ok d
      → is_chain_item is_address e c d ≡ true
      → IsChainItem is_address value
  unfolding is_chain_item
  all-IsChainItem value e c d he hc hd t = record {
    enable = e;
    contract = c;
    deposit_address = d;
    has_enable = he;
    has_contract = hc;
    has_deposit = hd;
    boolean = ground (arith, t);
    token = λ k. ground (arith, t, k);
    deposit = ground (arith, t);
  }

  chain_check-gives :
      (value : Value)
      → Gives (λ b. b ≡ true → IsChainItem is_address value) (chain_check is_address value)
  unfolding chain_check
  chain_check-gives value = search (gives, all-IsChainItem) depth 20

  item-chain_check :
      (value : Value) → IsChainItem is_address value → chain_check is_address value ≡ ok true
  unfolding chain_check is_chain_item
  item-chain_check value k =
      rw (k.has_enable, k.has_contract, k.has_deposit, k.boolean, k.deposit)
        (ground (arith, k.token))

  pub if_there-gives :
      (name : String) (chains : Value)
      → Gives
          (λ b. b ≡ true → IsOnChain is_address name chains)
          (check_if_there is_address name chains)
  unfolding check_if_there
  if_there-gives name chains = Gives-then (read name chains) _ λ value there.
      Gives-if (truthy_value value) (chain_check is_address value) (ok true)
        (λ _.
          Gives-map (chain_check is_address value)
            (λ b k t. record { value = value; there = there; good = λ _. k t })
            (chain_check-gives value))
        (λ f.
          Gives-ok true
            λ _. record { value = value; there = there; good = λ t. absurd (ground (arith, f, t)) })

  pub on_chain-check :
      (name : String) (chains : Value)
      → IsOnChain is_address name chains
      → check_if_there is_address name chains ≡ ok true
  unfolding check_if_there
  on_chain-check name chains k = elim (Bool-cases (truthy_value k.value)) [
    | inl t ↦ rw (k.there, t) (item-chain_check k.value (k.good t))
    | inr f ↦ rw (k.there, f) refl
  ]
