-- ===== src/Validator/Results.antt =====
-- Where the test of an address of the internal chain gives the same answer at all times, the checks
-- of RechargeClassVerify are functions of the value.
use cot_server.Base.{◌≡◌, String, Bool, true, false, not, List, [], ◌∷◌, if◌then◌else◌}
use cot_server.Model.Value.{Value, is_boolean, entries}
use cot_server.Host.{Host, History, Result, ok, ◌then◌, is_bcf_address_value, pure, lift}
use cot_server.Host.Yields.{Yields, Yields-pure, Yields-lift, Yields-asked, Yields-if, Yields-bind}
use cot_server.Validator.{read, check_chains, check_item, every_asset, every_chain}

-- The same conditions, as functions with a result.
module _ (h : Host) (good : Value → Bool) where
  unfoldable pub item_result : Value → Result Bool
  item_result value = read "enable" value then λ enable.
      (if not (is_boolean enable)
        then ok false
        else (read "applyAddress" value then λ apply_address.
            (if not (good apply_address) then ok false else check_chains h value)))

  unfoldable pub assets_result : List (String × Value) → Result Bool
  unfolding item_result
  assets_result [] = ok true
  assets_result ((asset_type, value) ∷ rest) =
      let others = assets_result rest in
      if not (h.is_internal_asset_type asset_type)
      then ok false
      else (item_result value then λ b. (if b then others else ok false))

  unfoldable pub chains_result : List (String × Value) → Result Bool
  unfolding assets_result
  chains_result [] = ok true
  chains_result ((chain_name, value) ∷ rest) =
      let others = chains_result rest in
      if not (h.is_internal_chain_name chain_name)
      then ok false
      else (assets_result (entries value) then λ b. (if b then others else ok false))

module _ (h : Host) (good : Value → Bool)
    (same : (value : Value) (c : History)
      → h.flag (is_bcf_address_value value ∷ c) ≡ ok (good value)) where
  check_item-result :
      (value : Value) → Yields {S = Unit {0}} h (item_result h good value) (check_item h value)
  unfolding check_item item_result
  check_item-result value =
      Yields-bind (lift (read "enable" value)) _ (read "enable" value) _ (Yields-lift _) λ e.
        Yields-if (not (is_boolean e)) (pure false) _ (ok false) _ (Yields-pure false) (
          Yields-bind (lift (read "applyAddress" value)) _ (read "applyAddress" value) _
            (Yields-lift _)
            λ a.
              Yields-asked (λ k. k.flag) (is_bcf_address_value a) (good a)
                (λ valid. if not valid then pure false else lift (check_chains h value)) _ (same a)
                (Yields-if (not (good a)) (pure false) (lift (check_chains h value)) (ok false)
                  (check_chains h value) (Yields-pure false) (Yields-lift _)))

  every_asset-result :
      (assets : List (String × Value))
      → Yields {S = Unit {0}} h (assets_result h good assets) (every_asset h assets)
  unfolding every_asset assets_result
  every_asset-result [] = Yields-pure true
  every_asset-result ((asset_type, value) ∷ rest) =
      Yields-if (not (h.is_internal_asset_type asset_type)) (pure false) _ (ok false) _
        (Yields-pure false)
        (Yields-bind (check_item h value) _ (item_result h good value) _ (check_item-result value)
          λ b.
            Yields-if b (every_asset h rest) (pure false) (assets_result h good rest) (ok false)
              (every_asset-result rest) (Yields-pure false))

  pub every_chain-result :
      (chains : List (String × Value))
      → Yields {S = Unit {0}} h (chains_result h good chains) (every_chain h chains)
  unfolding every_chain chains_result
  every_chain-result [] = Yields-pure true
  every_chain-result ((chain_name, value) ∷ rest) =
      Yields-if (not (h.is_internal_chain_name chain_name)) (pure false) _ (ok false) _
        (Yields-pure false)
        (Yields-bind (every_asset h (entries value)) _ (assets_result h good (entries value)) _
          (every_asset-result (entries value))
          λ b.
            Yields-if b (every_chain h rest) (pure false) (chains_result h good rest) (ok false)
              (every_chain-result rest) (Yields-pure false))
