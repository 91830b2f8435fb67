-- ===== src/Validator/Accepted.antt =====
-- When RechargeClassVerify accepts a configuration.
use cot_server.Base.{
  ◌≡◌, refl, ◌∙◌, sym, ◌↔◌, String, Bool, true, false, not, List, [], ◌∷◌, All, arith,
}
use cot_server.Model.Value.{Value, is_boolean, entries}
use cot_server.Host.{Host, World, History, ok, is_bcf_address_value}
use cot_server.Host.Returns.{Gives, Gives-value, Gives-then, Gives-if, Gives-map, Gives-ok}
use cot_server.Validator.{read, check_if_there, check_chains, recharge_class_verify}
use cot_server.Validator.Items.{IsOnChain, IsItem, IsConfig, if_there-gives, on_chain-check}
use cot_server.Validator.Results.{item_result, assets_result, chains_result, every_chain-result}

module _ (h : Host) (good : Value → Bool) where
  -- What the check of the three external chains needs.
  record IsOnChains (value : Value) : Type 0 where
    pub chains : Value
    pub has_chains : read "supportChain" value ≡ ok chains
    pub on_eth : IsOnChain h.is_eth_address_value "ETH" chains
    pub on_bsc : IsOnChain h.is_eth_address_value "BSC" chains
    pub on_tron : IsOnChain h.is_tron_address_value "TRON" chains

  check_chains-gives :
      (value : Value) → Gives (λ b. b ≡ true → IsOnChains value) (check_chains h value)
  unfolding check_chains
  check_chains-gives value = Gives-then (read "supportChain" value) _ λ chains there.
      Gives-then (check_if_there h.is_eth_address_value "ETH" chains) _ λ e pe.
        Gives-if (not e) (ok false) _ (λ _. Gives-ok false (λ f. ground (arith, f)))
          λ ne. Gives-then (check_if_there h.is_eth_address_value "BSC" chains) _ λ b pb.
            Gives-if (not b) (ok false) _ (λ _. Gives-ok false (λ f. ground (arith, f)))
              λ nb.
                Gives-map (check_if_there h.is_tron_address_value "TRON" chains)
                  (λ t k p. record {
                    chains = chains;
                    has_chains = there;
                    on_eth =
                        Gives-value (λ b. b ≡ true → IsOnChain h.is_eth_address_value "ETH" chains)
                          _ e (if_there-gives h.is_eth_address_value "ETH" chains) pe
                          (ground (arith, ne));
                    on_bsc =
                        Gives-value (λ b. b ≡ true → IsOnChain h.is_eth_address_value "BSC" chains)
                          _ b (if_there-gives h.is_eth_address_value "BSC" chains) pb
                          (ground (arith, nb));
                    on_tron = k p;
                  })
                  (if_there-gives h.is_tron_address_value "TRON" chains)

  item_result-gives :
      (value : Value) → Gives (λ b. b ≡ true → IsItem h good value) (item_result h good value)
  unfolding item_result
  item_result-gives value = Gives-then (read "enable" value) _ λ e pe.
      Gives-if (not (is_boolean e)) (ok false) _ (λ _. Gives-ok false (λ f. ground (arith, f)))
        λ ne. Gives-then (read "applyAddress" value) _ λ a pa.
          Gives-if (not (good a)) (ok false) _ (λ _. Gives-ok false (λ f. ground (arith, f)))
            λ na.
              Gives-map (check_chains h value)
                (λ t k p.
                  let on = k p in
                  record {
                    enable = e;
                    apply_address = a;
                    chains = on.chains;
                    has_enable = pe;
                    boolean = ground (arith, ne);
                    has_address = pa;
                    address = ground (arith, na);
                    has_chains = on.has_chains;
                    on_eth = on.on_eth;
                    on_bsc = on.on_bsc;
                    on_tron = on.on_tron;
                  })
                (check_chains-gives value)

  item-result : (value : Value) → IsItem h good value → item_result h good value ≡ ok true
  unfolding item_result check_chains
  item-result value k =
      rw
        (
          k.has_enable,
          k.boolean,
          k.has_address,
          k.address,
          k.has_chains,
          on_chain-check h.is_eth_address_value "ETH" k.chains k.on_eth,
          on_chain-check h.is_eth_address_value "BSC" k.chains k.on_bsc,
          on_chain-check h.is_tron_address_value "TRON" k.chains k.on_tron,
        )
        refl

  abbrev IsAsset : String × Value → Type 0
  IsAsset asset = (h.is_internal_asset_type asset.0 ≡ true) × IsItem h good asset.1

  abbrev IsChain : String × Value → Type 0
  IsChain chain = (h.is_internal_chain_name chain.0 ≡ true) × All IsAsset (entries chain.1)

  assets_result-gives :
      (assets : List (String × Value))
      → Gives (λ b. b ≡ true → All IsAsset assets) (assets_result h good assets)
  unfolding assets_result
  assets_result-gives [] = Gives-ok true (λ _. tt)
  assets_result-gives ((a, value) ∷ rest) =
      Gives-if (not (h.is_internal_asset_type a)) (ok false) _
        (λ _. Gives-ok false (λ f. ground (arith, f)))
        λ na. Gives-then (item_result h good value) _ λ b pb.
          Gives-if b (assets_result h good rest) (ok false)
            (λ t.
              Gives-map (assets_result h good rest)
                (λ c k p. (
                  (
                    ground (arith, na),
                    Gives-value (λ x. x ≡ true → IsItem h good value) _ b (item_result-gives value)
                        pb t,
                  ),
                  k p,
                ))
                (assets_result-gives rest))
            (λ _. Gives-ok false (λ f. ground (arith, f)))

  assets-result :
      (assets : List (String × Value)) → All IsAsset assets → assets_result h good assets ≡ ok true
  unfolding assets_result
  assets-result [] k = refl
  assets-result ((a, value) ∷ rest) ((p, q), k) =
      rw (p, item-result value q, assets-result rest k) refl

  chains_result-gives :
      (chains : List (String × Value))
      → Gives (λ b. b ≡ true → All IsChain chains) (chains_result h good chains)
  unfolding chains_result
  chains_result-gives [] = Gives-ok true (λ _. tt)
  chains_result-gives ((c, value) ∷ rest) =
      Gives-if (not (h.is_internal_chain_name c)) (ok false) _
        (λ _. Gives-ok false (λ f. ground (arith, f)))
        λ nc. Gives-then (assets_result h good (entries value)) _ λ b pb.
          Gives-if b (chains_result h good rest) (ok false)
            (λ t.
              Gives-map (chains_result h good rest)
                (λ d k p. (
                  (
                    ground (arith, nc),
                    Gives-value (λ x. x ≡ true → All IsAsset (entries value)) _ b
                        (assets_result-gives (entries value)) pb t,
                  ),
                  k p,
                ))
                (chains_result-gives rest))
            (λ _. Gives-ok false (λ f. ground (arith, f)))

  chains-result :
      (chains : List (String × Value)) → All IsChain chains → chains_result h good chains ≡ ok true
  unfolding chains_result
  chains-result [] k = refl
  chains-result ((c, value) ∷ rest) ((p, q), k) =
      rw (p, assets-result (entries value) q, chains-result rest k) refl

module _ (h : Host) (good : Value → Bool)
    (same : (value : Value) (c : History)
      → h.flag (is_bcf_address_value value ∷ c) ≡ ok (good value)) where
  -- RechargeClassVerify accepts a configuration if and only if each chain and each asset of it is
  -- known, and each item has a switch that is a boolean, an address of the internal chain, and, for
  -- each external chain that it supports, a switch, an address for deposits and no contract or one
  -- with an address of that chain; where the wallet's test of internal addresses gives the same
  -- answer at all times.
  pub recharge_class_verify-IsConfig :
      (value : Value) (w : World (Unit {0}))
      → ((recharge_class_verify value h w).0 ≡ ok true) ↔ IsConfig h good value
  unfolding recharge_class_verify
  recharge_class_verify-IsConfig value w =
      let same_result = (every_chain-result h good same (entries value)).at w in
      (
        λ e.
            Gives-value (λ b. b ≡ true → IsConfig h good value) _ true
              (chains_result-gives h good (entries value)) (sym same_result ∙ e) refl,
        λ k. same_result ∙ chains-result h good (entries value) k,
      )
