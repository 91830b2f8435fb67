-- ===== src/Recharge/Pool/Staked.antt =====
-- packages/server/src/module/recharge/recharge.service.ts: where the balances of getContractPoolInfo
-- come from.
use cot_server.Base.{
  ◌≡◌, refl, ℕ, String, Bool, true, false, Option, none, some, truthy, text_or_empty, if◌then◌else◌,
  ◌∷◌,
}
use cot_server.Base.BigInt.{ℤ, pos}
use cot_server.Model.Chain.{ExternalChainName}
use cot_server.Model.Wallet.{ContractBalance}
use cot_server.Model.Config.{ExternalAssetInfoItem}
use cot_server.Host.{
  World, Host, History, Error, Result, Call, ok, err, Service, lift, catch_with, ◌>>=◌,
  contract_balance_item, external_balance,
}
use cot_server.Host.Returns.{Post, Returns}
use cot_server.Host.Reads.{Read}
use cot_server.Recharge.Pool.{read_balance, balance_or_zero, staked_on}

-- The call has been answered with an error.
abbrev Unanswered : {A : Type 0} → (History → Result A) → Call → Type 0
Unanswered answer c = (before : History) × ((e : Error) × (answer (c ∷ before) ≡ err e))

-- The amount that an answer shows, by its own decimals or by the chain's.
abbrev Shows : Result ℤ → ℤ → Type 0
Shows r z = r ≡ ok z

abbrev Unfit : Result ℤ → Type 0
Unfit r = (e : Error) × (r ≡ err e)

module _ (h : Host) (chain : ExternalChainName) (main_decimal : ℕ)
    (item : ExternalAssetInfoItem) where
  abbrev contract_call : Call
  contract_call = contract_balance_item chain item.deposit_address (text_or_empty item.contract)

  abbrev main_call : Call
  main_call = external_balance chain item.deposit_address

  -- The deposit address holds `z`: of the contract's token, where the item names one, and of the
  -- chain's main asset otherwise.
  pub data Holds (z : ℤ) : Type 0 where
    of_contract :
        (b : ContractBalance)
        → truthy item.contract ≡ true
        → Read h.contract_balance contract_call b
        → Shows (h.decimal_to_bcf b.decimal b.balance) z
        → Holds z
    of_main :
        (balance : String)
        → truthy item.contract ≡ false
        → Read h.text main_call balance
        → Shows (h.decimal_to_bcf main_decimal balance) z
        → Holds z

  -- What it holds was not to be had, or is no number.
  pub data Unknown : Type 0 where
    contract_unanswered :
        truthy item.contract ≡ true → Unanswered h.contract_balance contract_call → Unknown
    contract_unfit :
        (b : ContractBalance)
        → truthy item.contract ≡ true
        → Read h.contract_balance contract_call b
        → Unfit (h.decimal_to_bcf b.decimal b.balance)
        → Unknown
    main_unanswered : truthy item.contract ≡ false → Unanswered h.text main_call → Unknown
    main_unfit :
        (balance : String)
        → truthy item.contract ≡ false
        → Read h.text main_call balance
        → Unfit (h.decimal_to_bcf main_decimal balance)
        → Unknown

-- What a chain counts for: nothing, if it is not supported or its balance is unknown.
pub data IsStaked (h : Host) (chain : ExternalChainName) (main_decimal : ℕ)
    : Option ExternalAssetInfoItem → ℤ → Type 0 where
  not_supported : IsStaked h chain main_decimal none (pos 0)
  held :
      {item : ExternalAssetInfoItem} {z : ℤ}
      → Holds h chain main_decimal item z
      → IsStaked h chain main_decimal (some item) z
  unknown :
      {item : ExternalAssetInfoItem}
      → Unknown h chain main_decimal item
      → IsStaked h chain main_decimal (some item) (pos 0)

-- A value with `V`, or an error and then `F`.
Outcome : (ℤ → Type 0) → Type 0 → Result ℤ → Type 0
Outcome V F (ok z) = V z
Outcome V F (err e) = F

module _ (V : ℤ → Type 0) (F : Type 0) (h : Host) (w : World (Unit {0})) where
  of_result :
      (r : Result ℤ) → ((z : ℤ) → r ≡ ok z → V z) → ((e : Error) → r ≡ err e → F) → Outcome V F r
  unfolding Outcome
  of_result (ok z) good bad = good z refl
  of_result (err e) good bad = bad e refl

  of_answer :
      {A : Type 0} (r : Result A) (g : A → Result ℤ)
      → ((e : Error) → r ≡ err e → F)
      → ((a : A) → r ≡ ok a → Outcome V F (g a))
      → Outcome V F (◌>>=◌ (lift r) (λ a. lift (g a)) h w).0
  unfolding Outcome
  of_answer (ok a) g bad good = good a refl
  of_answer (err e) g bad good = bad e refl

  of_choice :
      (b : Bool) (m n : Service ℤ)
      → (b ≡ true → Outcome V F (m h w).0)
      → (b ≡ false → Outcome V F (n h w).0)
      → Outcome V F ((if b then m else n) h w).0
  of_choice true m n km kn = km refl
  of_choice false m n km kn = kn refl

  caught :
      (Q : ℤ → Type 0) (r : Result ℤ)
      → ((z : ℤ) → V z → Q z)
      → (F → Q (pos 0))
      → Outcome V F r
      → Post Q (catch_with (lift r) (pos 0) h w).0
  unfolding Outcome
  caught Q (ok z) good bad k = good z k
  caught Q (err e) good bad k = bad k

module _ (h : Host) (chain : ExternalChainName) (n : ℕ) (item : ExternalAssetInfoItem) where
  read_balance-Holds :
      (w : World (Unit {0}))
      → Outcome
          (Holds h chain n item)
          (Unknown h chain n item)
          (read_balance chain n item.deposit_address item.contract h w).0
  unfolding read_balance
  read_balance-Holds w =
      let holds = Holds h chain n item in
      let not_known = Unknown h chain n item in
      let contract = contract_call h chain n item ∷ w.calls in
      let main = main_call h chain n item ∷ w.calls in
      of_choice holds not_known h w (truthy item.contract) _ _
        (λ yes.
          of_answer holds not_known h (record w { calls = contract }) (h.contract_balance contract)
            (λ b. h.decimal_to_bcf b.decimal b.balance)
            (λ e p. contract_unanswered yes (w.calls, (e, p)))
            (λ b p.
              of_result holds not_known h w (h.decimal_to_bcf b.decimal b.balance)
                (λ z q. of_contract b yes (w.calls, p) q)
                (λ e q. contract_unfit b yes (w.calls, p) (e, q))))
        (λ no.
          of_answer holds not_known h (record w { calls = main }) (h.text main)
            (λ b. h.decimal_to_bcf n b) (λ e p. main_unanswered no (w.calls, (e, p)))
            (λ b p.
              of_result holds not_known h w (h.decimal_to_bcf n b)
                (λ z q. of_main b no (w.calls, p) q) (λ e q. main_unfit b no (w.calls, p) (e, q))))

  pub staked_on-IsStaked-some :
      Returns h (IsStaked h chain n (some item)) (staked_on chain n (some item))
  unfolding staked_on balance_or_zero
  staked_on-IsStaked-some = record {
    at = λ w.
        let (r, w') = read_balance chain n item.deposit_address item.contract h w in
        caught (Holds h chain n item) (Unknown h chain n item) h w' (IsStaked h chain n (some item))
          r (λ z. held) unknown (read_balance-Holds w);
  }
