-- ===== src/Recharge/Pool/Sums.antt =====
-- What the numbers of the pool are made of.
use cot_server.Base.{◌≡◌, refl, ap, ℕ, Option, none, some}
use cot_server.Base.BigInt.{ℤ, pos, ◌+ℤ◌, ◌-ℤ◌}
use cot_server.Base.BigIntText.{to_text}
use cot_server.Model.Chain.{ExternalChainName, eth, bsc, tron}
use cot_server.Model.Wallet.{AssetDetails}
use cot_server.Model.Config.{ExternalAssetInfoItem, RechargeItem}
use cot_server.Model.Recharge.{RechargeContractPoolItem}
use cot_server.Host.{Host, ok, ◌>>=◌, get_asset_details}
use cot_server.Host.Returns.{
  Returns, returns, Returns-after, Gives, gives, Gives-value, Returns-pure,
}
use cot_server.OrderHelper.{big_int}
use cot_server.Host.Reads.{Read, Returns-Read}
use cot_server.Recharge.Pool.Staked.{IsStaked, not_supported, staked_on-IsStaked-some}
use cot_server.Recharge.Pool.{staked_on, supported_chains, burned, pool_with, pool_item}

-- A pool's item, for an item of the configuration: `details` are those that the wallet has given.
pub record IsPool (h : Host) (item : RechargeItem) (p : RechargeContractPoolItem) : Type 0 where
  pub details : AssetDetails
  pub minted : ℤ
  pub circulating : ℤ
  pub on_eth : ℤ
  pub on_bsc : ℤ
  pub on_tron : ℤ
  pub same_chain : p.chain_name ≡ item.chain_name
  pub same_asset : p.asset_type ≡ item.asset_type
  pub chains : p.external_chain_info ≡ supported_chains item
  pub details_read :
      Read h.asset_details (get_asset_details item.chain_name item.asset_type) details
  pub shows_minted : p.total_minted ≡ details.issued_asset_prealnum
  pub shows_circulating : p.total_circulation ≡ details.remain_asset_prealnum
  pub is_minted : big_int p.total_minted ≡ ok minted
  pub is_circulating : big_int p.total_circulation ≡ ok circulating
  pub is_burned : p.total_burned ≡ to_text (minted -ℤ circulating)
  pub is_staked : p.total_staked ≡ to_text (pos 0 +ℤ on_eth +ℤ on_bsc +ℤ on_tron)
  pub eth_staked : IsStaked h eth 18 item.support_chain.eth_item on_eth
  pub bsc_staked : IsStaked h bsc 18 item.support_chain.bsc_item on_bsc
  pub tron_staked : IsStaked h tron 6 item.support_chain.tron_item on_tron

module _ (h : Host) where
  staked_on-IsStaked :
      (chain : ExternalChainName) (n : ℕ) (o : Option ExternalAssetInfoItem)
      → Returns h (IsStaked h chain n o) (staked_on chain n o)
  unfolding staked_on
  staked_on-IsStaked chain n none = Returns-pure (pos 0) not_supported
  staked_on-IsStaked chain n (some item) = staked_on-IsStaked-some h chain n item

record IsBurned (result : AssetDetails) (z : ℤ) : Type 0 where
  pub issued : ℤ
  pub remain : ℤ
  pub of_issued : big_int result.issued_asset_prealnum ≡ ok issued
  pub of_remain : big_int result.remain_asset_prealnum ≡ ok remain
  pub difference : z ≡ issued -ℤ remain

all-IsBurned :
    (result : AssetDetails) (i r : ℤ)
    → big_int result.issued_asset_prealnum ≡ ok i
    → big_int result.remain_asset_prealnum ≡ ok r
    → IsBurned result (i -ℤ r)
all-IsBurned result i r p q = record {
  issued = i;
  remain = r;
  of_issued = p;
  of_remain = q;
  difference = refl;
}

burned-IsBurned : (result : AssetDetails) → Gives (IsBurned result) (burned result)
unfolding burned
burned-IsBurned result = search (gives, all-IsBurned) depth 20

module _ (h : Host) (item : RechargeItem) where
  all-IsPool :
      (on_eth on_bsc on_tron : ℤ) (result : AssetDetails) (z : ℤ)
      → IsStaked h eth 18 item.support_chain.eth_item on_eth
      → IsStaked h bsc 18 item.support_chain.bsc_item on_bsc
      → IsStaked h tron 6 item.support_chain.tron_item on_tron
      → Read h.asset_details (get_asset_details item.chain_name item.asset_type) result
      → burned result ≡ ok z
      → IsPool h item (record {
        chain_name = item.chain_name;
        asset_type = item.asset_type;
        external_chain_info = supported_chains item;
        total_minted = result.issued_asset_prealnum;
        total_circulation = result.remain_asset_prealnum;
        total_burned = to_text z;
        total_staked = to_text (pos 0 +ℤ on_eth +ℤ on_bsc +ℤ on_tron);
      })
  all-IsPool on_eth on_bsc on_tron result z e b t answered p =
      let k = Gives-value (IsBurned result) (burned result) z (burned-IsBurned result) p in
      record {
        minted = k.issued;
        circulating = k.remain;
        on_eth = on_eth;
        on_bsc = on_bsc;
        on_tron = on_tron;
        details = result;
        details_read = answered;
        shows_minted = refl;
        shows_circulating = refl;
        same_chain = refl;
        same_asset = refl;
        chains = refl;
        is_minted = k.of_issued;
        is_circulating = k.of_remain;
        is_burned = ap to_text k.difference;
        is_staked = refl;
        eth_staked = e;
        bsc_staked = b;
        tron_staked = t;
      }

  pool_with-IsPool :
      (on_eth on_bsc on_tron : ℤ)
      → IsStaked h eth 18 item.support_chain.eth_item on_eth
      → IsStaked h bsc 18 item.support_chain.bsc_item on_bsc
      → IsStaked h tron 6 item.support_chain.tron_item on_tron
      → Returns h (IsPool h item) (pool_with item on_eth on_bsc on_tron)
  unfolding pool_with
  pool_with-IsPool on_eth on_bsc on_tron e b t =
      search (Returns-Read, returns, all-IsPool, e, b, t) depth 20

  -- What getContractPoolInfo shows for an asset is about that asset: the supported chains are the
  -- configured ones, what was minted and what circulates are those of the details that the wallet
  -- has given, what is burned is their difference, and what is staked is the sum over the three
  -- chains of what the deposit address holds there. That is the balance that the wallet has given,
  -- of the contract's token if the configuration names one and of the main asset otherwise; a chain
  -- that is not configured, or whose balance was not given or is no number, counts as 0.
  pub pool_item-IsPool : Returns h (IsPool h item) (pool_item item)
  unfolding pool_item
  pool_item-IsPool =
      let on_tron = staked_on tron 6 item.support_chain.tron_item in
      let on_bsc = staked_on bsc 18 item.support_chain.bsc_item in
      Returns-after (IsStaked h eth 18 item.support_chain.eth_item)
        (staked_on eth 18 item.support_chain.eth_item)
        (λ e. on_bsc >>= λ b. on_tron >>= λ t. pool_with item e b t)
        (staked_on-IsStaked h eth 18 item.support_chain.eth_item)
        (λ e pe.
          Returns-after (IsStaked h bsc 18 item.support_chain.bsc_item) on_bsc
            (λ b. on_tron >>= λ t. pool_with item e b t)
            (staked_on-IsStaked h bsc 18 item.support_chain.bsc_item)
            (λ b pb.
              Returns-after (IsStaked h tron 6 item.support_chain.tron_item) on_tron
                (λ t. pool_with item e b t)
                (staked_on-IsStaked h tron 6 item.support_chain.tron_item)
                (λ t pt. pool_with-IsPool e b t pe pb pt)))
