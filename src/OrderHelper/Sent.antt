-- ===== src/OrderHelper/Sent.antt =====
-- packages/server/src/helper/order.helper.ts: which transaction of a request getExternalChainDetail
-- reads.
use cot_server.Base.{◌≡◌, refl, String, true, Option, none, some}
use cot_server.Model.Chain.{ExternalChainName, eth, bsc, tron}
use cot_server.Model.Wallet.{FromTrJson, ExternalTransDetail}
use cot_server.Model.Config.{ExternalAssetInfoItem, RechargeItem, SupportChain}
use cot_server.Host.{Host, Error, Service, ◌>>=◌, external_trans_detail}
use cot_server.Host.Returns.{Returns, Returns-if, Returns-pure, Returns-throw, Returns-after}
use cot_server.Host.Reads.{Read, Returns-Read}
use cot_server.OrderHelper.{when_there, detail_if_open, is_open, get_external_chain_detail}

-- The detail is the wallet's answer for the first of the four transactions that the request has, on
-- a chain that is open.
pub data IsSent (h : Host) (j : FromTrJson) (chains : SupportChain) (from : ExternalTransDetail)
    : Type 0 where
  sent_eth :
      (body : String)
      → j.eth ≡ some body
      → is_open chains.eth_item ≡ true
      → Read h.trans_detail (external_trans_detail eth body) from
      → IsSent h j chains from
  sent_bsc :
      (body : String)
      → j.eth ≡ none
      → j.bsc ≡ some body
      → is_open chains.bsc_item ≡ true
      → Read h.trans_detail (external_trans_detail bsc body) from
      → IsSent h j chains from
  sent_trc20 :
      (body : String)
      → j.eth ≡ none
      → j.bsc ≡ none
      → j.trc20 ≡ some body
      → is_open chains.tron_item ≡ true
      → Read h.trans_detail (external_trans_detail tron body) from
      → IsSent h j chains from
  sent_tron :
      (body : String)
      → j.eth ≡ none
      → j.bsc ≡ none
      → j.trc20 ≡ none
      → j.tron ≡ some body
      → is_open chains.tron_item ≡ true
      → Read h.trans_detail (external_trans_detail tron body) from
      → IsSent h j chains from

abbrev pub IsSentIf : Host → FromTrJson → SupportChain → Option ExternalTransDetail → Type 0
IsSentIf h j chains none = Unit
IsSentIf h j chains (some from) = IsSent h j chains from

module _ (h : Host) (j : FromTrJson) (chains : SupportChain) where
  when_there-Returns :
      (o : Option String) (f : String → Service (Option ExternalTransDetail))
      (m : Service (Option ExternalTransDetail))
      → ((body : String) → o ≡ some body → Returns h (IsSentIf h j chains) (f body))
      → (o ≡ none → Returns h (IsSentIf h j chains) m)
      → Returns h (IsSentIf h j chains) (when_there o f m)
  unfolding when_there
  when_there-Returns none f m kf km = km refl
  when_there-Returns (some body) f m kf km = kf body refl

  detail_if_open-Returns :
      (support : Option ExternalAssetInfoItem) (closed : Error) (chain : ExternalChainName)
      (body : String)
      → ((from : ExternalTransDetail)
          → is_open support ≡ true
          → Read h.trans_detail (external_trans_detail chain body) from
          → IsSent h j chains from)
      → Returns h (IsSentIf h j chains) (detail_if_open support closed chain body)
  unfolding detail_if_open
  detail_if_open-Returns support closed chain body k =
      Returns-if (is_open support) _ _
        (λ o.
          Returns-Read (λ k. k.trans_detail) (external_trans_detail chain body) _
            (λ from r. Returns-pure (some from) (k from o r)))
        (λ _. Returns-throw closed)

module _ (h : Host) (j : FromTrJson) (item : RechargeItem) where
  get_external_chain_detail-Returns :
      Returns h (IsSentIf h j item.support_chain) (get_external_chain_detail j item)
  unfolding get_external_chain_detail
  get_external_chain_detail-Returns =
      let chains = item.support_chain in
      when_there-Returns h j chains j.eth _ _
        (λ s e. detail_if_open-Returns h j chains _ _ eth s (λ _. sent_eth s e))
        (λ n.
          when_there-Returns h j chains j.bsc _ _
            (λ s e. detail_if_open-Returns h j chains _ _ bsc s (λ _. sent_bsc s n e))
            (λ n'.
              when_there-Returns h j chains j.trc20 _ _
                (λ s e. detail_if_open-Returns h j chains _ _ tron s (λ _. sent_trc20 s n n' e))
                (λ t.
                  when_there-Returns h j chains j.tron _ _
                    (λ s e.
                      detail_if_open-Returns h j chains _ _ tron s (λ _. sent_tron s n n' t e))
                    (λ _. Returns-pure none tt))))

  -- What follows may rest on it.
  pub Returns-sent :
      {B : Type 0} {Q : B → Type 0} (f : Option ExternalTransDetail → Service B)
      → ((o : Option ExternalTransDetail) → IsSentIf h j item.support_chain o → Returns h Q (f o))
      → Returns h Q (get_external_chain_detail j item >>= f)
  Returns-sent f k =
      Returns-after (IsSentIf h j item.support_chain) (get_external_chain_detail j item) f
        get_external_chain_detail-Returns k
