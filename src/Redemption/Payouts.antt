-- ===== src/Redemption/Payouts.antt =====
-- How much a redemption pays out.
use cot_server.Base.{◌≡◌, false, String, arith}
use cot_server.Base.BigInt.{ℤ, pos, leb_ℤ, is_zero, int_laws, ◌+ℤ◌, ◌-ℤ◌, ◌*ℤ◌, ◌/ℤ◌, ◌<ℤ◌}
use cot_server.Model.Chain.{ExternalChainName}
use cot_server.Model.Config.{RedemptionConfig}
use cot_server.Host.{Host, ok}
use cot_server.Host.Returns.{gives, Gives-value}
use cot_server.Model.Wallet.{Fraction}
use cot_server.OrderHelper.{big_int}
use cot_server.Redemption.Withdrawal.{Payout, payout_of, fee_on, divide}

-- `p` is what is paid out of `amount` on the chain: the fee is the chain's, the ratio's part is the
-- quotient without its fraction, the three parts are the amount, and the payee gets something.
pub record IsPayout (h : Host) (redemption : RedemptionConfig) (chain : ExternalChainName)
    (amount : String) (p : Payout) : Type 0 where
  pub a : ℤ
  pub n : ℤ
  pub d : ℤ
  pub amount_of : big_int amount ≡ ok a
  pub ratio_of : h.to_fraction redemption.radio_fee ≡ ok p.ratio
  pub numerator_of : big_int p.ratio.numerator ≡ ok n
  pub denominator_of : big_int p.ratio.denominator ≡ ok d
  pub fee_of : fee_on redemption chain ≡ ok p.redemption_fee
  pub not_zero : is_zero d ≡ false
  pub part : p.minus_fee ≡ a *ℤ n /ℤ d
  pub conserved : p.wallet_amount +ℤ p.redemption_fee +ℤ p.minus_fee ≡ a
  pub positive : pos 0 <ℤ p.wallet_amount

rest_back : (a f m : ℤ) → a -ℤ f -ℤ m +ℤ f +ℤ m ≡ a
rest_back a f m = grind int_laws

above_zero : (z : ℤ) → leb_ℤ z (pos 0) ≡ false → pos 0 <ℤ z
above_zero z e = ground (arith, e)

IsQuotient : (a d q : ℤ) → Type 0
IsQuotient a d q = (is_zero d ≡ false) × (q ≡ a /ℤ d)

divided : (a d q : ℤ) → divide a d ≡ ok q → IsQuotient a d q
unfolding divide IsQuotient
divided a d q = Gives-value (IsQuotient a d) (divide a d) q (search (gives) depth 10)

module _ (h : Host) (redemption : RedemptionConfig) (chain : ExternalChainName)
    (amount : String) where
  paid-IsPayout :
      (ratio : Fraction) (fee a n d m : ℤ)
      → h.to_fraction redemption.radio_fee ≡ ok ratio
      → fee_on redemption chain ≡ ok fee
      → big_int amount ≡ ok a
      → big_int ratio.numerator ≡ ok n
      → big_int ratio.denominator ≡ ok d
      → divide (a *ℤ n) d ≡ ok m
      → leb_ℤ (a -ℤ fee -ℤ m) (pos 0) ≡ false
      → IsPayout h redemption chain amount (record {
        wallet_amount = a -ℤ fee -ℤ m;
        minus_fee = m;
        redemption_fee = fee;
        ratio = ratio;
      })
  unfolding IsQuotient
  paid-IsPayout ratio fee a n d m er ef ea en ed em ep = record {
    a = a;
    n = n;
    d = d;
    amount_of = ea;
    ratio_of = er;
    numerator_of = en;
    denominator_of = ed;
    fee_of = ef;
    not_zero = (divided _ d m em).0;
    part = (divided _ d m em).1;
    conserved = rest_back a fee m;
    positive = above_zero _ ep;
  }

  -- If a payout is computed, then the amount and the configured ratio are numbers, the divisor is
  -- not 0, the fee is the one configured for the chain, what is kept back for the ratio is the
  -- amount times the ratio without its fraction, what is paid, the fee and that part together are
  -- exactly the amount, and what is paid is more than 0.
  pub payout_of-IsPayout :
      (p : Payout)
      → payout_of h redemption chain amount ≡ ok p
      → IsPayout h redemption chain amount p
  unfolding payout_of
  payout_of-IsPayout p =
      Gives-value (IsPayout h redemption chain amount) (payout_of h redemption chain amount) p
        (search (gives, paid-IsPayout) depth 20)
