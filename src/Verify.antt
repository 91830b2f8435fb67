-- ===== src/Verify.antt =====
-- packages/server/src/helper/verify.helper.ts: signatures and addresses.
pub mod AuthInfos
pub mod Sorting
pub mod LockOrder
pub mod Signature
use cot_server.Base.{ℕ, ◌+◌, String, Bool, not, ltb, str_eq, if◌then◌else◌}
use cot_server.Model.Chain.{ExternalChainName, eth, bsc, tron}
use cot_server.Model.Recharge.{SignedMessage, SignatureInfo}
use cot_server.Host.{
  Host, Result, ok, err, response_error, auth_info_exception_invalid_address, not_support_chain,
  address_fail, data_verify_fail, timestamp_expired, Service, ask, ask_now, throw_if, ◌>>=◌, ◌>>◌,
  detached_verify, address_from_public_key, now,
}

-- VERIFY_EXPIRE_TIME of packages/core/src/verify/constants.ts: five minutes.
abbrev pub verify_expire_time : ℕ
verify_expire_time = 300000

-- verifySignature. `Date.now() - timestamp < VERIFY_EXPIRE_TIME` is a test on integers, so the
-- subtraction is moved to the other side.
unfoldable pub verify_signature : SignatureInfo → SignedMessage → String → Service (Unit {0})
verify_signature info message address = do
  resp ← ask (λ h. h.flag) (detached_verify message info.signature info.public_key)
  pk_address ← ask (λ h. h.text) (address_from_public_key info.public_key)
  throw_if (not (str_eq pk_address address)) address_fail
  throw_if (not resp) data_verify_fail
  time ← ask_now (λ h. h.number) now
  throw_if (not (ltb time (info.timestamp + verify_expire_time))) timestamp_expired

check_address : Bool → Result (Unit {0})
check_address valid =
    if valid then ok tt else err (response_error auth_info_exception_invalid_address)

-- verifyExternalAddress
unfoldable pub verify_external_address : Host → ExternalChainName → String → Result (Unit {0})
unfolding check_address
verify_external_address h eth address = check_address (h.is_eth_address address)
verify_external_address h bsc address = check_address (h.is_eth_address address)
verify_external_address h tron address = check_address (h.is_tron_address address)
verify_external_address h (ExternalChainName.other _) address = err not_support_chain
