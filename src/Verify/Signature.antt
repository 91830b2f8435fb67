-- ===== src/Verify/Signature.antt =====
-- When verifySignature accepts.
use cot_server.Base.{
  ◌≡◌, ◌↔◌, ℕ, ◌+◌, ◌<◌, String, true, false, not, Bool, ltb, ap, ◌∙◌, str_eq, str_eq_self, eq_iff,
  arith, ◌∷◌,
}
use cot_server.Model.Recharge.{SignedMessage, SignatureInfo}
use cot_server.Host.{Host, World, History, ok, detached_verify, address_from_public_key, now}
use cot_server.Host.Answers.{answers, Answered-value}
use cot_server.Verify.{verify_signature, verify_expire_time}

-- After the calls `c`: the key's signature of the message is valid, the key is the one of the
-- address, and the timestamp that was sent beside the message is less than five minutes old.
pub record IsSigned (h : Host) (info : SignatureInfo) (message : SignedMessage) (address : String)
    (c : History) : Type 0 where
  pub time : ℕ
  pub valid : h.flag (detached_verify message info.signature info.public_key ∷ c) ≡ ok true
  pub key_of :
      h.text (
        address_from_public_key info.public_key
        ∷ detached_verify message info.signature info.public_key
        ∷ c)
      ≡ ok address
  pub clock :
      h.number (
        now
        ∷ address_from_public_key info.public_key
        ∷ detached_verify message info.signature info.public_key
        ∷ c)
      ≡ ok time
  pub fresh : time < info.timestamp + verify_expire_time

module _ (h : Host) (info : SignatureInfo) (message : SignedMessage) (address : String)
    (w : World (Unit {0})) where
  signed_passes :
      IsSigned h info message address w.calls
      → (verify_signature info message address h w).0 ≡ ok tt
  unfolding verify_signature
  signed_passes s = rw (s.valid, s.key_of, str_eq_self address, s.clock) (ground (arith, s.fresh))

  checked-IsSigned :
      (resp : Bool) (pk_address : String) (time : ℕ)
      → h.flag (detached_verify message info.signature info.public_key ∷ w.calls) ≡ ok resp
      → h.text (
          address_from_public_key info.public_key
          ∷ detached_verify message info.signature info.public_key
          ∷ w.calls)
        ≡ ok pk_address
      → h.number (
          now
          ∷ address_from_public_key info.public_key
          ∷ detached_verify message info.signature info.public_key
          ∷ w.calls)
        ≡ ok time
      → not (str_eq pk_address address) ≡ false
      → not resp ≡ false
      → not (ltb time (info.timestamp + verify_expire_time)) ≡ false
      → IsSigned h info message address w.calls
  checked-IsSigned resp pk_address time er ek et a v f = record {
    time = time;
    valid = er ∙ ap ok (ground (arith, v));
    key_of = ek ∙ ap ok ((eq_iff pk_address address).0 (ground (arith, a)));
    clock = et;
    fresh = ground (arith, f);
  }

  -- verifySignature accepts if and only if its services answer that the key's signature of the
  -- message is valid and that the key is the one of the address, and the timestamp beside the
  -- message is less than five minutes old, whatever the timestamp in the signed message is.
  pub verify_signature-IsSigned :
      ((verify_signature info message address h w).0 ≡ ok tt)
      ↔ IsSigned h info message address w.calls
  unfolding verify_signature
  verify_signature-IsSigned = (
    Answered-value h (λ _. IsSigned h info message address w.calls) w
        (verify_signature info message address) tt (search (answers, checked-IsSigned) depth 20),
    signed_passes,
  )
