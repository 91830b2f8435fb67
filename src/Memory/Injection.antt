-- ===== src/Memory/Injection.antt =====
-- A keypair that has been injected stays.
use cot_server.Base.{
  ◌≡◌, true, String, none, some, lookup, lookup-insert, str_eq, arith, eq_iff, if◌then◌else◌,
  is_some,
}
use cot_server.Host.{Host, World}
use cot_server.Memory.{RwKeypairs, AccountType, set_rw_keypair, check_in_order_worker}

module _ (h : Host) (key : String) (keypair : AccountType) (w : World RwKeypairs)
    (worker : h.is_order_worker ≡ true) where
  -- In the order process, what is looked up after an injection: a keypair that was there stays,
  -- whatever is injected; the injected keypair is found under its type if none was there; nothing
  -- else appears.
  pub set_rw_keypair_lem :
      (j : String)
      → lookup j (set_rw_keypair key keypair h w).1.self ≡ (
          if is_some (lookup j w.self)
          then lookup j w.self
          else if str_eq key j
          then some keypair
          else none)
  unfolding set_rw_keypair check_in_order_worker
  set_rw_keypair_lem j = ground (arith, worker, lookup-insert key j keypair w.self, eq_iff key j)
