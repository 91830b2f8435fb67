-- ===== src/OrderApp/Ready.antt =====
-- The order process connects to the queue once its orders are loaded.
use cot_server.Base.{◌≡◌, sym, subst, ap, ◌∙◌, ◌∷◌, inl, inr, arith}
use cot_server.Model.Chain.{OrderType}
use cot_server.Host.{
  Host, World, History, Call, Action, Result-cases, ok, call, catch_with, ◌>>◌, connect_mq,
  load_order, start_tick, init_ipc,
}
use cot_server.Host.Answers.{run-bind, run-throw}
use cot_server.Host.Keeps.{Since, unchanged, added, CallsOnly}
use cot_server.GlobalValue.{ExternalAccounts}
use cot_server.OrderApp.Start.{
  now_done, load_and_tick, init_recharge_mgr, init_redemption_mgr, order_mgr_init, on_module_init,
  process_mq_tasks,
}
use cot_server.Settings.{start_accounts}
use cot_server.OrderApp.Connections.{
  NotConnection, tick-Calls, start_accounts-Calls, opened-Calls, process_mq_tasks-Calls,
  init_recharge_mgr-Calls, init_redemption_mgr-Calls,
}

-- The orders of the type have been loaded in the course of these calls.
pub data Loaded (h : Host) (type : OrderType) : History → Type 0 where
  loaded :
      {c : History} → h.done (load_order type ∷ c) ≡ ok tt → Loaded h type (load_order type ∷ c)
  later : {c : History} (k : Call) → Loaded h type c → Loaded h type (k ∷ c)

-- Every connection to the queue among the calls after `before` comes after both loads.
pub data Orderly (h : Host) (before : History) : History → Type 0 where
  begun : Orderly h before before
  another :
      {c : History} (k : Call) → NotConnection k → Orderly h before c → Orderly h before (k ∷ c)
  connected :
      {c : History}
      → Loaded h OrderType.recharge c
      → Loaded h OrderType.redemption c
      → Orderly h before c
      → Orderly h before (connect_mq ∷ c)

Since-Orderly :
    {h : Host} {a b c : History} → Orderly h a b → Since NotConnection b c → Orderly h a c
Since-Orderly o unchanged = o
Since-Orderly o (added k n s) = another k n (Since-Orderly o s)

Loaded-Since :
    {h : Host} {type : OrderType} {P : Call → Type 0} {b c : History}
    → Loaded h type b
    → Since P b c
    → Loaded h type c
Loaded-Since l unchanged = l
Loaded-Since l (added k n s) = later k (Loaded-Since l s)

-- When `m` returns, the calls made are as `Q` says.
abbrev pub Reaches : Host → (History → Type 0) → Action ExternalAccounts (Unit {0}) → Type 0
Reaches h Q m = (w : World ExternalAccounts) (a : Unit {0}) → (m h w).0 ≡ ok a → Q (m h w).1.calls

module _ (h : Host) (Q : History → Type 0) (m n : Action ExternalAccounts (Unit {0})) where
  -- What the second action reaches.
  Reaches-second : Reaches h Q n → Reaches h Q (m >> n)
  Reaches-second k w b e = elim (Result-cases (m h w).0) [
    | inl (a, p) ↦
        let q = run-bind m (λ _. n) h w a p in
        subst (λ r. Q r.1.calls) (sym q) (k (m h w).1 b (sym (ap (λ r. r.0) q) ∙ e))
    | inr (x, p) ↦ absurd (ground (arith, sym (ap (λ r. r.0) (run-throw m (λ _. n) h w x p)) ∙ e))
  ]

  -- What the first one reaches, and the calls of the second keep.
  Reaches-first :
      Reaches h Q m
      → ((w : World ExternalAccounts) → Q w.calls → Q (n h w).1.calls)
      → Reaches h Q (m >> n)
  Reaches-first k keep w b e = elim (Result-cases (m h w).0) [
    | inl (a, p) ↦
        subst (λ r. Q r.1.calls) (sym (run-bind m (λ _. n) h w a p)) (keep (m h w).1 (k w a p))
    | inr (x, p) ↦ absurd (ground (arith, sym (ap (λ r. r.0) (run-throw m (λ _. n) h w x p)) ∙ e))
  ]

module _ (h : Host) (type : OrderType) where
  -- What `m` adds to the calls does not undo a load.
  keeps-Loaded :
      (m : Action ExternalAccounts (Unit {0}))
      → CallsOnly h NotConnection m
      → (w : World ExternalAccounts) → Loaded h type w.calls
      → Loaded h type (m h w).1.calls
  keeps-Loaded m k w l = Loaded-Since l (k.at w)

  load_and_tick-Loaded : Reaches h (Loaded h type) (load_and_tick type)
  unfolding load_and_tick
  load_and_tick-Loaded =
      Reaches-first h (Loaded h type) (call (load_order type))
        (catch_with (now_done (start_tick type)) tt) (λ w a e. loaded e)
        (keeps-Loaded (catch_with (now_done (start_tick type)) tt) (tick-Calls h type))

module _ (h : Host) where
  init_recharge_mgr-Loaded : Reaches h (Loaded h OrderType.recharge) init_recharge_mgr
  unfolding init_recharge_mgr
  init_recharge_mgr-Loaded = search (Reaches-second, load_and_tick-Loaded) depth 20

  init_redemption_mgr-Loaded : Reaches h (Loaded h OrderType.redemption) init_redemption_mgr
  unfolding init_redemption_mgr
  init_redemption_mgr-Loaded = search (Reaches-second, load_and_tick-Loaded) depth 20

module _ (h : Host) (before : History) where
  -- A part of the start that does not connect, and what follows if it returns.
  then-Orderly :
      (m n : Action ExternalAccounts (Unit {0}))
      → CallsOnly h NotConnection m
      → (w : World ExternalAccounts) → Orderly h before w.calls
      → ((a : Unit {0})
          → (m h w).0 ≡ ok a
          → Orderly h before (m h w).1.calls
          → Orderly h before (n h (m h w).1).1.calls)
      → Orderly h before ((m >> n) h w).1.calls
  then-Orderly m n k w o rest = elim (Result-cases (m h w).0) [
    | inl (a, p) ↦
        subst (λ r. Orderly h before r.1.calls) (sym (run-bind m (λ _. n) h w a p))
          (rest a p (Since-Orderly o (k.at w)))
    | inr (x, p) ↦
        subst (λ r. Orderly h before r.1.calls) (sym (run-throw m (λ _. n) h w x p))
          (Since-Orderly o (k.at w))
  ]

  order_mgr_init-Orderly :
      (w : World ExternalAccounts)
      → Orderly h before w.calls
      → Orderly h before (order_mgr_init h w).1.calls
  unfolding order_mgr_init
  order_mgr_init-Orderly w o =
      then-Orderly init_recharge_mgr (init_redemption_mgr >> call connect_mq)
        (init_recharge_mgr-Calls h) w o
        (λ a p o'.
          let v = (init_recharge_mgr h w).1 in
          then-Orderly init_redemption_mgr (call connect_mq) (init_redemption_mgr-Calls h) v o'
            (λ b q o''.
              connected
                (keeps-Loaded h OrderType.recharge init_redemption_mgr (init_redemption_mgr-Calls h)
                  v (init_recharge_mgr-Loaded h w a p))
                (init_redemption_mgr-Loaded h v b q) o''))

module _ (h : Host) (w : World ExternalAccounts) where
  -- When the order process starts, it connects to the queue only after the orders of both managers
  -- have been loaded, whatever the calls answer.
  pub on_module_init-Orderly : Orderly h w.calls (on_module_init h w).1.calls
  unfolding on_module_init
  on_module_init-Orderly =
      then-Orderly h w.calls (call init_ipc)
        (start_accounts >> (process_mq_tasks >> order_mgr_init)) (opened-Calls h) w begun
        (λ a p o.
          let v = (call init_ipc h w).1 in
          then-Orderly h w.calls start_accounts (process_mq_tasks >> order_mgr_init)
            (start_accounts-Calls h) v o
            (λ b q o'.
              let u = (start_accounts h v).1 in
              then-Orderly h w.calls process_mq_tasks order_mgr_init (process_mq_tasks-Calls h) u o'
                (λ c r o''. order_mgr_init-Orderly h w.calls (process_mq_tasks h u).1 o'')))
