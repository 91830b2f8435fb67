-- ===== src/OrderApp/Queues.antt =====
-- The wait for the queues of the internal chain ends.
use cot_server.Base.{
  ℕ, zero, suc, ◌+◌, ◌*◌, ◌≤◌, ◌≡◌, refl, ap, ◌∙◌, ◌⊎◌, inl, inr, Bool, true, false, ◌∷◌, length,
  arith,
}
use cot_server.Host.{Host, World, History, ok, queue_message_count, sleep, ◌>>=◌}
use cot_server.Host.Answers.{run-bind}
use cot_server.OrderApp.{
  queues_are_empty, counts_are_zero, wait_a_second, check_queue_inited, after_round,
}

-- After `m` calls, both queues are answered to be empty; other numbers are not looked at.
abbrev pub EmptyFrom : Host → ℕ → Type 0
EmptyFrom h m =
    (success : Bool) (c : History)
    → m ≤ length c
    → h.number (queue_message_count success ∷ c) ≡ ok 0

module _ (h : Host) (w : World (Unit {0})) where
  round_empty : (m : ℕ) → EmptyFrom h m → m ≤ length w.calls → (queues_are_empty h w).0 ≡ ok true
  unfolding queues_are_empty counts_are_zero
  round_empty m e l =
      rw
        (
          e true w.calls (omega (arith, l)),
          e false (queue_message_count true ∷ w.calls) (omega (arith, l)),
        )
        refl

  round_cases :
      ((queues_are_empty h w).0 ≡ ok true)
      ⊎ (((queues_are_empty h w).0 ≡ ok false)
          × (length w.calls + 1 ≤ length (queues_are_empty h w).1.calls))
  unfolding queues_are_empty counts_are_zero
  round_cases = ground arith

  second_passes : wait_a_second h w ≡ (ok tt, record w { calls = sleep 1000 ∷ w.calls })
  unfolding wait_a_second
  second_passes = ground arith

module _ (h : Host) (m : ℕ) (empty : EmptyFrom h m) where
  -- If from some number of calls on both queues of the internal chain are answered to be empty, then
  -- half as many rounds of the loop, and one more, are enough for it to end, whatever the queue
  -- answers before that, errors included.
  pub check_queue_inited_lem :
      (rounds : ℕ) (w : World (Unit {0}))
      → m ≤ length w.calls + 2 * rounds
      → (check_queue_inited (suc rounds) h w).0 ≡ ok true
  unfolding check_queue_inited after_round
  check_queue_inited_lem zero w l =
      ap (λ p. p.0)
        (run-bind queues_are_empty (after_round (check_queue_inited 0)) h w true
          (round_empty h w m empty (omega (arith, l))))
  check_queue_inited_lem (suc rounds) w l = elim (round_cases h w) [
    | inl t ↦
        ap (λ p. p.0)
          (run-bind queues_are_empty (after_round (check_queue_inited (suc rounds))) h w true t)
    | inr (f, n) ↦
        let v = (queues_are_empty h w).1 in
        ap (λ p. p.0)
          (run-bind queues_are_empty (after_round (check_queue_inited (suc rounds))) h w false f)
        ∙ ap (λ p. (◌>>=◌ (λ _ _. p) (λ _. check_queue_inited (suc rounds)) h v).0)
            (second_passes h v)
        ∙ check_queue_inited_lem rounds (record v { calls = sleep 1000 ∷ v.calls })
            (omega (arith, l, n))
  ]
