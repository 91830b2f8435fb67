-- ===== src/Admin/System/Attempts.antt =====
-- How often a snapshot is tried, and what is left after failures.
use cot_server.Base.{
  ℕ, zero, suc, ◌+◌, ◌≤◌, ◌≡◌, refl, ◌⊎◌, inl, inr, String, Bool, true, false, Option, none, some,
  ◌∷◌, length, arith, ap, sym, subst, Bool-cases, if◌then◌else◌,
}
use cot_server.Host.{
  Host, World, Result, ok, err, Error, Result-cases, pure, lift, put, catch_with, ◌>>=◌, ◌>>◌,
  write_heap_snapshot,
}
use cot_server.Admin.System.{after_try, write_tries, write_heap_snapshop}

-- The end of a loop with so many tries: a path, with the flag cleared, or nothing, with the flag as
-- it was; and not more calls than tries.
record IsTried (n : ℕ) (w : World Bool) (r : Result (Option String)) (v : World Bool) : Type 0 where
  pub outcome :
      ((p : String) × (r ≡ ok (some p)) × (v.self ≡ false)) ⊎ ((r ≡ ok none) × (v.self ≡ w.self))
  pub few : length v.calls ≤ length w.calls + n

module _ (h : Host) (n : ℕ) (w : World Bool) where
  -- The world after one more call.
  abbrev asked : World Bool
  asked = record w { calls = write_heap_snapshot ∷ w.calls }

  answered_ok :
      (r : Result String) (p : String)
      → r ≡ ok p
      → catch_with (λ k v. ◌>>=◌ (lift r) (λ path. pure (some path)) k v) none h asked
        ≡ (ok (some p), asked)
  answered_ok r p e =
      subst
        (λ x.
          catch_with (λ k v. ◌>>=◌ (lift x) (λ path. pure (some path)) k v) none h asked
          ≡ (ok (some p), asked))
        (sym e) refl

  answered_err :
      (r : Result String) (x : Error)
      → r ≡ err x
      → catch_with (λ k v. ◌>>=◌ (lift r) (λ path. pure (some path)) k v) none h asked
        ≡ (ok none, asked)
  answered_err r x e =
      subst
        (λ y.
          catch_with (λ k v. ◌>>=◌ (lift y) (λ path. pure (some path)) k v) none h asked
          ≡ (ok none, asked))
        (sym e) refl

  write_tries_ok :
      (p : String)
      → h.text (write_heap_snapshot ∷ w.calls) ≡ ok p
      → write_tries (suc n) h w ≡ (ok (some p), record asked { self = false })
  unfolding write_tries
  write_tries_ok p e =
      ap (λ q. ◌>>=◌ (λ _ _. q) (after_try (write_tries n)) h w) (answered_ok _ p e)

  write_tries_err :
      (x : Error)
      → h.text (write_heap_snapshot ∷ w.calls) ≡ err x
      → write_tries (suc n) h w ≡ write_tries n h asked
  unfolding write_tries
  write_tries_err x e =
      ap (λ q. ◌>>=◌ (λ _ _. q) (after_try (write_tries n)) h w) (answered_err _ x e)

module _ (h : Host) where
  write_tries-IsTried :
      (n : ℕ) (w : World Bool) → IsTried n w (write_tries n h w).0 (write_tries n h w).1
  unfolding write_tries
  write_tries-IsTried zero w = record { outcome = inr (refl, refl); few = omega arith }
  write_tries-IsTried (suc n) w = elim (Result-cases (h.text (write_heap_snapshot ∷ w.calls))) [
    | inl (p, e) ↦
        rw (write_tries_ok h n w p e) (record { outcome = inl (p, refl, refl); few = omega arith })
    | inr (x, e) ↦
        let rest = write_tries-IsTried n (asked h n w) in
        rw (write_tries_err h n w x e)
          (record { outcome = rest.outcome; few = omega (arith, rest.few) })
  ]

  -- writeHeapSnapshop never throws and writes at most three times; it ends with a path and the flag
  -- cleared, or with `undefined` and the flag set.
  pub write_heap_snapshop_bounds :
      (w : World Bool)
      → (length (write_heap_snapshop h w).1.calls ≤ length w.calls + 3)
        × (((p : String) × ((write_heap_snapshop h w).0 ≡ ok (some p))
              × ((write_heap_snapshop h w).1.self ≡ false))
            ⊎ (((write_heap_snapshop h w).0 ≡ ok none) × ((write_heap_snapshop h w).1.self ≡ true)))
  unfolding write_heap_snapshop
  write_heap_snapshop_bounds w = elim (Bool-cases w.self) [
    | inl t ↦ rw t (omega arith, inr (refl, refl))
    | inr f ↦
        let rest = write_tries-IsTried 3 (record w { self = true }) in rw f (rest.few, rest.outcome)
  ]

  busy : (v : World Bool) → v.self ≡ true → write_heap_snapshop h v ≡ (ok none, v)
  unfolding write_heap_snapshop
  busy v t = ap (λ b. (if b then pure none else (put true >> write_tries 3)) h v) t

  -- If writeHeapSnapshop has returned `undefined`, so after three errors, then each later call in
  -- that process returns `undefined` and tries nothing: the flag stays set.
  pub write_heap_snapshop_stuck :
      (w : World Bool)
      → (write_heap_snapshop h w).0 ≡ ok none
      → write_heap_snapshop h (write_heap_snapshop h w).1 ≡ (ok none, (write_heap_snapshop h w).1)
  write_heap_snapshop_stuck w e = elim (write_heap_snapshop_bounds w).1 [
    | inl (p, there, f) ↦ cc
    | inr (n, t) ↦ busy (write_heap_snapshop h w).1 t
  ]
