-- ===== src/Host/Answers.antt =====
-- What a result says of the answers that led to it: if an action that starts in a world returns, then
-- each of its calls has been answered, at the point of the history where it was made.
use cot_server.Base.{◌≡◌, refl, sym, subst, Bool, true, false, Option, none, some, ◌∷◌}
use cot_server.Host.Errors.{Error, Result, ok, err}
use cot_server.Host.Calls.{Call}
use cot_server.Host.Actions.{
  World, Host, History, Action, pure, lift, or_throw, host, throw_if, ask, ask_now, ◌>>=◌, ◌>>◌,
}
use cot_server.Host.Returns.{Post}

-- Where the host is `h` and the action `m` starts in `w`, a value that it returns has the property.
pub record Answered {ℓ} {S : Type 0} {A : Type ℓ} (h : Host) (Q : A → Type 0) (w : World S)
    (m : Action S A) : Type 0 where
  pub at : Post Q (m h w).0

module _ {ℓ} {S : Type 0} {A : Type ℓ} {h : Host} {Q : A → Type 0} {w : World S} where
  pub Answered-pure : (a : A) → Q a → Answered h Q w (pure a)
  Answered-pure a q = record { at = q }

  pub Answered-not_thrown :
      (b : Bool) (e : Error) (m : Action S A)
      → (b ≡ false → Answered h Q w m)
      → Answered h Q w (throw_if b e >> m)
  Answered-not_thrown true e m k = record { at = tt }
  Answered-not_thrown false e m k = record { at = (k refl).at }

  pub Answered-with_host :
      (f : Host → Action S A) → Answered h Q w (f h) → Answered h Q w (host >>= f)
  Answered-with_host f k = record { at = k.at }

pub Answered-value {ℓ} :
    {S : Type 0} {A : Type ℓ} (h : Host) (Q : A → Type 0) (w : World S) (m : Action S A) (a : A)
    → Answered h Q w m
    → (m h w).0 ≡ ok a
    → Q a
Answered-value h Q w m a k e = subst (Post Q) e k.at

module _ {S : Type 0} {h : Host} {Q : Unit {0} → Type 0} {w : World S} where
  pub Answered-passed : (b : Bool) (e : Error) → (b ≡ false → Q tt) → Answered h Q w (throw_if b e)
  Answered-passed true e k = record { at = tt }
  Answered-passed false e k = record { at = k refl }

module _ {ℓ κ} {S : Type 0} {A : Type ℓ} {B : Type κ} {h : Host} {Q : B → Type 0} where
  answered :
      (r : Result A) (f : A → Action S B) (v : World S)
      → ((a : A) → r ≡ ok a → Answered h Q v (f a))
      → Post Q (◌>>=◌ (lift r) f h v).0
  answered (ok a) f v k = (k a refl).at
  answered (err e) f v k = tt

module _ {ℓ κ} {S : Type 0} {A : Type ℓ} {B : Type κ} {h : Host} {Q : B → Type 0}
    {w : World S} where
  pub Answered-ask :
      (answer : Host → History → Result A) (c : Call) (f : A → Action S B)
      → ((a : A)
          → answer h (c ∷ w.calls) ≡ ok a
          → Answered h Q
              (record w { self = w.others (c ∷ w.calls) w.self; calls = c ∷ w.calls })
              (f a))
      → Answered h Q w (ask answer c >>= f)
  Answered-ask answer c f k = record { at = answered (answer h (c ∷ w.calls)) f _ k }

  pub Answered-ask_now :
      (answer : Host → History → Result A) (c : Call) (f : A → Action S B)
      → ((a : A)
          → answer h (c ∷ w.calls) ≡ ok a
          → Answered h Q (record w { calls = c ∷ w.calls }) (f a))
      → Answered h Q w (ask_now answer c >>= f)
  Answered-ask_now answer c f k = record { at = answered (answer h (c ∷ w.calls)) f _ k }

any_value {ℓ} : {A : Type ℓ} (Q : A → Type 0) (r : Result A) → ((a : A) → Q a) → Post Q r
any_value Q (ok a) q = q a
any_value Q (err e) q = tt

module _ {ℓ κ μ} {S : Type 0} {A : Type ℓ} {B : Type κ} {C : Type μ} where
  in_turn :
      (h : Host) (Q : C → Type 0) (r : Result A) (f : A → Action S B) (g : B → Action S C)
      (v : World S)
      → Post Q (◌>>=◌ (lift r) (λ a. f a >>= g) h v).0
      → Post Q (◌>>=◌ (lift r >>= f) g h v).0
  in_turn h Q (ok a) f g v p = p
  in_turn h Q (err e) f g v p = tt

  -- The steps of a method that is called are steps of the caller.
  pub Answered-steps :
      {h : Host} {Q : C → Type 0} {w : World S} (m : Action S A) (f : A → Action S B)
      (g : B → Action S C)
      → Answered h Q w (m >>= λ a. f a >>= g)
      → Answered h Q w ((m >>= f) >>= g)
  Answered-steps {h} {Q} {w} m f g k = record {
    at = let (r, v) = m h w in in_turn h Q r f g v k.at;
  }

-- A property that all values have needs no look at the action.
pub Answered-always {ℓ} :
    {S : Type 0} {A : Type ℓ} {h : Host} {Q : A → Type 0} {w : World S} (m : Action S A)
    → ((a : A) → Q a)
    → Answered h Q w m
Answered-always m q = record { at = any_value _ (m _ _).0 q }

-- After a check in a method that is called.
pub Answered-checked {ℓ} :
    {S : Type 0} {A : Type ℓ} {h : Host} {Q : A → Type 0} {w : World S} (b : Bool) (e : Error)
    (f : Unit {0} → Action S A)
    → (b ≡ false → Answered h Q w (f tt))
    → Answered h Q w (throw_if b e >>= f)
Answered-checked true e f k = record { at = tt }
Answered-checked false e f k = record { at = (k refl).at }

-- After an optional value that is there.
pub Answered-found {ℓ κ} :
    {S : Type 0} {A : Type ℓ} {B : Type κ} {h : Host} {Q : B → Type 0} {w : World S} (o : Option A)
    (e : Error) (f : A → Action S B)
    → ((a : A) → o ≡ some a → Answered h Q w (f a))
    → Answered h Q w (or_throw o e >>= f)
Answered-found none e f k = record { at = tt }
Answered-found (some a) e f k = record { at = (k a refl).at }

pub ruleset answers = (
  Answered-pure, Answered-not_thrown, Answered-with_host, Answered-passed, Answered-ask,
  Answered-ask_now, Answered-steps, Answered-checked, Answered-found,
)

module _ {ℓ κ} {S : Type 0} {A : Type ℓ} {B : Type κ} where
  continues :
      (f : A → Action S B) (h : Host) (r : Result A) (v : World S) (a : A)
      → r ≡ ok a
      → ◌>>=◌ (lift r) f h v ≡ f a h v
  continues f h r v a e = subst (λ x. ◌>>=◌ (lift x) f h v ≡ f a h v) (sym e) refl

  -- An action that returns goes on from the world that it leaves.
  pub run-bind :
      (m : Action S A) (f : A → Action S B) (h : Host) (w : World S) (a : A)
      → (m h w).0 ≡ ok a
      → ◌>>=◌ m f h w ≡ f a h (m h w).1
  run-bind m f h w a e = continues f h (m h w).0 (m h w).1 a e

  stops :
      (f : A → Action S B) (h : Host) (r : Result A) (v : World S) (e : Error)
      → r ≡ err e
      → ◌>>=◌ (lift r) f h v ≡ (err e, v)
  stops f h r v e p = subst (λ x. ◌>>=◌ (lift x) f h v ≡ (err e, v)) (sym p) refl

  -- An action that throws is the end.
  pub run-throw :
      (m : Action S A) (f : A → Action S B) (h : Host) (w : World S) (e : Error)
      → (m h w).0 ≡ err e
      → ◌>>=◌ m f h w ≡ (err e, (m h w).1)
  run-throw m f h w e p = stops f h (m h w).0 (m h w).1 e p
