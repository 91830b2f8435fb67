-- ===== src/Host/Keeps.antt =====
-- What can be said of the calls of an action: whatever the host answers, whatever other methods do
-- in the meantime, and whether the action returns or throws, each call that it adds has a property.
-- One rule for each way to build an action.
use cot_server.Base.{◌≡◌, refl, Bool, true, false, Option, none, some, ◌∷◌, All, if◌then◌else◌}
use cot_server.Host.Errors.{Error, Result, ok, err}
use cot_server.Host.Calls.{Call}
use cot_server.Host.Actions.{
  World, Host, History, Action, pure, throw, lift, or_throw, host, get, put, throw_if, ask_now, ask,
  when, ◌>>=◌, ◌>>◌, catch_rethrow, catch_with,
}

-- The calls made after `before`, up to the index, all have the property `P`.
pub data Since (P : Call → Type 0) (before : History) : History → Type 0 where
  unchanged : Since P before before
  added : {h : History} (c : Call) → P c → Since P before h → Since P before (c ∷ h)

module _ {P : Call → Type 0} where
  pub Since-trans : {a b c : History} → Since P a b → Since P b c → Since P a c
  Since-trans p unchanged = p
  Since-trans p (added c x q) = added c x (Since-trans p q)

  pub Since-map :
      {Q : Call → Type 0} {a b : History} → ((c : Call) → P c → Q c) → Since P a b → Since Q a b
  Since-map f unchanged = unchanged
  Since-map f (added c x q) = added c (f c x) (Since-map f q)

  -- From no call at all, it is a property of all calls.
  pub Since-All : {a b : History} → Since P a b → All P a → All P b
  Since-All unchanged k = k
  Since-All (added c x q) k = (x, Since-All q k)

-- Where the host is `h`, `m` makes only calls with the property `P`.
pub record CallsOnly {ℓ} {S : Type 0} {A : Type ℓ} (h : Host) (P : Call → Type 0) (m : Action S A)
    : Type 0 where
  pub at : (w : World S) → Since P w.calls (m h w).1.calls

module _ {ℓ} {S : Type 0} {A : Type ℓ} {h : Host} {P : Call → Type 0} where
  pub CallsOnly-pure : (a : A) → CallsOnly {S = S} h P (pure a)
  CallsOnly-pure a = record { at = λ w. unchanged }

  pub CallsOnly-throw : (e : Error) → CallsOnly {S = S} {A = A} h P (throw e)
  CallsOnly-throw e = record { at = λ w. unchanged }

  pub CallsOnly-lift : (r : Result A) → CallsOnly {S = S} h P (lift r)
  CallsOnly-lift r = record { at = λ w. unchanged }

  pub CallsOnly-or_throw : (o : Option A) (e : Error) → CallsOnly {S = S} h P (or_throw o e)
  CallsOnly-or_throw none e = record { at = λ w. unchanged }
  CallsOnly-or_throw (some a) e = record { at = λ w. unchanged }

  pub CallsOnly-ask :
      (answer : Host → History → Result A) (c : Call) → P c → CallsOnly {S = S} h P (ask answer c)
  CallsOnly-ask answer c p = record { at = λ w. added c p unchanged }

  pub CallsOnly-ask_now :
      (answer : Host → History → Result A) (c : Call)
      → P c
      → CallsOnly {S = S} h P (ask_now answer c)
  CallsOnly-ask_now answer c p = record { at = λ w. added c p unchanged }

  pub CallsOnly-if :
      (b : Bool) (m n : Action S A)
      → (b ≡ true → CallsOnly h P m)
      → (b ≡ false → CallsOnly h P n)
      → CallsOnly h P (if b then m else n)
  CallsOnly-if true m n km kn = km refl
  CallsOnly-if false m n km kn = kn refl

module _ {ℓ} {S : Type 0} {A : Type ℓ} {h : Host} {P : Call → Type 0} where
  -- Reading the host gives `h`.
  pub CallsOnly-with_host :
      (f : Host → Action S A) → CallsOnly h P (f h) → CallsOnly h P (host >>= f)
  CallsOnly-with_host f k = record { at = k.at }

module _ {S : Type 0} {h : Host} {P : Call → Type 0} where
  pub CallsOnly-get : CallsOnly {S = S} h P get
  CallsOnly-get = record { at = λ w. unchanged }

  pub CallsOnly-put : (s : S) → CallsOnly h P (put s)
  CallsOnly-put s = record { at = λ w. unchanged }

  pub CallsOnly-throw_if : (b : Bool) (e : Error) → CallsOnly {S = S} h P (throw_if b e)
  CallsOnly-throw_if b e = record { at = λ w. unchanged }

  pub CallsOnly-when :
      (b : Bool) (m : Action S (Unit {0})) → CallsOnly h P m → CallsOnly h P (when b m)
  CallsOnly-when true m k = k
  CallsOnly-when false m k = record { at = λ w. unchanged }

module _ {ℓ κ} {S : Type 0} {A : Type ℓ} {B : Type κ} {h : Host} {P : Call → Type 0} where
  continue-Since :
      (f : A → Action S B) (r : Result A) (w : World S)
      → ((a : A) → r ≡ ok a → CallsOnly h P (f a))
      → Since P w.calls (◌>>=◌ (lift r) f h w).1.calls
  continue-Since f (ok a) w k = (k a refl).at w
  continue-Since f (err e) w k = unchanged

  pub CallsOnly-bind :
      (m : Action S A) (f : A → Action S B)
      → CallsOnly h P m
      → ((a : A) → CallsOnly h P (f a))
      → CallsOnly h P (m >>= f)
  CallsOnly-bind m f km kf = record {
    at = λ w. let (r, w') = m h w in Since-trans (km.at w) (continue-Since f r w' (λ a _. kf a));
  }

  -- The calls that follow a call.
  pub after_call-Since :
      (answer : Host → History → Result A) (c : Call) (f : A → Action S B) (w : World S)
      → ((a : A) → CallsOnly h P (f a))
      → Since P (c ∷ w.calls) (◌>>=◌ (ask answer c) f h w).1.calls
  after_call-Since answer c f w k = continue-Since f (answer h (c ∷ w.calls)) _ (λ a _. k a)

  -- After a check that has passed.
  pub CallsOnly-checked :
      (r : Result A) (f : A → Action S B)
      → ((a : A) → r ≡ ok a → CallsOnly h P (f a))
      → CallsOnly h P (lift r >>= f)
  CallsOnly-checked r f k = record { at = λ w. continue-Since f r w k }

module _ {ℓ} {S : Type 0} {B : Type ℓ} {h : Host} {P : Call → Type 0} where
  pub CallsOnly-not_thrown :
      (b : Bool) (e : Error) (m : Action S B)
      → (b ≡ false → CallsOnly h P m)
      → CallsOnly h P (throw_if b e >> m)
  CallsOnly-not_thrown true e m k = record { at = λ w. unchanged }
  CallsOnly-not_thrown false e m k = k refl

module _ {ℓ} {S : Type 0} {A : Type ℓ} {P : Call → Type 0} where
  with-Since :
      (a : A) (k : Host) (r : Result A) (w : World S)
      → Since P w.calls (catch_with (λ _ v. (r, v)) a k w).1.calls
  with-Since a k (ok b) w = unchanged
  with-Since a k (err e) w = unchanged

module _ {ℓ} {S : Type 0} {A : Type ℓ} {h : Host} {P : Call → Type 0} where
  rethrow-Since :
      (handler : Action S (Unit {0})) (r : Result A) (w : World S)
      → CallsOnly h P handler
      → Since P w.calls (catch_rethrow (λ _ v. (r, v)) handler h w).1.calls
  rethrow-Since handler (ok a) w k = unchanged
  rethrow-Since handler (err e) w k =
      (CallsOnly-bind handler (λ _. throw {A = A} e) k (λ _. CallsOnly-throw e)).at w

  pub CallsOnly-catch_rethrow :
      (m : Action S A) (handler : Action S (Unit {0}))
      → CallsOnly h P m
      → CallsOnly h P handler
      → CallsOnly h P (catch_rethrow m handler)
  CallsOnly-catch_rethrow m handler km kh = record {
    at = λ w. let (r, w') = m h w in Since-trans (km.at w) (rethrow-Since handler r w' kh);
  }

  pub CallsOnly-catch_with :
      (m : Action S A) (a : A) → CallsOnly h P m → CallsOnly h P (catch_with m a)
  CallsOnly-catch_with m a km = record {
    at = λ w. let (r, w') = m h w in Since-trans (km.at w) (with-Since a h r w');
  }

pub CallsOnly-map {ℓ} :
    {S : Type 0} {A : Type ℓ} {h : Host} {P Q : Call → Type 0} (m : Action S A)
    → ((c : Call) → P c → Q c)
    → CallsOnly h P m
    → CallsOnly h Q m
CallsOnly-map m f k = record { at = λ w. Since-map f (k.at w) }

-- After an optional value that is there.
pub CallsOnly-found {ℓ κ} :
    {S : Type 0} {A : Type ℓ} {B : Type κ} {h : Host} {P : Call → Type 0} (o : Option A) (e : Error)
    (f : A → Action S B)
    → ((a : A) → o ≡ some a → CallsOnly h P (f a))
    → CallsOnly h P (or_throw o e >>= f)
CallsOnly-found none e f k = record { at = λ w. unchanged }
CallsOnly-found (some a) e f k = record { at = (k a refl).at }

-- A call that depends on a test.
pub CallsOnly-ask_if {ℓ} :
    {S : Type 0} {A : Type ℓ} {h : Host} {P : Call → Type 0} (answer : Host → History → Result A)
    (b : Bool) (c d : Call)
    → P c
    → P d
    → CallsOnly {S = S} h P (ask answer (if b then c else d))
CallsOnly-ask_if answer true c d p q = CallsOnly-ask answer c p
CallsOnly-ask_if answer false c d p q = CallsOnly-ask answer d q

pub ruleset calls_only = (
  CallsOnly-pure, CallsOnly-throw, CallsOnly-lift, CallsOnly-or_throw, CallsOnly-ask,
  CallsOnly-ask_now, CallsOnly-if, CallsOnly-with_host, CallsOnly-get, CallsOnly-put,
  CallsOnly-throw_if, CallsOnly-when, CallsOnly-bind, CallsOnly-catch_rethrow, CallsOnly-catch_with,
  CallsOnly-ask_if,
)
