-- ===== src/Host/Returns.antt =====
-- What holds of the result of an action, if it returns: one rule for each way to build an action,
-- and the rule by which the calls that follow may rest on it.
use cot_server.Base.{◌≡◌, refl, subst, Bool, true, false, Option, none, some, if◌then◌else◌}
use cot_server.Host.Errors.{Error, Result, ok, err, ◌then◌}
use cot_server.Host.Calls.{Call}
use cot_server.Host.Actions.{
  World, Host, Action, pure, throw, lift, or_throw, host, throw_if, ◌>>=◌, ◌>>◌,
}
use cot_server.Host.Keeps.{CallsOnly, Since, Since-trans, unchanged}

abbrev pub Post {ℓ} : {A : Type ℓ} → (A → Type 0) → Result A → Type 0
Post Q (ok a) = Q a
Post Q (err _) = Unit

-- Where the host is `h`, each value that `m` returns has the property `Q`.
pub record Returns {ℓ} {S : Type 0} {A : Type ℓ} (h : Host) (Q : A → Type 0) (m : Action S A)
    : Type 0 where
  pub at : (w : World S) → Post Q (m h w).0

module _ {ℓ} {S : Type 0} {A : Type ℓ} {h : Host} {Q : A → Type 0} where
  pub Returns-pure : (a : A) → Q a → Returns {S = S} h Q (pure a)
  Returns-pure a q = record { at = λ w. q }

  pub Returns-throw : (e : Error) → Returns {S = S} h Q (throw e)
  Returns-throw e = record { at = λ w. tt }

  pub Returns-if :
      (b : Bool) (m n : Action S A)
      → (b ≡ true → Returns h Q m)
      → (b ≡ false → Returns h Q n)
      → Returns h Q (if b then m else n)
  Returns-if true m n km kn = km refl
  Returns-if false m n km kn = kn refl

  pub Returns-with_host : (f : Host → Action S A) → Returns h Q (f h) → Returns h Q (host >>= f)
  Returns-with_host f k = record { at = k.at }

  pub Returns-not_thrown :
      (b : Bool) (e : Error) (m : Action S A)
      → (b ≡ false → Returns h Q m)
      → Returns h Q (throw_if b e >> m)
  Returns-not_thrown true e m k = record { at = λ w. tt }
  Returns-not_thrown false e m k = record { at = λ w. (k refl).at w }

any-Post {ℓ} : {A : Type ℓ} (r : Result A) → Post (λ _. Unit {0}) r
any-Post (ok a) = tt
any-Post (err e) = tt

module _ {ℓ κ} {S : Type 0} {A : Type ℓ} {B : Type κ} {h : Host} {Q : B → Type 0} where
  continue-Post :
      (R : A → Type 0) (f : A → Action S B) (r : Result A) (w : World S)
      → Post R r
      → ((a : A) → R a → Returns h Q (f a))
      → Post Q (◌>>=◌ (lift r) f h w).0
  continue-Post R f (ok a) w p k = (k a p).at w
  continue-Post R f (err e) w p k = tt

  pub Returns-bind :
      (m : Action S A) (f : A → Action S B) → ((a : A) → Returns h Q (f a)) → Returns h Q (m >>= f)
  Returns-bind m f k = record {
    at = λ w. let (r, w') = m h w in continue-Post (λ _. Unit {0}) f r w' (any-Post r) (λ a _. k a);
  }

  pub Returns-after :
      (R : A → Type 0) (m : Action S A) (f : A → Action S B)
      → Returns h R m
      → ((a : A) → R a → Returns h Q (f a))
      → Returns h Q (m >>= f)
  Returns-after R m f p k = record {
    at = λ w. let (r, w') = m h w in continue-Post R f r w' (p.at w) k;
  }

  pub Returns-checked :
      (r : Result A) (f : A → Action S B)
      → ((a : A) → r ≡ ok a → Returns h Q (f a))
      → Returns h Q (lift r >>= f)
  Returns-checked (ok a) f k = record { at = λ w. (k a refl).at w }
  Returns-checked (err e) f k = record { at = λ w. tt }

  pub Returns-found :
      (o : Option A) (e : Error) (f : A → Action S B)
      → ((a : A) → o ≡ some a → Returns h Q (f a))
      → Returns h Q (or_throw o e >>= f)
  Returns-found none e f k = record { at = λ w. tt }
  Returns-found (some a) e f k = record { at = λ w. (k a refl).at w }

always-Post {ℓ} : {A : Type ℓ} (Q : A → Type 0) (r : Result A) → ((a : A) → Q a) → Post Q r
always-Post Q (ok a) q = q a
always-Post Q (err e) q = tt

-- A property that all values have needs no look at the action.
pub Returns-always {ℓ} :
    {S : Type 0} {A : Type ℓ} {h : Host} {Q : A → Type 0} (m : Action S A)
    → ((a : A) → Q a)
    → Returns h Q m
Returns-always {Q = Q} m q = record { at = λ w. always-Post Q (m _ w).0 q }

weaker {ℓ} :
    {A : Type ℓ} {Q R : A → Type 0} (r : Result A) → ((a : A) → Q a → R a) → Post Q r → Post R r
weaker (ok a) f p = f a p
weaker (err e) f p = tt

pub Returns-map {ℓ} :
    {S : Type 0} {A : Type ℓ} {h : Host} {Q R : A → Type 0} (m : Action S A)
    → ((a : A) → Q a → R a)
    → Returns h Q m
    → Returns h R m
Returns-map m f k = record { at = λ w. weaker (m _ w).0 f (k.at w) }

pub ruleset returns = (
  Returns-checked, Returns-found, Returns-not_thrown, Returns-with_host, Returns-pure,
  Returns-throw, Returns-if, Returns-bind,
)

module _ {ℓ κ} {S : Type 0} {A : Type ℓ} {B : Type κ} {h : Host} {P : Call → Type 0} where
  continue-Since :
      (R : A → Type 0) (f : A → Action S B) (r : Result A) (w : World S)
      → Post R r
      → ((a : A) → R a → CallsOnly h P (f a))
      → Since P w.calls (◌>>=◌ (lift r) f h w).1.calls
  continue-Since R f (ok a) w p k = (k a p).at w
  continue-Since R f (err e) w p k = unchanged

  pub CallsOnly-after :
      (R : A → Type 0) (m : Action S A) (f : A → Action S B)
      → CallsOnly h P m
      → Returns h R m
      → ((a : A) → R a → CallsOnly h P (f a))
      → CallsOnly h P (m >>= f)
  CallsOnly-after R m f km p k = record {
    at = λ w. let (r, w') = m h w in Since-trans (km.at w) (continue-Since R f r w' (p.at w) k);
  }

-- What holds of the value of a result, if it has one.
pub record Gives {A : Type 0} (Q : A → Type 0) (r : Result A) : Type 0 where
  pub value : Post Q r

module _ {A : Type 0} {Q : A → Type 0} where
  pub Gives-ok : (a : A) → Q a → Gives Q (ok a)
  Gives-ok a q = record { value = q }

  pub Gives-err : (e : Error) → Gives Q (err e)
  Gives-err e = record { value = tt }

  pub Gives-if :
      (b : Bool) (r s : Result A)
      → (b ≡ true → Gives Q r)
      → (b ≡ false → Gives Q s)
      → Gives Q (if b then r else s)
  Gives-if true r s kr ks = kr refl
  Gives-if false r s kr ks = ks refl

pub Gives-value : {A : Type 0} (Q : A → Type 0) (r : Result A) (a : A) → Gives Q r → r ≡ ok a → Q a
Gives-value Q r a g e = (subst (Gives Q) e g).value

module _ {A B : Type 0} {Q : B → Type 0} where
  pub Gives-then :
      (r : Result A) (f : A → Result B) → ((a : A) → r ≡ ok a → Gives Q (f a)) → Gives Q (r then f)
  Gives-then (ok a) f k = k a refl
  Gives-then (err e) f k = record { value = tt }

pub Gives-map :
    {A : Type 0} {Q R : A → Type 0} (r : Result A) → ((a : A) → Q a → R a) → Gives Q r → Gives R r
Gives-map (ok a) f g = record { value = f a g.value }
Gives-map (err e) f g = record { value = tt }

pub ruleset gives = (Gives-ok, Gives-err, Gives-if, Gives-then)
