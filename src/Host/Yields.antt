-- ===== src/Host/Yields.antt =====
-- Actions whose result is the same in every world: one rule for each way to build an action.
use cot_server.Base.{◌≡◌, refl, ap, sym, subst, ◌∙◌, Bool, true, false, ◌∷◌, if◌then◌else◌}
use cot_server.Host.Errors.{Result, ok, err, ◌then◌}
use cot_server.Host.Calls.{Call}
use cot_server.Host.Actions.{World, Host, History, Action, pure, lift, host, ask, ◌>>=◌}

-- Where the host is `h`, the result of `m` is `r`.
pub record Yields {S A : Type 0} (h : Host) (r : Result A) (m : Action S A) : Type 0 where
  pub at : (w : World S) → (m h w).0 ≡ r

module _ {S A : Type 0} {h : Host} where
  pub Yields-pure : (a : A) → Yields {S = S} h (ok a) (pure a)
  Yields-pure a = record { at = λ w. refl }

  pub Yields-lift : (r : Result A) → Yields {S = S} h r (lift r)
  Yields-lift r = record { at = λ w. refl }

  -- A call that is always answered in the same way.
  pub Yields-ask :
      (answer : Host → History → Result A) (c : Call) (r : Result A)
      → ((before : History) → answer h (c ∷ before) ≡ r)
      → Yields {S = S} h r (ask answer c)
  Yields-ask answer c r k = record { at = λ w. k w.calls }

  pub Yields-with_host :
      (f : Host → Action S A) (r : Result A) → Yields h r (f h) → Yields h r (host >>= f)
  Yields-with_host f r k = record { at = k.at }

  pub Yields-if :
      (b : Bool) (m n : Action S A) (r s : Result A)
      → Yields h r m
      → Yields h s n
      → Yields h (if b then r else s) (if b then m else n)
  Yields-if true m n r s km kn = km
  Yields-if false m n r s km kn = kn

module _ {S A B : Type 0} {h : Host} where
  continue :
      (f : A → Action S B) (g : A → Result B) (p : Result A) (v : World S)
      → ((a : A) → Yields h (g a) (f a))
      → (◌>>=◌ (lift p) f h v).0 ≡ (p then g)
  continue f g (ok a) v k = (k a).at v
  continue f g (err e) v k = refl

  continue_ok :
      (f : A → Action S B) (a : A) (s : Result B) (p : Result A) (v : World S)
      → p ≡ ok a
      → Yields h s (f a)
      → (◌>>=◌ (lift p) f h v).0 ≡ s
  continue_ok f a s p v e k = subst (λ x. (◌>>=◌ (lift x) f h v).0 ≡ s) (sym e) (k.at v)

  pub Yields-bind :
      (m : Action S A) (f : A → Action S B) (r : Result A) (g : A → Result B)
      → Yields h r m
      → ((a : A) → Yields h (g a) (f a))
      → Yields h (r then g) (m >>= f)
  Yields-bind m f r g km kf = record {
    at = λ w. let (p, v) = m h w in continue f g p v kf ∙ ap (λ x. x then g) (km.at w);
  }

  Yields-bind-ok :
      (m : Action S A) (f : A → Action S B) (a : A) (s : Result B)
      → Yields h (ok a) m
      → Yields h s (f a)
      → Yields h s (m >>= f)
  Yields-bind-ok m f a s km kf = record {
    at = λ w. let (p, v) = m h w in continue_ok f a s p v (km.at w) kf;
  }

  -- The same after a call that is always answered in the same way.
  pub Yields-asked :
      (answer : Host → History → Result A) (c : Call) (a : A) (f : A → Action S B) (s : Result B)
      → ((before : History) → answer h (c ∷ before) ≡ ok a)
      → Yields h s (f a)
      → Yields h s (ask answer c >>= f)
  Yields-asked answer c a f s k kf =
      Yields-bind-ok (ask answer c) f a s (Yields-ask answer c (ok a) k) kf

pub ruleset yields =
    (Yields-asked, Yields-with_host, Yields-bind, Yields-if, Yields-pure, Yields-lift)
