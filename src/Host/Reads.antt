-- ===== src/Host/Reads.antt =====
-- The answer of the host behind a value that an action goes on with.
use cot_server.Base.{◌≡◌, refl, ◌∷◌}
use cot_server.Host.Errors.{Result, ok, err}
use cot_server.Host.Calls.{Call}
use cot_server.Host.Actions.{World, Host, History, Action, lift, ask, ◌>>=◌}
use cot_server.Host.Returns.{Post, Returns}

-- The call has been answered with this value, after some calls.
abbrev pub Read : {A : Type 0} → (History → Result A) → Call → A → Type 0
Read answer c a = (before : History) × (answer (c ∷ before) ≡ ok a)

module _ {ℓ} {S A : Type 0} {B : Type ℓ} {h : Host} {Q : B → Type 0} where
  answered :
      (f : A → Action S B) (r : Result A) (w : World S)
      → ((a : A) → r ≡ ok a → Returns h Q (f a))
      → Post Q (◌>>=◌ (lift r) f h w).0
  answered f (ok a) w k = (k a refl).at w
  answered f (err e) w k = tt

  -- What follows may rest on the answer.
  pub Returns-Read :
      (answer : Host → History → Result A) (c : Call) (f : A → Action S B)
      → ((a : A) → Read (answer h) c a → Returns h Q (f a))
      → Returns h Q (ask answer c >>= f)
  Returns-Read answer c f k = record {
    at = λ w. answered f (answer h (c ∷ w.calls)) (ask answer c h w).1 (λ a e. k a (w.calls, e));
  }

asked :
    {A : Type 0} (answer : History → Result A) (c : Call) (before : History) (r : Result A)
    → answer (c ∷ before) ≡ r
    → Post (Read answer c) r
asked answer c before (ok a) e = (before, e)
asked answer c before (err x) e = tt

-- What a call returns is its answer.
pub Returns-asked :
    {S A : Type 0} {h : Host} (answer : Host → History → Result A) (c : Call)
    → Returns {S = S} h (Read (answer h) c) (ask answer c)
Returns-asked {h = h} answer c = record { at = λ w. asked (answer h) c w.calls _ refl }
