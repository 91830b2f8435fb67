-- ===== src/Base/Lists.antt =====
-- Lists measured by native numbers, and association lists for JavaScript objects and Maps.
use Prim.Native.Nat.{ℕ, suc, ◌+◌}
use Prim.Native.String.{String}
use mathlib.Core.Path.{◌≡◌, refl}
use mathlib.Core.Bool.{Bool, false, ◌||◌}
use mathlib.Core.Option.{Option, none, some}
use mathlib.Core.List.{List, [], ◌∷◌, ◌++◌}
use native.Mathlib.Omega.{arith}
use text.Mathlib.Text.{◌==◌ as str_eq}
use text.Mathlib.TextEquality.{eq_iff}
use cot_server.Base.Tests.{if◌then◌else◌}

module _ {ℓ} {A : Type ℓ} where
  abbrev pub length : List A → ℕ
  length [] = 0
  length (x ∷ xs) = suc (length xs)

  abbrev pub any : (A → Bool) → List A → Bool
  any p [] = false
  any p (x ∷ xs) = p x || any p xs

  pub length-append : (xs ys : List A) → length (xs ++ ys) ≡ length xs + length ys
  length-append [] ys = omega arith
  length-append (x ∷ xs) ys = omega (arith, length-append xs ys)

module _ {ℓ κ} {A : Type ℓ} (P : A → Type κ) where
  abbrev pub All : List A → Type κ
  All [] = Unit
  All (x ∷ xs) = P x × All xs

  pub All-append : (xs ys : List A) → All xs → All ys → All (xs ++ ys)
  All-append [] ys _ k = k
  All-append (x ∷ xs) ys (p, h) k = (p, All-append xs ys h k)

module _ {ℓ} {A : Type ℓ} where
  -- `obj[key]` and `map.get(key)`: what stands under a key, if the key is there.
  unfoldable pub lookup : (key : String) → List (String × A) → Option A
  lookup key [] = none
  lookup key ((name, found) ∷ rest) = if str_eq name key then some found else lookup key rest

  -- `obj[key] = value` and `map.set(key, value)`: a key keeps its place, a new one comes last.
  unfoldable pub insert : (key : String) (value : A) → List (String × A) → List (String × A)
  insert key value [] = (key, value) ∷ []
  insert key value ((name, old) ∷ rest) =
      if str_eq name key then (key, value) ∷ rest else (name, old) ∷ insert key value rest

  pub lookup-insert :
      (key wanted : String) (value : A) (entries : List (String × A))
      → lookup wanted (insert key value entries)
        ≡ (if str_eq key wanted then some value else lookup wanted entries)
  unfolding lookup insert
  lookup-insert key wanted value [] = refl
  lookup-insert key wanted value ((name, old) ∷ rest) = ground (
    arith,
    lookup-insert key wanted value rest,
    eq_iff name key,
    eq_iff name wanted,
    eq_iff key wanted,
  )

-- `includes` of a list of texts.
abbrev pub has : String → List String → Bool
has key keys = any (str_eq key) keys
