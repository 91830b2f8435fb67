-- ===== src/Verify/Sorting.antt =====
-- Texts without repetition, and their order: the lemmas on `unique` and `sort`.
use cot_server.Base.{
  ◌≡◌, refl, sym, ap, ◌∙◌, Bool, true, false, not, ◌&&◌, ◌||◌, String, List, [], ◌∷◌, has, All,
  str_eq, str_eq_self, eq_iff, Bool-cases, inl, inr, subst, arith,
}
use cot_server.Verify.AuthInfos.{remove, unique, sorted_insert, sort}

-- No text stands twice.
abbrev pub IsUnique : List String → Type 0
IsUnique [] = Unit
IsUnique (x ∷ xs) = (has x xs ≡ false) × IsUnique xs

has-remove :
    (k x : String) (xs : List String) → has k (remove x xs) ≡ (has k xs && not (str_eq x k))
unfolding remove
has-remove k x [] = refl
has-remove k x (y ∷ ys) = ground (arith, has-remove k x ys, eq_iff x y, eq_iff k y, eq_iff x k)

remove-IsUnique : (x : String) (xs : List String) → IsUnique xs → IsUnique (remove x xs)
unfolding remove
remove-IsUnique x [] u = tt
remove-IsUnique x (y ∷ ys) (n, u) = elim (Bool-cases (str_eq x y)) [
  | inl t ↦ rw t (remove-IsUnique x ys u)
  | inr f ↦ rw f (has-remove y x ys ∙ ground (arith, n), remove-IsUnique x ys u)
]

pub unique-IsUnique : (xs : List String) → IsUnique (unique xs)
unfolding unique
unique-IsUnique [] = tt
unique-IsUnique (x ∷ xs) = (
  has-remove x x (unique xs) ∙ ground (arith, str_eq_self x),
  remove-IsUnique x (unique xs) (unique-IsUnique xs),
)

module _ (leq : String → String → Bool) where
  abbrev pub IsSorted : List String → Type 0
  IsSorted [] = Unit
  IsSorted (x ∷ xs) = All (λ y. leq x y ≡ true) xs × IsSorted xs

  has-sorted_insert :
      (k x : String) (xs : List String) → has k (sorted_insert leq x xs) ≡ has k (x ∷ xs)
  unfolding sorted_insert
  has-sorted_insert k x [] = refl
  has-sorted_insert k x (y ∷ ys) = ground (arith, has-sorted_insert k x ys)

  has-sort : (k : String) (xs : List String) → has k (sort leq xs) ≡ has k xs
  unfolding sort
  has-sort k [] = refl
  has-sort k (x ∷ xs) =
      has-sorted_insert k x (sort leq xs) ∙ ap (λ b. str_eq k x || b) (has-sort k xs)

  sorted_insert-IsUnique :
      (x : String) (xs : List String)
      → has x xs ≡ false
      → IsUnique xs
      → IsUnique (sorted_insert leq x xs)
  unfolding sorted_insert
  sorted_insert-IsUnique x [] n u = (n, tt)
  sorted_insert-IsUnique x (y ∷ ys) n (m, u) = elim (Bool-cases (leq x y)) [
    | inl t ↦ rw t (n, (m, u))
    | inr f ↦ rw f (
      has-sorted_insert y x ys ∙ ground (arith, n, m, eq_iff x y, eq_iff y x),
      sorted_insert-IsUnique x ys (ground (arith, n)) u,
    )
  ]

  pub sort-IsUnique : (xs : List String) → IsUnique xs → IsUnique (sort leq xs)
  unfolding sort
  sort-IsUnique [] u = tt
  sort-IsUnique (x ∷ xs) (n, u) =
      sorted_insert-IsUnique x (sort leq xs) (has-sort x xs ∙ n) (sort-IsUnique xs u)

module _ (leq : String → String → Bool) (total : (a b : String) → leq a b ≡ false → leq b a ≡ true)
    (transitive : (a b c : String) → leq a b ≡ true → leq b c ≡ true → leq a c ≡ true) where
  All-later :
      (x y : String) (ys : List String)
      → leq x y ≡ true
      → All (λ z. leq y z ≡ true) ys
      → All (λ z. leq x z ≡ true) ys
  All-later x y [] e h = tt
  All-later x y (z ∷ ys) e (p, h) = (transitive x y z e p, All-later x y ys e h)

  All-sorted_insert :
      (P : String → Type 0) (x : String) (xs : List String)
      → P x
      → All P xs
      → All P (sorted_insert leq x xs)
  unfolding sorted_insert
  All-sorted_insert P x [] p h = (p, tt)
  All-sorted_insert P x (y ∷ ys) p (q, h) = elim (Bool-cases (leq x y)) [
    | inl t ↦ rw t (p, (q, h))
    | inr f ↦ rw f (q, All-sorted_insert P x ys p h)
  ]

  sorted_insert-IsSorted :
      (x : String) (xs : List String) → IsSorted leq xs → IsSorted leq (sorted_insert leq x xs)
  unfolding sorted_insert
  sorted_insert-IsSorted x [] s = (tt, tt)
  sorted_insert-IsSorted x (y ∷ ys) (h, s) = elim (Bool-cases (leq x y)) [
    | inl t ↦ rw t ((t, All-later x y ys t h), (h, s))
    | inr f ↦ rw f (
      All-sorted_insert (λ z. leq y z ≡ true) x ys (total x y f) h,
      sorted_insert-IsSorted x ys s,
    )
  ]

  pub sort-IsSorted : (xs : List String) → IsSorted leq (sort leq xs)
  unfolding sort
  sort-IsSorted [] = tt
  sort-IsSorted (x ∷ xs) = sorted_insert-IsSorted x (sort leq xs) (sort-IsSorted xs)

pub All-has :
    (P : String → Type 0) (k : String) (xs : List String) → All P xs → has k xs ≡ true → P k
All-has P k [] h e = absurd (ground (arith, e))
All-has P k (x ∷ xs) (p, h) e = elim (Bool-cases (str_eq k x)) [
  | inl t ↦ subst P (sym ((eq_iff k x).0 t)) p
  | inr f ↦ All-has P k xs h (ground (arith, e, f))
]
