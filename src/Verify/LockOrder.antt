-- ===== src/Verify/LockOrder.antt =====
-- Requests take the locks that they have in common in the same order.
use cot_server.Base.{
  ◌≡◌, sym, Bool, true, false, String, List, [], ◌∷◌, map, has, str_eq, eq_iff, Bool-cases, inl,
  inr, subst, arith, if◌then◌else◌,
}
use cot_server.Host.{Host}
use cot_server.Verify.AuthInfos.{
  AuthInfo, get_token_lock_key, token_lock_keys, get_all_token_lock_key,
}
use cot_server.Verify.Sorting.{
  IsUnique, IsSorted, All-has, unique-IsUnique, sort-IsUnique, sort-IsSorted,
}

-- The first text comes before the second.
abbrev pub before : String → String → List String → Bool
before a b [] = false
before a b (x ∷ xs) = if str_eq x a then has b xs else before a b xs

module _ (leq : String → String → Bool) where
  -- In a sorted list the first text is not above the second, and they differ if none stands twice.
  before-leq :
      (a b : String) (xs : List String)
      → IsSorted leq xs
      → IsUnique xs
      → before a b xs ≡ true
      → (leq a b ≡ true) × (str_eq a b ≡ false)
  before-leq a b [] s u e = absurd (ground (arith, e))
  before-leq a b (x ∷ xs) (h, s) (n, u) e = elim (Bool-cases (str_eq x a)) [
    | inl t ↦
        let p = All-has (λ y. leq x y ≡ true) b xs h (ground (arith, e, t)) in
        (
          subst (λ y. leq y b ≡ true) ((eq_iff x a).0 t) p,
          ground (arith, e, t, n, eq_iff x a, eq_iff a b),
        )
    | inr f ↦ before-leq a b xs s u (ground (arith, e, f))
  ]

  leq-before :
      (a b : String) (xs : List String)
      → IsSorted leq xs
      → str_eq a b ≡ false
      → (leq b a ≡ true → a ≡ b)
      → has a xs ≡ true
      → has b xs ≡ true
      → before a b xs ≡ true
  leq-before a b [] s d anti p q = absurd (ground (arith, p))
  leq-before a b (x ∷ xs) (h, s) d anti p q = elim (Bool-cases (str_eq x a)) [
    | inl t ↦ rw t (ground (arith, q, t, d, eq_iff x a, eq_iff a b, eq_iff b x))
    | inr f ↦ elim (Bool-cases (str_eq b x)) [
      | inl t ↦
          let k =
            All-has (λ y. leq x y ≡ true) a xs h (ground (arith, p, f, eq_iff a x, eq_iff x a)) in
          let e = anti (subst (λ y. leq y a ≡ true) (sym ((eq_iff b x).0 t)) k) in
          absurd (ground (arith, d, (eq_iff a b).1 e))
      | inr g ↦ rw f (
          leq-before a b xs s d anti (ground (arith, p, f, eq_iff a x, eq_iff x a))
            (ground (arith, q, g)))
    ]
  ]

module _ (h : Host) (total : (a b : String) → h.locale_leq a b ≡ false → h.locale_leq b a ≡ true)
    (transitive : (a b c : String)
      → h.locale_leq a b ≡ true
      → h.locale_leq b c ≡ true
      → h.locale_leq a c ≡ true) where
  keys-IsSorted :
      (d : String) (infos : List AuthInfo)
      → IsSorted h.locale_leq (get_all_token_lock_key h d infos)
  unfolding get_all_token_lock_key
  keys-IsSorted d infos = sort-IsSorted h.locale_leq total transitive (token_lock_keys d infos)

  keys_differ : (d : String) (infos : List AuthInfo) → IsUnique (token_lock_keys d infos)
  unfolding token_lock_keys
  keys_differ d infos =
      unique-IsUnique (get_token_lock_key d ∷ map (λ v. get_token_lock_key v.address) infos)

  keys-IsUnique : (d : String) (infos : List AuthInfo) → IsUnique (get_all_token_lock_key h d infos)
  unfolding get_all_token_lock_key
  keys-IsUnique d infos = sort-IsUnique h.locale_leq (token_lock_keys d infos) (keys_differ d infos)

  -- If localeCompare is a total order, two requests for a token take two locks that both need in the
  -- same order, whatever the order of their addresses, unless localeCompare cannot tell the two
  -- keys apart.
  pub get_all_token_lock_key-SameOrder :
      (d e : String) (infos others : List AuthInfo) (a b : String)
      → (h.locale_leq a b ≡ true → h.locale_leq b a ≡ true → a ≡ b)
      → before a b (get_all_token_lock_key h d infos) ≡ true
      → has a (get_all_token_lock_key h e others) ≡ true
      → has b (get_all_token_lock_key h e others) ≡ true
      → before a b (get_all_token_lock_key h e others) ≡ true
  get_all_token_lock_key-SameOrder d e infos others a b anti p m n =
      let (l, u) =
        before-leq h.locale_leq a b (get_all_token_lock_key h d infos) (keys-IsSorted d infos)
          (keys-IsUnique d infos) p in
      leq-before h.locale_leq a b (get_all_token_lock_key h e others) (keys-IsSorted e others) u
        (anti l) m n
