-- ===== src/ConfigUpgrade/Versions.antt =====
-- Which upgrades are done.
use cot_server.Base.{
  ◌≡◌, refl, ap, ◌∙◌, sym, ℕ, ◌≤◌, ◌<◌, suc, zero, String, true, false, Option, none, some, List,
  [], ◌∷◌, arith, Bool-cases, inl, inr, All, subst, ltb, if◌then◌else◌,
}
use mathlib.Core.Path.{fun_ext}
use cot_server.Host.{Result, ok}
use cot_server.ConfigUpgrade.{
  StaticConfig, VersionArray, Upgrade, versions_array, method_of, is_older, upgrade_to,
  unless_thrown, upgrade_loop, upgrade,
}

-- The versions that are newer than the one at the start.
pub due : Option ℕ → List VersionArray → List VersionArray
due version [] = []
due version (v ∷ rest) =
    if is_older version v.version then v ∷ due version rest else due version rest

-- All upgrades of a list, one after the other; a method that is missing is the end.
pub run_all :
    (String → Option (StaticConfig → StaticConfig))
    → List VersionArray
    → Upgrade
    → Result (Unit {0}) × Upgrade
run_all methods [] u = (ok tt, u)
run_all methods (v ∷ rest) u =
    unless_thrown (upgrade_to v.version (methods v.method) u) (run_all methods rest)

-- Each version is newer than all before it.
abbrev pub IsAscending : List VersionArray → Type 0
IsAscending [] = Unit
IsAscending (v ∷ rest) = All (λ w. v.version < w.version) rest × IsAscending rest

newer : (a b : ℕ) → a < b → ltb a b ≡ true
newer a b h = ground (arith, h)

older_trans :
    (version : Option ℕ) (a b : ℕ) → is_older version a ≡ true → a < b → is_older version b ≡ true
unfolding is_older
older_trans none a b p q = refl
older_trans (some n) a b p q = ground (arith, p, q)

due_later :
    (version : Option ℕ) (a : ℕ) (table : List VersionArray)
    → is_older version a ≡ true
    → All (λ w. a < w.version) table
    → due version table ≡ table
unfolding due
due_later version a [] p h = refl
due_later version a (v ∷ rest) p (q, h) =
    rw (older_trans version a v.version p q, due_later version a rest p h) refl

module _ (v : VersionArray) (rest : List VersionArray) (version : Option ℕ) where
  due_newer : is_older version v.version ≡ true → due version (v ∷ rest) ≡ v ∷ due version rest
  unfolding due
  due_newer t = rw t refl

  due_same : is_older version v.version ≡ false → due version (v ∷ rest) ≡ due version rest
  unfolding due
  due_same f = rw f refl

module _ (methods : String → Option (StaticConfig → StaticConfig)) where
  module _ (v : VersionArray) (rest : List VersionArray) (version : Option ℕ) (u : Upgrade) where
    loop_newer :
        is_older version v.version ≡ true
        → upgrade_loop methods (v ∷ rest) version u
          ≡ unless_thrown
              (upgrade_to v.version (methods v.method) u)
              (upgrade_loop methods rest (some v.version))
    unfolding upgrade_loop
    loop_newer t =
        subst
          (λ b.
            (elim b as (λ _. Result (Unit {0}) × Upgrade) [
              | true ↦
                  unless_thrown (upgrade_to v.version (methods v.method) u)
                    (upgrade_loop methods rest (some v.version))
              | false ↦ upgrade_loop methods rest version u
            ])
            ≡ unless_thrown (upgrade_to v.version (methods v.method) u)
                (upgrade_loop methods rest (some v.version)))
          (sym t) refl

    loop_same :
        is_older version v.version ≡ false
        → upgrade_loop methods (v ∷ rest) version u ≡ upgrade_loop methods rest version u
    unfolding upgrade_loop
    loop_same f =
        subst
          (λ b.
            (elim b as (λ _. Result (Unit {0}) × Upgrade) [
              | true ↦
                  unless_thrown (upgrade_to v.version (methods v.method) u)
                    (upgrade_loop methods rest (some v.version))
              | false ↦ upgrade_loop methods rest version u
            ])
            ≡ upgrade_loop methods rest version u)
          (sym f) refl

  -- Versions that are all newer than the present one are all upgraded to.
  loop-run_all :
      (table : List VersionArray) (n : ℕ) (u : Upgrade)
      → All (λ w. n < w.version) table
      → IsAscending table
      → upgrade_loop methods table (some n) u ≡ run_all methods table u
  unfolding run_all upgrade_loop
  loop-run_all [] n u a s = refl
  loop-run_all (v ∷ rest) n u (p, a) (b, s) =
      loop_newer v rest (some n) u (newer n v.version p)
      ∙ (ap (unless_thrown (upgrade_to v.version (methods v.method) u))
          (fun_ext λ x. loop-run_all rest v.version x b s))

  loop-due :
      (table : List VersionArray) (version : Option ℕ) (u : Upgrade)
      → IsAscending table
      → upgrade_loop methods table version u ≡ run_all methods (due version table) u
  unfolding run_all upgrade_loop due
  loop-due [] version u s = refl
  loop-due (v ∷ rest) version u (b, s) = elim (Bool-cases (is_older version v.version)) [
    | inl t ↦
        rw (due_newer v rest version t, due_later version v.version rest t b)
          (loop_newer v rest version u t
            ∙ ap (unless_thrown (upgrade_to v.version (methods v.method) u))
                (fun_ext λ x. loop-run_all rest v.version x b s))
    | inr f ↦
        rw (due_same v rest version f) (loop_same v rest version u f ∙ loop-due rest version u s)
  ]

versions_array-IsAscending : IsAscending versions_array
unfolding versions_array
versions_array-IsAscending = ((omega arith, (omega arith, tt)), ((omega arith, tt), (tt, tt)))

not_newer : (a b : ℕ) → b ≤ a → ltb a b ≡ false
not_newer a b h = ground (arith, h)

due_current : (n : ℕ) → 3 ≤ n → due (some n) versions_array ≡ []
unfolding due versions_array is_older
due_current n l =
    rw (not_newer n 1 (omega arith), not_newer n 2 (omega arith), not_newer n 3 (omega arith)) refl

upgrade_due :
    (u : Upgrade) → upgrade u ≡ run_all method_of (due u.static_config.version versions_array) u
unfolding upgrade
upgrade_due u =
    loop-due method_of versions_array u.static_config.version u versions_array-IsAscending

-- The upgrade has ended without an error, and at version 3 or later.
abbrev IsDone : Result (Unit {0}) × Upgrade → Type 0
IsDone p = (p.0 ≡ ok tt) × ((n : ℕ) × (p.1.static_config.version ≡ some n) × (3 ≤ n))

run_all-IsDone :
    (version : Option ℕ) (u : Upgrade)
    → u.static_config.version ≡ version
    → IsDone (run_all method_of (due version versions_array) u)
unfolding run_all due versions_array is_older upgrade_to unless_thrown method_of
run_all-IsDone none u e = (refl, (3, refl, omega arith))
run_all-IsDone (some zero) u e = (refl, (3, refl, omega arith))
run_all-IsDone (some (suc zero)) u e = (refl, (3, refl, omega arith))
run_all-IsDone (some (suc (suc zero))) u e = (refl, (3, refl, omega arith))
run_all-IsDone (some (suc (suc (suc n)))) u e =
    subst (λ l. IsDone (run_all method_of l u))
      (sym (due_current (suc (suc (suc n))) (omega arith)))
      (refl, (suc (suc (suc n)), e, omega arith))

upgrade_current :
    (u : Upgrade) (n : ℕ) → u.static_config.version ≡ some n → 3 ≤ n → upgrade u ≡ (ok tt, u)
unfolding run_all
upgrade_current u n e l =
    upgrade_due u
    ∙ ap (λ v. run_all method_of (due v versions_array) u) e
    ∙ ap (λ t. run_all method_of t u) (due_current n l)

-- The upgrade does just the upgrades to the versions that are newer than the one it starts from, in
-- their order; it ends without an error, and done again it does nothing.
pub upgrade-run_all :
    (u : Upgrade)
    → (upgrade u ≡ run_all method_of (due u.static_config.version versions_array) u)
      × ((upgrade u).0 ≡ ok tt)
      × (upgrade (upgrade u).1 ≡ (ok tt, (upgrade u).1))
upgrade-run_all u =
    let (done, (n, e, l)) =
      subst IsDone (sym (upgrade_due u)) (run_all-IsDone u.static_config.version u refl) in
    (upgrade_due u, done, upgrade_current (upgrade u).1 n e l)
