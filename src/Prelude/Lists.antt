-- ===== src/Prelude/Lists.antt =====
-- Searches through a list by a Boolean test: `next(x for x in xs if p(x))`, `any`, the filter of
-- a comprehension, and the number of hits, as a native number.
use Prim.Native.Nat.{ℕ, suc, ◌+◌}
use mathlib.Core.Path.{◌≡◌, refl}
use mathlib.Core.Bool.{Bool, true, false, ◌||◌}
use mathlib.Core.Option.{Option, none, some}
use mathlib.Core.List.{List, [], ◌∷◌, ◌++◌}
use native.Mathlib.Omega.{arith}
use mathlib.Core.Logic.{inl, inr}
use kerislab.Prelude.Tests.{Bool-cases, if◌then◌else◌, leb}

-- Membership in a list.
pub data Among {ℓ} {A : Type ℓ} (x : A) : List A → Type ℓ where
  at_head : (xs : List A) → Among x (x ∷ xs)
  further : (y : A) (xs : List A) → Among x xs → Among x (y ∷ xs)

module _ {ℓ} {A : Type ℓ} where
  abbrev pub length : List A → ℕ
  length [] = 0
  length (x ∷ xs) = suc (length xs)

  unfoldable pub first : (A → Bool) → List A → Option A
  first p [] = none
  first p (x ∷ xs) = if p x then some x else first p xs

  unfoldable pub any : (A → Bool) → List A → Bool
  any p [] = false
  any p (x ∷ xs) = p x || any p xs

  unfoldable pub select : (A → Bool) → List A → List A
  select p [] = []
  select p (x ∷ xs) = if p x then x ∷ select p xs else select p xs

  unfoldable pub count : (A → Bool) → List A → ℕ
  count p [] = 0
  count p (x ∷ xs) = (if p x then 1 else 0) + count p xs

  pub length-append : (xs ys : List A) → length (xs ++ ys) ≡ length xs + length ys
  length-append [] ys = omega arith
  length-append (x ∷ xs) ys = omega (arith, length-append xs ys)

  pub count-append : (p : A → Bool) (xs ys : List A) → count p (xs ++ ys) ≡ count p xs + count p ys
  unfolding count
  count-append p [] ys = omega arith
  count-append p (x ∷ xs) ys = omega (arith, count-append p xs ys)

  pub length-select : (p : A → Bool) (xs : List A) → length (select p xs) ≡ count p xs
  unfolding select count
  length-select p [] = refl
  length-select p (x ∷ xs) = ground (arith, length-select p xs)

  pub first-holds : (p : A → Bool) (xs : List A) (x : A) → first p xs ≡ some x → p x ≡ true
  unfolding first
  first-holds p [] x h = cc
  first-holds p (y ∷ xs) x h = ground (arith, first-holds p xs x)

  pub first-Among : (p : A → Bool) (xs : List A) (x : A) → first p xs ≡ some x → Among x xs
  unfolding first
  first-Among p [] x h = cc
  first-Among p (y ∷ xs) x h = elim (Bool-cases (p y)) [
    | inl hit ↦
        let found : some y ≡ some x = rw hit at h in let same : y ≡ x = cc in rw same (at_head xs)
    | inr miss ↦ further y xs (first-Among p xs x (rw miss at h))
  ]

  pub any-Among :
      (p : A → Bool) (xs : List A) → any p xs ≡ true → (x : A) × Among x xs × (p x ≡ true)
  unfolding any
  any-Among p [] h = cc
  any-Among p (x ∷ xs) h = elim (Bool-cases (p x)) [
    | inl hit ↦ (x, at_head xs, hit)
    | inr miss ↦
        let (found, among, holds) = any-Among p xs (rw miss at h) in
        (found, further x xs among, holds)
  ]

  pub Among-any : (p : A → Bool) (xs : List A) (x : A) → Among x xs → p x ≡ true → any p xs ≡ true
  unfolding any
  Among-any p [] x among h = elim among [ ]
  Among-any p (y ∷ xs) _ (at_head _) h = rw h refl
  Among-any p (y ∷ xs) x (further _ _ among) h = ground (arith, Among-any p xs x among h)

  -- `sorted(xs, key=...)`, which keeps the order of equal keys
  insert_by : (A → ℕ) → A → List A → List A
  insert_by key x [] = x ∷ []
  insert_by key x (y ∷ ys) = if leb (key x) (key y) then x ∷ y ∷ ys else y ∷ insert_by key x ys

  unfoldable pub sorted_by : (A → ℕ) → List A → List A
  unfolding insert_by
  sorted_by key [] = []
  sorted_by key (x ∷ xs) = insert_by key x (sorted_by key xs)
