-- ===== src/Prelude/Lists.antt =====
-- Lists measured and indexed by native numbers, under the library's names.
use Prim.Native.Nat.{ℕ, zero, suc, ◌+◌, ◌≤◌}
use mathlib.Core.Path.{◌≡◌, refl, sym, ap, ◌∙◌}
use mathlib.Core.Logic.{◌⊎◌, inl, inr}
use mathlib.Core.Bool.{Bool, true, false, not, ◌&&◌, ◌||◌}
use mathlib.Core.Option.{Option, none, some}
use mathlib.Core.List.{List, [], ◌∷◌, ◌++◌, map}
use native.Mathlib.Omega.{arith}
use planer.Prelude.Tests.{Bool-cases, if◌then◌else◌, ◌==◌}

module _ {ℓ} {A : Type ℓ} where
  abbrev pub length : List A → ℕ
  length [] = 0
  length (x ∷ xs) = suc (length xs)

  abbrev pub get_or : List A → ℕ → A → A
  get_or [] i d = d
  get_or (x ∷ xs) zero d = x
  get_or (x ∷ xs) (suc i) d = get_or xs i d

  abbrev pub take : ℕ → List A → List A
  take zero xs = []
  take (suc n) [] = []
  take (suc n) (x ∷ xs) = x ∷ take n xs

  abbrev pub drop : ℕ → List A → List A
  drop zero xs = xs
  drop (suc n) [] = []
  drop (suc n) (x ∷ xs) = drop n xs

  abbrev pub replicate : ℕ → A → List A
  replicate zero a = []
  replicate (suc n) a = a ∷ replicate n a

  pub length-append : (xs ys : List A) → length (xs ++ ys) ≡ length xs + length ys
  length-append [] ys = omega arith
  length-append (x ∷ xs) ys = omega (arith, length-append xs ys)

  -- Python's comprehensions `[x for x in xs if test(x)]`, `any` and `all`.
  unfoldable pub filter_if : (A → Bool) → List A → List A
  filter_if test [] = []
  filter_if test (x ∷ xs) = let rest = filter_if test xs in if test x then x ∷ rest else rest

  unfoldable pub any_of : (A → Bool) → List A → Bool
  any_of test [] = false
  any_of test (x ∷ xs) = test x || any_of test xs

  unfoldable pub all_of : (A → Bool) → List A → Bool
  all_of test [] = true
  all_of test (x ∷ xs) = test x && all_of test xs

  unfoldable pub sum_of : (A → ℕ) → List A → ℕ
  sum_of f [] = 0
  sum_of f (x ∷ xs) = f x + sum_of f xs

  pub sum_of-append : (f : A → ℕ) (xs ys : List A) → sum_of f (xs ++ ys) ≡ sum_of f xs + sum_of f ys
  unfolding sum_of
  sum_of-append f [] ys = omega arith
  sum_of-append f (x ∷ xs) ys = omega (arith, sum_of-append f xs ys)

pub filter_if-none {ℓ} :
    {A : Type ℓ} (test : A → Bool) (xs : List A) → any_of test xs ≡ false → filter_if test xs ≡ []
unfolding any_of filter_if
filter_if-none test [] e = refl
filter_if-none test (x ∷ xs) e = ground (arith, filter_if-none test xs)

-- `fetchone` of an ordered query
abbrev pub first_of {ℓ} : {A : Type ℓ} → List A → Option A
first_of [] = none
first_of (x ∷ xs) = some x

-- The first element for which a test holds, and a change of each for which it does.
unfoldable pub find_if {ℓ} : {A : Type ℓ} → (A → Bool) → List A → Option A
find_if test [] = none
find_if test (x ∷ xs) = if test x then some x else find_if test xs

unfoldable pub update_if {ℓ} : {A : Type ℓ} → (A → Bool) → (A → A) → List A → List A
update_if test change [] = []
update_if test change (x ∷ xs) = (if test x then change x else x) ∷ update_if test change xs

pub find_if-append {ℓ} :
    {A : Type ℓ} (test : A → Bool) (xs : List A) (x : A)
    → find_if test xs ≡ none
    → test x ≡ true
    → find_if test (xs ++ x ∷ []) ≡ some x
unfolding find_if
find_if-append test [] x e h = rw h refl
find_if-append test (first ∷ rest) x e h = elim (Bool-cases (test first)) [
  | inl k ↦ absurd (no_some (rw k at e))
  | inr k ↦ rw k (find_if-append test rest x (rw k at e) h)
]
  where
    no_some : some first ≡ none → ⊥
    no_some h = cc

-- What is found has the property, and a change that keeps it is found in its place.
pub find_if-test {ℓ} :
    {A : Type ℓ} (test : A → Bool) (xs : List A) (x : A) → find_if test xs ≡ some x → test x ≡ true
unfolding find_if
find_if-test test [] x e = cc
find_if-test test (first ∷ rest) x e = elim (Bool-cases (test first)) [
  | inl k ↦
      let is_row : some first ≡ some x = rw k at e in
      let here : first ≡ x = cc in ap test (sym here) ∙ k
  | inr k ↦ find_if-test test rest x (rw k at e)
]

pub find_if-update_if {ℓ} :
    {A : Type ℓ} (test : A → Bool) (change : A → A) (xs : List A) (x : A)
    → ((y : A) → test y ≡ true → test (change y) ≡ true)
    → find_if test xs ≡ some x
    → find_if test (update_if test change xs) ≡ some (change x)
unfolding find_if update_if
find_if-update_if test change [] x keeps e = cc
find_if-update_if test change (first ∷ rest) x keeps e = elim (Bool-cases (test first)) [
  | inl k ↦
      let is_row : some first ≡ some x = rw k at e in
      let here : first ≡ x = cc in rw (k, keeps first k) (ap (λ y. some (change y)) here)
  | inr k ↦ rw (k, k) (find_if-update_if test change rest x keeps (rw k at e))
]

pub Option-cases {ℓ} : {A : Type ℓ} (m : Option A) → (m ≡ none) ⊎ ((a : A) × (m ≡ some a))
Option-cases none = inl refl
Option-cases (some a) = inr (a, refl)

-- A comprehension and the one with the opposite test share out a sum.
pub sum_of-filter_if {ℓ} :
    {A : Type ℓ} (f : A → ℕ) (test : A → Bool) (xs : List A)
    → sum_of f (filter_if test xs) + sum_of f (filter_if (λ x. not (test x)) xs) ≡ sum_of f xs
unfolding sum_of filter_if
sum_of-filter_if f test [] = refl
sum_of-filter_if f test (x ∷ xs) = ground (arith, sum_of-filter_if f test xs)

-- `x in xs` on identifiers.
unfoldable pub contains : ℕ → List ℕ → Bool
unfolding any_of
contains a xs = any_of (λ x. x == a) xs

pub some_injective {ℓ} : {A : Type ℓ} {a b : A} → some a ≡ some b → a ≡ b
some_injective h = cc

pub length-take {ℓ} : {A : Type ℓ} (n : ℕ) (xs : List A) → length (take n xs) ≤ n
length-take zero xs = omega arith
length-take (suc n) [] = omega arith
length-take (suc n) (x ∷ xs) = omega (arith, length-take n xs)

pub length-map {ℓ κ} :
    {A : Type ℓ} {B : Type κ} (f : A → B) (xs : List A) → length (map f xs) ≡ length xs
length-map f [] = refl
length-map f (x ∷ xs) = ap suc (length-map f xs)
