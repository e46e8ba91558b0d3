-- ===== src/Prelude/Pigeons.antt =====
-- A list of distinct numbers is not longer than a list that has all of them.
use Prim.Native.Nat.{ℕ, suc, ◌≤◌}
use mathlib.Core.Path.{◌≡◌, refl, ap}
use mathlib.Core.Logic.{inl, inr}
use mathlib.Core.Bool.{true, false, false≢true}
use mathlib.Core.List.{List, [], ◌∷◌}
use native.Mathlib.Omega.{arith}
use planer.Prelude.Tests.{if◌then◌else◌, Bool-cases, ◌==◌}
use planer.Prelude.Lists.{length, any_of, contains}
use planer.Prelude.Predicates.{All, All-both, Pairs}

-- The list without the first place of a number
unfoldable remove : ℕ → List ℕ → List ℕ
remove a [] = []
remove a (x ∷ xs) = if x == a then xs else x ∷ remove a xs

abbrev pub Differ : ℕ → ℕ → Type 0
Differ a b = (b == a) ≡ false

length-remove :
    (a : ℕ) (xs : List ℕ) → contains a xs ≡ true → suc (length (remove a xs)) ≡ length xs
unfolding remove contains any_of
length-remove a [] h = absurd (false≢true h)
length-remove a (x ∷ xs) h = elim (Bool-cases (x == a)) [
  | inl k ↦ rw k refl
  | inr k ↦ rw k (ap suc (length-remove a xs (rw k at h)))
]

contains-remove :
    (a b : ℕ) (xs : List ℕ) → Differ a b → contains b xs ≡ true → contains b (remove a xs) ≡ true
unfolding remove contains any_of
contains-remove a b [] d h = h
contains-remove a b (x ∷ xs) d h = elim (Bool-cases (x == a)) [
  | inl k ↦ rw k (ground arith)
  | inr k ↦ elim (Bool-cases (x == b)) [
    | inl l ↦ rw (k, l) refl
    | inr l ↦ rw (k, l) (contains-remove a b xs d (rw l at h))
  ]
]

pub distinct-le :
    (xs ys : List ℕ) → Pairs Differ xs → All (λ x. contains x ys ≡ true) xs → length xs ≤ length ys
distinct-le [] ys d h = omega arith
distinct-le (x ∷ xs) ys d h =
    let others =
      All-both (Differ x) (λ y. contains y ys ≡ true) (λ y. contains y (remove x ys) ≡ true)
        (λ y. contains-remove x y ys) xs d.0 h.1 in
    omega (arith, length-remove x ys h.0, distinct-le xs (remove x ys) d.1 others)
