-- ===== src/Prelude/Sort.antt =====
-- Python's `sorted` with a key: a stable sort, given the strict order of the keys.
use Prim.Native.Nat.{ℕ, suc, ◌+◌}
use mathlib.Core.Path.{◌≡◌, refl, sym, ap, subst, ◌∙◌}
use mathlib.Core.Logic.{inl, inr}
use mathlib.Core.Bool.{Bool, true, false}
use mathlib.Core.List.{List, [], ◌∷◌}
use native.Mathlib.Omega.{arith}
use planer.Prelude.Tests.{if◌then◌else◌, Bool-cases}
use mathlib.Core.Option.{some}
use planer.Prelude.Lists.{sum_of, length, first_of, some_injective}
use planer.Prelude.Predicates.{All, All-imp, All-at, Any, Any-imp, In, All-In, Pairs}

module _ {ℓ} {A : Type ℓ} (before : A → A → Bool) where
  pub insert_by : A → List A → List A
  insert_by x [] = x ∷ []
  insert_by x (y ∷ ys) = if before y x then y ∷ insert_by x ys else x ∷ y ∷ ys

  unfoldable pub sort_by : List A → List A
  unfolding insert_by
  sort_by [] = []
  sort_by (x ∷ xs) = insert_by x (sort_by xs)

module _ {ℓ κ} {A : Type ℓ} (P : A → Type κ) (before : A → A → Bool) where
  All-insert_by : (x : A) (ys : List A) → P x → All P ys → All P (insert_by before x ys)
  unfolding insert_by
  All-insert_by x [] p h = (p, tt)
  All-insert_by x (y ∷ ys) p h = elim (Bool-cases (before y x)) [
    | inl e ↦ rw e (h.0, All-insert_by x ys p h.1)
    | inr e ↦ rw e (p, h)
  ]

  pub All-sort_by : (xs : List A) → All P xs → All P (sort_by before xs)
  unfolding sort_by
  All-sort_by [] h = tt
  All-sort_by (x ∷ xs) h = All-insert_by x (sort_by before xs) h.0 (All-sort_by xs h.1)

  All-insert_by_head : (x : A) (ys : List A) → All P (insert_by before x ys) → P x
  unfolding insert_by
  All-insert_by_head x [] = λ h. h.0
  All-insert_by_head x (y ∷ ys) =
      elim (before y x)
        as (λ b. All P (if b then y ∷ insert_by before x ys else x ∷ y ∷ ys) → P x) [
          | true ↦ λ h. All-insert_by_head x ys h.1
          | false ↦ λ h. h.0
        ]

  All-insert_by_tail : (x : A) (ys : List A) → All P (insert_by before x ys) → All P ys
  unfolding insert_by
  All-insert_by_tail x [] = λ h. tt
  All-insert_by_tail x (y ∷ ys) =
      elim (before y x)
        as (λ b. All P (if b then y ∷ insert_by before x ys else x ∷ y ∷ ys) → All P (y ∷ ys)) [
          | true ↦ λ h. (h.0, All-insert_by_tail x ys h.1)
          | false ↦ λ h. h.1
        ]

  -- What holds of all of the sorted list held of all of the list.
  pub All-unsort_by : (xs : List A) → All P (sort_by before xs) → All P xs
  unfolding sort_by
  All-unsort_by [] h = tt
  All-unsort_by (x ∷ xs) h = (
    All-insert_by_head x (sort_by before xs) h,
    All-unsort_by xs (All-insert_by_tail x (sort_by before xs) h),
  )

module _ {ℓ κ} {A : Type ℓ} (R : A → A → Type κ) (before : A → A → Bool)
    (symmetric : (x y : A) → R x y → R y x) where
  Pairs-insert_by :
      (x : A) (ys : List A) → All (R x) ys → Pairs R ys → Pairs R (insert_by before x ys)
  unfolding insert_by
  Pairs-insert_by x [] h k = (tt, tt)
  Pairs-insert_by x (y ∷ ys) h k = elim (Bool-cases (before y x)) [
    | inl e ↦
        rw e (All-insert_by (R y) before x ys (symmetric x y h.0) k.0, Pairs-insert_by x ys h.1 k.1)
    | inr e ↦ rw e (h, k)
  ]

  Pairs-uninsert_by :
      (x : A) (ys : List A) → Pairs R (insert_by before x ys) → All (R x) ys × Pairs R ys
  unfolding insert_by
  Pairs-uninsert_by x [] h = (tt, tt)
  Pairs-uninsert_by x (y ∷ ys) h = elim (Bool-cases (before y x)) [
    | inl e ↦
        let h' : Pairs R (y ∷ insert_by before x ys) = rw e at h in
        let (mine, others) = Pairs-uninsert_by x ys h'.1 in
        (
          (symmetric y x (All-insert_by_head (R y) before x ys h'.0), mine),
          (All-insert_by_tail (R y) before x ys h'.0, others),
        )
    | inr e ↦ rw e at h
  ]

  pub Pairs-unsort_by : (xs : List A) → Pairs R (sort_by before xs) → Pairs R xs
  unfolding sort_by
  Pairs-unsort_by [] h = tt
  Pairs-unsort_by (x ∷ xs) h =
      let (mine, others) = Pairs-uninsert_by x (sort_by before xs) h in
      (All-unsort_by (R x) before xs mine, Pairs-unsort_by xs others)

  pub Pairs-sort_by : (xs : List A) → Pairs R xs → Pairs R (sort_by before xs)
  unfolding sort_by
  Pairs-sort_by [] h = tt
  Pairs-sort_by (x ∷ xs) h =
      Pairs-insert_by x (sort_by before xs) (All-sort_by (R x) before xs h.0) (Pairs-sort_by xs h.1)

module _ {ℓ} {A : Type ℓ} (before : A → A → Bool) (f : A → ℕ) where
  sum_of-insert_by : (x : A) (ys : List A) → sum_of f (insert_by before x ys) ≡ f x + sum_of f ys
  unfolding insert_by sum_of
  sum_of-insert_by x [] = refl
  sum_of-insert_by x (y ∷ ys) = ground (arith, sum_of-insert_by x ys)

  pub sum_of-sort_by : (xs : List A) → sum_of f (sort_by before xs) ≡ sum_of f xs
  unfolding sort_by sum_of
  sum_of-sort_by [] = refl
  sum_of-sort_by (x ∷ xs) = omega (arith, sum_of-insert_by x (sort_by before xs), sum_of-sort_by xs)

-- A sorted list is as long.
module _ {ℓ} {A : Type ℓ} (before : A → A → Bool) where
  length-insert_by : (x : A) (ys : List A) → length (insert_by before x ys) ≡ suc (length ys)
  unfolding insert_by
  length-insert_by x [] = refl
  length-insert_by x (y ∷ ys) = elim (Bool-cases (before y x)) [
    | inl e ↦ rw e (ap suc (length-insert_by x ys))
    | inr e ↦ rw e refl
  ]

  pub length-sort_by : (xs : List A) → length (sort_by before xs) ≡ length xs
  unfolding sort_by
  length-sort_by [] = refl
  length-sort_by (x ∷ xs) = length-insert_by x (sort_by before xs) ∙ ap suc (length-sort_by xs)

-- The first of a sorted list: an element of the list that none is before.
module _ {ℓ} {A : Type ℓ} (before : A → A → Bool)
    (asymmetric : (x y : A) → before x y ≡ true → before y x ≡ false)
    (transitive : (x y z : A) → before x y ≡ false → before y z ≡ false → before x z ≡ false) where
  abbrev pub IsLeast : List A → A → Type 0
  IsLeast xs y = All (λ x. before x y ≡ false) xs

  irreflexive : (x : A) → before x x ≡ false
  irreflexive x = elim (Bool-cases (before x x)) [ inl k ↦ asymmetric x x k | inr k ↦ k ]

  insert_by-IsLeast :
      (x : A) (xs ys : List A)
      → ((y : A) → first_of ys ≡ some y → IsLeast xs y)
      → (ys ≡ [] → All (λ z. ⊥) xs)
      → (y : A) → first_of (insert_by before x ys) ≡ some y
      → IsLeast (x ∷ xs) y
  unfolding insert_by
  insert_by-IsLeast x xs [] h empty y e = (
    subst (λ z. before x z ≡ false) (some_injective e) (irreflexive x),
    All-imp (λ z. ⊥) (λ z. before z y ≡ false) (λ z k. absurd k) xs (empty refl),
  )
  insert_by-IsLeast x xs (first ∷ ys) h empty y e = elim (Bool-cases (before first x)) [
    | inl k ↦
        let same : first ≡ y = some_injective (rw k at e) in
        (subst (λ z. before x z ≡ false) same (asymmetric first x k), h y (ap some same))
    | inr k ↦
        let same : x ≡ y = some_injective (rw k at e) in
        (
          subst (λ z. before x z ≡ false) same (irreflexive x),
          All-imp (λ z. before z first ≡ false) (λ z. before z y ≡ false)
              (λ z b. subst (λ w. before z w ≡ false) same (transitive z first x b k)) xs
              (h first refl),
        )
  ]

  pub first_of-sort_by :
      (xs : List A) (y : A) → first_of (sort_by before xs) ≡ some y → IsLeast xs y
  unfolding sort_by
  first_of-sort_by [] y e = tt
  first_of-sort_by (x ∷ xs) y e =
      insert_by-IsLeast x xs (sort_by before xs) (first_of-sort_by xs)
        (λ k. All-unsort_by (λ z. ⊥) before xs (subst (All (λ z. ⊥)) (sym k) tt)) y e

-- The first of a sorted list has what all of the list have.
pub first_of-All {ℓ κ} :
    {A : Type ℓ} (P : A → Type κ) (xs : List A) (y : A) → All P xs → first_of xs ≡ some y → P y
first_of-All P [] y h e = cc
first_of-All P (x ∷ xs) y h e = subst P (some_injective e) h.0

-- An element with a property is still there when the list is sorted, and was there before.
module _ {A : Type 0} (P : A → Type 0) (before : A → A → Bool) (xs : List A) where
  pub Any-sort_by : Any P xs → Any P (sort_by before xs)
  Any-sort_by h =
      let sorted = sort_by before xs in
      let (x, member, p) =
        All-at (In sorted) P xs (All-unsort_by (In sorted) before xs (All-In sorted)) h in
      Any-imp (λ y. y ≡ x) P (λ y e. subst P (sym e) p) sorted member

  pub Any-unsort_by : Any P (sort_by before xs) → Any P xs
  Any-unsort_by h =
      let (x, member, p) =
        All-at (In xs) P (sort_by before xs) (All-sort_by (In xs) before xs (All-In xs)) h in
      Any-imp (λ y. y ≡ x) P (λ y e. subst P (sym e) p) xs member
