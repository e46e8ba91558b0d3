-- ===== src/Prelude/Groups.antt =====
-- A list shared out into groups by a test for each label: what holds of any two elements of the
-- groups, one after the other, holds of any two elements of the list.
use mathlib.Core.Path.{◌≡◌}
use mathlib.Core.Logic.{inl, inr}
use mathlib.Core.Bool.{Bool, true, false≢true}
use mathlib.Core.List.{List, [], ◌∷◌, ◌++◌}
use mathlib.Core.Path.{sym, ◌∙◌}
use planer.Prelude.Tests.{Bool-cases}
use planer.Prelude.Lists.{filter_if}
use planer.Prelude.Predicates.{
  All, All-append, All-append_left, All-append_right, All-imp, Any, Pairs, Pairs-append_right,
  Pairs-append_left, Pairs-append_across, Pairs-append,
}

module _ {A T : Type 0} (of : T → A → Bool) where
  unfoldable pub groups : List T → List A → List A
  unfolding filter_if
  groups [] xs = []
  groups (t ∷ ts) xs = filter_if (of t) xs ++ groups ts xs

  abbrev pub HasGroup : List T → A → Type 0
  HasGroup ts x = Any (λ t. of t x ≡ true) ts

  module _ (P : A → Type 0) where
    All-groups_tail :
        (ts : List T) (x : A) (xs : List A) → All P (groups ts (x ∷ xs)) → All P (groups ts xs)
    unfolding groups filter_if
    All-groups_tail [] x xs h = tt
    All-groups_tail (t ∷ ts) x xs h = elim (Bool-cases (of t x)) [
      | inl k ↦
          let h' : All P ((x ∷ filter_if (of t) xs) ++ groups ts (x ∷ xs)) = rw k at h in
          All-append P (filter_if (of t) xs) (groups ts xs)
            (All-append_left P (filter_if (of t) xs) (groups ts (x ∷ xs)) h'.1)
            (All-groups_tail ts x xs
              (All-append_right P (filter_if (of t) xs) (groups ts (x ∷ xs)) h'.1))
      | inr k ↦
          let h' : All P (filter_if (of t) xs ++ groups ts (x ∷ xs)) = rw k at h in
          All-append P (filter_if (of t) xs) (groups ts xs)
            (All-append_left P (filter_if (of t) xs) (groups ts (x ∷ xs)) h')
            (All-groups_tail ts x xs
              (All-append_right P (filter_if (of t) xs) (groups ts (x ∷ xs)) h'))
    ]

    groups_head :
        (ts : List T) (x : A) (xs : List A) → HasGroup ts x → All P (groups ts (x ∷ xs)) → P x
    unfolding groups filter_if
    groups_head [] x xs has h = absurd has
    groups_head (t ∷ ts) x xs has h = elim (Bool-cases (of t x)) [
      | inl k ↦ let h' : All P ((x ∷ filter_if (of t) xs) ++ groups ts (x ∷ xs)) = rw k at h in h'.0
      | inr k ↦
          let h' : All P (filter_if (of t) xs ++ groups ts (x ∷ xs)) = rw k at h in
          elim has [
            | inl here ↦ absurd (false≢true (sym k ∙ here))
            | inr later ↦
                groups_head ts x xs later
                  (All-append_right P (filter_if (of t) xs) (groups ts (x ∷ xs)) h')
          ]
    ]

    -- What holds of the groups holds of the list.
    pub All-groups :
        (ts : List T) (xs : List A) → All (HasGroup ts) xs → All P (groups ts xs) → All P xs
    All-groups ts [] has h = tt
    All-groups ts (x ∷ xs) has h =
        (groups_head ts x xs has.0 h, All-groups ts xs has.1 (All-groups_tail ts x xs h))

  module _ (R : A → A → Type 0) (symmetric : (x y : A) → R x y → R y x) where
    Pairs-groups_tail :
        (ts : List T) (x : A) (xs : List A) → Pairs R (groups ts (x ∷ xs)) → Pairs R (groups ts xs)
    unfolding groups filter_if
    Pairs-groups_tail [] x xs h = tt
    Pairs-groups_tail (t ∷ ts) x xs h =
        let mine = filter_if (of t) xs in
        let shrink : Pairs R (mine ++ groups ts (x ∷ xs)) → Pairs R (mine ++ groups ts xs) = λ k.
          Pairs-append R mine (groups ts xs) (Pairs-append_left R mine (groups ts (x ∷ xs)) k)
            (All-imp (λ y. All (R y) (groups ts (x ∷ xs))) (λ y. All (R y) (groups ts xs))
              (λ y. All-groups_tail (R y) ts x xs) mine
              (Pairs-append_across R mine (groups ts (x ∷ xs)) k))
            (Pairs-groups_tail ts x xs (Pairs-append_right R mine (groups ts (x ∷ xs)) k)) in
        elim (Bool-cases (of t x)) [
          | inl k ↦ let h' : Pairs R ((x ∷ mine) ++ groups ts (x ∷ xs)) = rw k at h in shrink h'.1
          | inr k ↦ let h' : Pairs R (mine ++ groups ts (x ∷ xs)) = rw k at h in shrink h'
        ]

    groups_first :
        (ts : List T) (x : A) (xs : List A)
        → HasGroup ts x
        → Pairs R (groups ts (x ∷ xs))
        → All (R x) (groups ts xs)
    unfolding groups filter_if
    groups_first [] x xs has h = tt
    groups_first (t ∷ ts) x xs has h =
        let mine = filter_if (of t) xs in
        let rest = groups ts (x ∷ xs) in
        elim (Bool-cases (of t x)) [
          | inl k ↦
              let h' : Pairs R ((x ∷ mine) ++ rest) = rw k at h in
              All-append (R x) mine (groups ts xs) (All-append_left (R x) mine rest h'.0)
                (All-groups_tail (R x) ts x xs (All-append_right (R x) mine rest h'.0))
          | inr k ↦
              let h' : Pairs R (mine ++ rest) = rw k at h in
              elim has [
                | inl here ↦ absurd (false≢true (sym k ∙ here))
                | inr later ↦
                    All-append (R x) mine (groups ts xs)
                      (All-imp (λ y. All (R y) rest) (R x)
                        (λ y a. symmetric y x (groups_head (R y) ts x xs later a)) mine
                        (Pairs-append_across R mine rest h'))
                      (groups_first ts x xs later (Pairs-append_right R mine rest h'))
              ]
        ]

    pub Pairs-groups :
        (ts : List T) (xs : List A) → All (HasGroup ts) xs → Pairs R (groups ts xs) → Pairs R xs
    Pairs-groups ts [] has h = tt
    Pairs-groups ts (x ∷ xs) has h = (
      All-groups (R x) ts xs has.1 (groups_first ts x xs has.0 h),
      Pairs-groups ts xs has.1 (Pairs-groups_tail ts x xs h),
    )
