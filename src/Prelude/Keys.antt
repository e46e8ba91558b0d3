-- ===== src/Prelude/Keys.antt =====
-- Lists of rows with a key, and the row that a test finds.
use Prim.Native.Nat.{ℕ}
use mathlib.Core.Bool.{Bool, true, false}
use mathlib.Core.List.{List, [], ◌∷◌, map}
use mathlib.Core.Logic.{◌≢◌, inl, inr}
use mathlib.Core.Option.{some}
use mathlib.Core.Path.{◌≡◌, refl, sym, ap, subst, ◌∙◌}
use planer.Prelude.Tests.{Bool-cases}
use planer.Prelude.Lists.{find_if, update_if}
use planer.Prelude.Predicates.{All, All-imp, All-In, All-In_at, Any, In, Pairs, Pairs-imp}

-- No two rows have the same key.
abbrev pub HasKey : {A : Type 0} → (A → ℕ) → List A → Type 0
HasKey key = Pairs (λ a b. key a ≢ key b)

-- A test for a key finds the row that passes it.
pub find_if-key :
    {A : Type 0} (key : A → ℕ) (value : ℕ) (test : A → Bool)
    → ((x : A) → test x ≡ true → key x ≡ value)
    → (xs : List A) (x : A) → HasKey key xs
    → In xs x
    → test x ≡ true
    → find_if test xs ≡ some x
unfolding find_if
find_if-key key value test only [] x keys h e = absurd h
find_if-key key value test only (y ∷ ys) x keys (inl same) e =
    rw (subst (λ z. test z ≡ true) (sym same) e) (ap some same)
find_if-key key value test only (y ∷ ys) x keys (inr member) e = elim (Bool-cases (test y)) [
  | inl k ↦ absurd (All-In_at (λ z. key y ≢ key z) ys x keys.0 member (only y k ∙ sym (only x e)))
  | inr k ↦ rw k (find_if-key key value test only ys x keys.1 member e)
]

-- What holds of any two elements in both orders, and of each with itself, holds of any two.
pub Pairs-In :
    {A : Type 0} (R : A → A → Type 0)
    → ((x y : A) → R x y → R y x)
    → ((x : A) → R x x)
    → (xs : List A) (x y : A) → Pairs R xs
    → In xs x
    → In xs y
    → R x y
Pairs-In R symmetric reflexive [] x y h a b = absurd a
Pairs-In R symmetric reflexive (z ∷ zs) x y h (inl a) (inl b) =
    subst (λ w. R w y) a (subst (R z) b (reflexive z))
Pairs-In R symmetric reflexive (z ∷ zs) x y h (inl a) (inr b) =
    subst (λ w. R w y) a (All-In_at (R z) zs y h.0 b)
Pairs-In R symmetric reflexive (z ∷ zs) x y h (inr a) (inl b) =
    subst (R x) b (symmetric z x (All-In_at (R z) zs x h.0 a))
Pairs-In R symmetric reflexive (z ∷ zs) x y h (inr a) (inr b) =
    Pairs-In R symmetric reflexive zs x y h.1 a b

-- Two rows with the same key are the same row.
pub HasKey-same :
    {A : Type 0} (key : A → ℕ) (xs : List A) (x y : A)
    → HasKey key xs
    → In xs x
    → In xs y
    → key x ≡ key y
    → x ≡ y
HasKey-same key xs x y keys =
    Pairs-In (λ x y. key x ≡ key y → x ≡ y) (λ x y h e. sym (h (sym e))) (λ x e. refl) xs x y
      (Pairs-imp (In xs) (λ x y. key x ≢ key y) (λ x y. key x ≡ key y → x ≡ y)
        (λ x y a b h e. absurd (h e)) xs (All-In xs) keys)

-- A change that a relation does not see keeps it.
module _ {A : Type 0} (R : A → A → Type 0) (test : A → Bool) (change : A → A)
    (left : (x y : A) → R x y → R (change x) y) (right : (x y : A) → R x y → R x (change y)) where
  All-update_if : (x : A) (ys : List A) → All (R x) ys → All (R x) (update_if test change ys)
  unfolding update_if
  All-update_if x [] h = tt
  All-update_if x (y ∷ ys) h = elim (Bool-cases (test y)) [
    | inl k ↦ rw k (right x y h.0, All-update_if x ys h.1)
    | inr k ↦ rw k (h.0, All-update_if x ys h.1)
  ]

  pub Pairs-update_if : (xs : List A) → Pairs R xs → Pairs R (update_if test change xs)
  unfolding update_if
  Pairs-update_if [] h = tt
  Pairs-update_if (x ∷ xs) h =
      let others = All-update_if x xs h.0 in
      elim (Bool-cases (test x)) [
        | inl k ↦ rw k (
          All-imp (R x) (R (change x)) (left x) (update_if test change xs) others,
          Pairs-update_if xs h.1,
        )
        | inr k ↦ rw k (others, Pairs-update_if xs h.1)
      ]

-- What holds of the changed rows and of those that fail the test holds of the updated list.
pub All-updated :
    {A : Type 0} (P Q : A → Type 0) (test : A → Bool) (change : A → A)
    → ((x : A) → P x → test x ≡ true → Q (change x))
    → ((x : A) → P x → test x ≡ false → Q x)
    → (xs : List A) → All P xs
    → All Q (update_if test change xs)
unfolding update_if
All-updated P Q test change moved kept [] h = tt
All-updated P Q test change moved kept (x ∷ xs) h =
    let others = All-updated P Q test change moved kept xs h.1 in
    elim (Bool-cases (test x)) [
      | inl k ↦ rw k (moved x h.0 k, others)
      | inr k ↦ rw k (kept x h.0 k, others)
    ]

pub Any-map :
    {A B : Type 0} (P : B → Type 0) (f : A → B) (xs : List A)
    → Any (λ x. P (f x)) xs
    → Any P (map f xs)
Any-map P f [] h = absurd h
Any-map P f (x ∷ xs) (inl h) = inl h
Any-map P f (x ∷ xs) (inr h) = inr (Any-map P f xs h)
