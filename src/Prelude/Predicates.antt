-- ===== src/Prelude/Predicates.antt =====
-- Predicates on lists by recursion, which compute to tuples.
use mathlib.Core.Bool.{Bool, true, false, false≢true}
use mathlib.Core.List.{List, [], ◌∷◌, ◌++◌, map}
use mathlib.Core.Path.{◌≡◌, refl, sym, subst, ◌∙◌}
use mathlib.Core.Logic.{◌↔◌, ◌⊎◌, inl, inr}
use planer.Prelude.Tests.{Bool-cases}
use mathlib.Core.Option.{some, none}
use planer.Prelude.Lists.{any_of, filter_if, find_if, some_injective}

module _ {ℓ κ} {A : Type ℓ} (P : A → Type κ) where
  abbrev pub All : List A → Type κ
  All [] = Unit
  All (head ∷ tail) = P head × All tail

-- Any two elements, the earlier one first.
abbrev pub Pairs {ℓ κ} : {A : Type ℓ} → (A → A → Type κ) → List A → Type κ
Pairs R [] = Unit
Pairs R (x ∷ xs) = All (R x) xs × Pairs R xs

module _ {ℓ κ} {A : Type ℓ} (P : A → Type κ) where
  pub All-append : (xs more : List A) → All P xs → All P more → All P (xs ++ more)
  All-append [] ys h k = k
  All-append (x ∷ xs) ys h k = (h.0, All-append xs ys h.1 k)

  pub All-append_left : (xs ys : List A) → All P (xs ++ ys) → All P xs
  All-append_left [] ys h = tt
  All-append_left (x ∷ xs) ys h = (h.0, All-append_left xs ys h.1)

  pub All-append_right : (xs ys : List A) → All P (xs ++ ys) → All P ys
  All-append_right [] ys h = h
  All-append_right (x ∷ xs) ys h = All-append_right xs ys h.1

  pub All-of : (f : (x : A) → P x) (xs : List A) → All P xs
  All-of f [] = tt
  All-of f (x ∷ xs) = (f x, All-of f xs)

  pub All-filter_if : (test : A → Bool) (xs : List A) → All P xs → All P (filter_if test xs)
  unfolding filter_if
  All-filter_if test [] h = tt
  All-filter_if test (x ∷ xs) h = elim (Bool-cases (test x)) [
    | inl e ↦ rw e (h.0, All-filter_if test xs h.1)
    | inr e ↦ rw e (All-filter_if test xs h.1)
  ]

pub All-filter_test {ℓ} :
    {A : Type ℓ} (test : A → Bool) (xs : List A) → All (λ x. test x ≡ true) (filter_if test xs)
unfolding filter_if
All-filter_test test [] = tt
All-filter_test test (x ∷ xs) = elim (Bool-cases (test x)) [
  | inl e ↦ rw e (e, All-filter_test test xs)
  | inr e ↦ rw e (All-filter_test test xs)
]

module _ {ℓ κ μ} {A : Type ℓ} (P : A → Type κ) (Q : A → Type μ) where
  pub All-imp : (f : (x : A) → P x → Q x) (xs : List A) → All P xs → All Q xs
  All-imp f [] h = tt
  All-imp f (x ∷ xs) h = (f x h.0, All-imp f xs h.1)

module _ {ℓ κ μ ν} {A : Type ℓ} (P : A → Type κ) (Q : A → Type μ) (R : A → Type ν) where
  pub All-both : (f : (x : A) → P x → Q x → R x) (xs : List A) → All P xs → All Q xs → All R xs
  All-both f [] h k = tt
  All-both f (x ∷ xs) h k = (f x h.0 k.0, All-both f xs h.1 k.1)

module _ {ℓ κ μ} {A : Type ℓ} {B : Type κ} (P : B → Type μ) where
  pub All-map : (f : A → B) (xs : List A) → All (λ x. P (f x)) xs → All P (map f xs)
  All-map f [] h = tt
  All-map f (x ∷ xs) h = (h.0, All-map f xs h.1)

  pub All-unmap : (f : A → B) (xs : List A) → All P (map f xs) → All (λ x. P (f x)) xs
  All-unmap f [] h = tt
  All-unmap f (x ∷ xs) h = (h.0, All-unmap f xs h.1)

module _ {ℓ κ} {A : Type ℓ} (R : A → A → Type κ) where
  pub Pairs-snoc : (xs : List A) (y : A) → Pairs R xs → All (λ x. R x y) xs → Pairs R (xs ++ y ∷ [])
  Pairs-snoc [] y h k = (tt, tt)
  Pairs-snoc (x ∷ xs) y h k = (All-append (R x) xs (y ∷ []) h.0 (k.0, tt), Pairs-snoc xs y h.1 k.1)

  pub Pairs-append_right : (xs ys : List A) → Pairs R (xs ++ ys) → Pairs R ys
  Pairs-append_right [] ys h = h
  Pairs-append_right (x ∷ xs) ys h = Pairs-append_right xs ys h.1

  -- Each of the first list with each of the second.
  pub Pairs-append_across : (xs ys : List A) → Pairs R (xs ++ ys) → All (λ x. All (R x) ys) xs
  Pairs-append_across [] ys h = tt
  Pairs-append_across (x ∷ xs) ys h =
      (All-append_right (R x) xs ys h.0, Pairs-append_across xs ys h.1)

module _ {ℓ κ μ} {A : Type ℓ} {B : Type κ} (R : B → B → Type μ) where
  pub Pairs-unmap : (f : A → B) (xs : List A) → Pairs R (map f xs) → Pairs (λ x y. R (f x) (f y)) xs
  Pairs-unmap f [] h = tt
  Pairs-unmap f (x ∷ xs) h = (All-unmap (R (f x)) f xs h.0, Pairs-unmap f xs h.1)

-- Some element of the list.
abbrev pub Any {ℓ} : {A : Type ℓ} → (A → Type 0) → List A → Type 0
Any P [] = ⊥
Any P (x ∷ xs) = P x ⊎ Any P xs

module _ {ℓ} {A : Type ℓ} (P Q : A → Type 0) where
  pub Any-imp : (f : (x : A) → P x → Q x) (xs : List A) → Any P xs → Any Q xs
  Any-imp f [] h = h
  Any-imp f (x ∷ xs) (inl h) = inl (f x h)
  Any-imp f (x ∷ xs) (inr h) = inr (Any-imp f xs h)

  -- What holds of all holds of the one.
  pub All-at : (xs : List A) → All P xs → Any Q xs → (x : A) × P x × Q x
  All-at [] h k = absurd k
  All-at (x ∷ xs) h (inl k) = (x, h.0, k)
  All-at (x ∷ xs) h (inr k) = All-at xs h.1 k

module _ {ℓ} {A : Type ℓ} (P : A → Type 0) where
  pub Any-append_left : (xs ys : List A) → Any P xs → Any P (xs ++ ys)
  Any-append_left [] ys h = absurd h
  Any-append_left (x ∷ xs) ys (inl h) = inl h
  Any-append_left (x ∷ xs) ys (inr h) = inr (Any-append_left xs ys h)

  pub Any-append_right : (xs ys : List A) → Any P ys → Any P (xs ++ ys)
  Any-append_right [] ys h = h
  Any-append_right (x ∷ xs) ys h = inr (Any-append_right xs ys h)

-- Each element is in its list.
abbrev pub In : {A : Type 0} → List A → A → Type 0
In xs x = Any (λ y. y ≡ x) xs

pub All-In : {A : Type 0} (xs : List A) → All (In xs) xs
All-In [] = tt
All-In (x ∷ xs) = (inl refl, All-imp (In xs) (In (x ∷ xs)) (λ y h. inr h) xs (All-In xs))

module _ {ℓ κ μ ν} {A : Type ℓ} (P : A → Type κ) (R : A → A → Type μ) (S : A → A → Type ν)
    (f : (x y : A) → P x → P y → R x y → S x y) where
  Pairs-imp_head : (x : A) (ys : List A) → P x → All P ys → All (R x) ys → All (S x) ys
  Pairs-imp_head x [] p h k = tt
  Pairs-imp_head x (y ∷ ys) p h k = (f x y p h.0 k.0, Pairs-imp_head x ys p h.1 k.1)

  -- A relation between elements that have a property.
  pub Pairs-imp : (xs : List A) → All P xs → Pairs R xs → Pairs S xs
  Pairs-imp [] h k = tt
  Pairs-imp (x ∷ xs) h k = (Pairs-imp_head x xs h.0 h.1 k.0, Pairs-imp xs h.1 k.1)

module _ {ℓ κ} {A : Type ℓ} (R : A → A → Type κ) where
  pub Pairs-filter_if : (test : A → Bool) (xs : List A) → Pairs R xs → Pairs R (filter_if test xs)
  unfolding filter_if
  Pairs-filter_if test [] h = tt
  Pairs-filter_if test (x ∷ xs) h = elim (Bool-cases (test x)) [
    | inl e ↦ rw e (All-filter_if (R x) test xs h.0, Pairs-filter_if test xs h.1)
    | inr e ↦ rw e (Pairs-filter_if test xs h.1)
  ]

-- What holds of the elements that a comprehension keeps.
pub All-unfilter_if {ℓ κ} :
    {A : Type ℓ} (P : A → Type κ) (test : A → Bool) (xs : List A)
    → All P (filter_if test xs)
    → All (λ x. test x ≡ true → P x) xs
unfolding filter_if
All-unfilter_if P test [] h = tt
All-unfilter_if P test (x ∷ xs) h = elim (Bool-cases (test x)) [
  | inl e ↦
      let h' : All P (x ∷ filter_if test xs) = rw e at h in
      (λ t. h'.0, All-unfilter_if P test xs h'.1)
  | inr e ↦
      let h' : All P (filter_if test xs) = rw e at h in (λ t. cc, All-unfilter_if P test xs h')
]

-- What is found is in the list.
pub find_if-In :
    {A : Type 0} (test : A → Bool) (xs : List A) (x : A) → find_if test xs ≡ some x → In xs x
unfolding find_if
find_if-In test [] x e = cc
find_if-In test (first ∷ rest) x e = elim (Bool-cases (test first)) [
  | inl k ↦ inl (some_injective (rw k at e))
  | inr k ↦ inr (find_if-In test rest x (rw k at e))
]

-- What all have, this one has.
pub All-In_at : {A : Type 0} (P : A → Type 0) (xs : List A) (x : A) → All P xs → In xs x → P x
All-In_at P xs x h k = let (y, p, same) = All-at P (λ y. y ≡ x) xs h k in subst P same p

-- What the Boolean tests of a list say.
module _ {A : Type 0} (test : A → Bool) where
  pub any_of-Any : (xs : List A) → (any_of test xs ≡ true) ↔ Any (λ x. test x ≡ true) xs
  unfolding any_of
  any_of-Any [] = (λ e. false≢true e, λ h. absurd h)
  any_of-Any (x ∷ xs) = elim (Bool-cases (test x)) [
    | inl k ↦ (λ e. inl k, λ h. rw k refl)
    | inr k ↦
        let rest = any_of-Any xs in
        (
          λ e. inr (rest.0 (rw k at e)),
          λ h. rw k (rest.1 (elim h [ inl here ↦ absurd (false≢true (sym k ∙ here)) | inr l ↦ l ])),
        )
  ]

  pub any_of-false : (xs : List A) → (any_of test xs ≡ false) ↔ All (λ x. test x ≡ false) xs
  unfolding any_of
  any_of-false [] = (λ e. tt, λ h. refl)
  any_of-false (x ∷ xs) = elim (Bool-cases (test x)) [
    | inl k ↦ (λ e. absurd (false≢true (sym (rw k at e))), λ h. absurd (false≢true (sym h.0 ∙ k)))
    | inr k ↦ let rest = any_of-false xs in (λ e. (k, rest.0 (rw k at e)), λ h. rw k (rest.1 h.1))
  ]

module _ {ℓ κ} {A : Type ℓ} (R : A → A → Type κ) where
  pub Pairs-append_left : (xs ys : List A) → Pairs R (xs ++ ys) → Pairs R xs
  Pairs-append_left [] ys h = tt
  Pairs-append_left (x ∷ xs) ys h = (All-append_left (R x) xs ys h.0, Pairs-append_left xs ys h.1)

  pub Pairs-append :
      (xs ys : List A) → Pairs R xs → All (λ x. All (R x) ys) xs → Pairs R ys → Pairs R (xs ++ ys)
  Pairs-append [] ys h across k = k
  Pairs-append (x ∷ xs) ys h across k =
      (All-append (R x) xs ys h.0 across.0, Pairs-append xs ys h.1 across.1 k)

-- What holds of the elements that pass a test holds of what a comprehension keeps.
pub All-refilter_if {ℓ κ} :
    {A : Type ℓ} (P : A → Type κ) (test : A → Bool) (xs : List A)
    → All (λ x. test x ≡ true → P x) xs
    → All P (filter_if test xs)
unfolding filter_if
All-refilter_if P test [] h = tt
All-refilter_if P test (x ∷ xs) h = elim (Bool-cases (test x)) [
  | inl e ↦ rw e (h.0 e, All-refilter_if P test xs h.1)
  | inr e ↦ rw e (All-refilter_if P test xs h.1)
]

-- What a comprehension keeps is what passes its test.
pub Any-filter_if :
    {A : Type 0} (P : A → Type 0) (test : A → Bool) (xs : List A)
    → Any (λ x. (test x ≡ true) × P x) xs
    → Any P (filter_if test xs)
unfolding filter_if
Any-filter_if P test [] h = absurd h
Any-filter_if P test (x ∷ xs) (inl h) = rw h.0 (inl h.1)
Any-filter_if P test (x ∷ xs) (inr h) = elim (Bool-cases (test x)) [
  | inl e ↦ rw e (inr (Any-filter_if P test xs h))
  | inr e ↦ rw e (Any-filter_if P test xs h)
]

pub Any-unfilter_if :
    {A : Type 0} (P : A → Type 0) (test : A → Bool) (xs : List A)
    → Any P (filter_if test xs)
    → Any (λ x. (test x ≡ true) × P x) xs
unfolding filter_if
Any-unfilter_if P test [] h = absurd h
Any-unfilter_if P test (x ∷ xs) h = elim (Bool-cases (test x)) [
  | inl e ↦
      let h' : Any P (x ∷ filter_if test xs) = rw e at h in
      elim h' [ inl p ↦ inl (e, p) | inr l ↦ inr (Any-unfilter_if P test xs l) ]
  | inr e ↦ let h' : Any P (filter_if test xs) = rw e at h in inr (Any-unfilter_if P test xs h')
]

pub Any-append :
    {A : Type 0} (P : A → Type 0) (xs ys : List A) → Any P (xs ++ ys) → Any P xs ⊎ Any P ys
Any-append P [] ys h = inr h
Any-append P (x ∷ xs) ys (inl h) = inl (inl h)
Any-append P (x ∷ xs) ys (inr h) = elim (Any-append P xs ys h) [
  | inl l ↦ inl (inr l)
  | inr r ↦ inr r
]

-- Two tests that agree on a list keep the same.
pub filter_if-same {ℓ} :
    {A : Type ℓ} (test other : A → Bool) (xs : List A)
    → All (λ x. test x ≡ other x) xs
    → filter_if test xs ≡ filter_if other xs
unfolding filter_if
filter_if-same test other [] h = refl
filter_if-same test other (x ∷ xs) h = rw (h.0, filter_if-same test other xs h.1) refl

-- Where a test fails throughout, nothing is found.
pub find_if-none {ℓ} :
    {A : Type ℓ} (test : A → Bool) (xs : List A)
    → All (λ x. test x ≡ false) xs
    → find_if test xs ≡ none
unfolding find_if
find_if-none test [] h = refl
find_if-none test (x ∷ xs) h = rw h.0 (find_if-none test xs h.1)

module _ {ℓ κ μ} {A : Type ℓ} {B : Type κ} (R : B → B → Type μ) where
  pub Pairs-map : (f : A → B) (xs : List A) → Pairs (λ x y. R (f x) (f y)) xs → Pairs R (map f xs)
  Pairs-map f [] h = tt
  Pairs-map f (x ∷ xs) h = (All-map (R (f x)) f xs h.0, Pairs-map f xs h.1)
