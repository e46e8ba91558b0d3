-- ===== src/Scheduler/Sound/Slots.antt =====
-- `find_slot`: the loops over the gaps keep the best candidate.
use planer.Prelude.{
  ℕ, zero, suc, ◌+◌, ◌-◌, ◌≤◌, ◌<◌, ◌≡◌, ◌⊎◌, inl, inr, refl, subst, true, false, none, some, List,
  [], ◌∷◌, arith, Any, Bool-cases,
}
use planer.Errors.{Result, ok, raise}
use planer.Scheduler.Mask.{Interval}
use planer.Scheduler.Search.{Key, Best, key_before, better, try_starts, try_gaps}

-- The starts of the pieces of this length that lie in the gap.
abbrev pub StartsIn : ℕ → ℕ → Interval → Type 0
StartsIn length start gap = gap.0 ≤ start × (start + length ≤ gap.1)

abbrev pub IsCandidate : ℕ → List Interval → ℕ → Type 0
IsCandidate length gaps start = Any (StartsIn length start) gaps

-- `best` has the least key of the starts that were tried; it is none only if none was.
abbrev pub IsBest : (ℕ → Key) → (ℕ → Type 0) → Best → Type 0
IsBest score Tried none = (i : ℕ) → ¬ Tried i
IsBest score Tried (some (key, start)) =
    (key ≡ score start) × Tried start × ((i : ℕ) → Tried i → key_before (score i) key ≡ false)

key_before_irrefl : (k : Key) → key_before k k ≡ false
key_before_irrefl (c, s) = ground arith

key_before_trans :
    (a b c : Key) → key_before a b ≡ true → key_before c b ≡ false → key_before c a ≡ false
key_before_trans (a, a') (b, b') (c, c') h k = ground arith

first_or_later : (i start : ℕ) → start ≤ i → (i ≡ start) ⊎ (start + 1 ≤ i)
first_or_later i start h = ground arith

module _ (score : ℕ → Key) where
  IsBest-iff :
      (P Q : ℕ → Type 0) (best : Best)
      → ((i : ℕ) → P i → Q i)
      → ((i : ℕ) → Q i → P i)
      → IsBest score P best
      → IsBest score Q best
  IsBest-iff P Q none f g h = λ i q. h i (g i q)
  IsBest-iff P Q (some (key, start)) f g h = (h.0, f start h.1, λ i q. h.2 i (g i q))

  better-IsBest :
      (Tried : ℕ → Type 0) (start : ℕ) (best : Best)
      → IsBest score Tried best
      → IsBest score (λ i. Tried i ⊎ (i ≡ start)) (better (score start) start best)
  unfolding better
  better-IsBest Tried start none h = (
    refl,
    inr refl,
    λ i t. elim t [ inl old ↦ absurd (h i old) | inr e ↦ rw e (key_before_irrefl (score start)) ],
  )
  better-IsBest Tried start (some (key, at)) h = elim (Bool-cases (key_before (score start) key)) [
    | inl e ↦ rw e (
      refl,
      inr refl,
      λ i t. elim t [
        | inl old ↦ key_before_trans (score start) key (score i) e (h.2 i old)
        | inr same ↦ rw same (key_before_irrefl (score start))
      ],
    )
    | inr e ↦ rw e (h.0, inl h.1, λ i t. elim t [ inl old ↦ h.2 i old | inr same ↦ rw same e ])
  ]

  try_starts-IsBest :
      (left start : ℕ) (best : Best) (budget : ℕ) (Tried : ℕ → Type 0) (found : Best)
      → IsBest score Tried best
      → (try_starts score left start best budget).0 ≡ ok found
      → IsBest score (λ i. Tried i ⊎ (start ≤ i × i < start + left)) found
  unfolding try_starts
  try_starts-IsBest zero start best budget Tried found h e =
      let same : best ≡ found = cc in
      IsBest-iff Tried _ found (λ i t. inl t)
        (λ i t. elim t [ inl old ↦ old | inr r ↦ absurd (omega (arith, r.0, r.1)) ])
        (subst (IsBest score Tried) same h)
  try_starts-IsBest (suc left) start best zero Tried found h e = cc
  try_starts-IsBest (suc left) start best (suc budget) Tried found h e =
      IsBest-iff _ _ found
        (λ i t. elim t [
          | inl old ↦ elim old [
            | inl older ↦ inl older
            | inr same ↦ inr (omega (arith, same), omega (arith, same))
          ]
          | inr r ↦ inr (omega (arith, r.0), omega (arith, r.1))
        ])
        (λ i t. elim t [
          | inl old ↦ inl (inl old)
          | inr r ↦ elim (first_or_later i start r.0) [
            | inl same ↦ inl (inr same)
            | inr later ↦ inr (later, omega (arith, r.1))
          ]
        ])
        (try_starts-IsBest left (start + 1) (better (score start) start best) budget
          (λ i. Tried i ⊎ (i ≡ start)) found (better-IsBest Tried start best h) e)

  gap_continues :
      (length : ℕ) (rest : List Interval) (r : Result Best) (budget : ℕ) (found : Best)
      → (elim r as (λ _. Result Best × ℕ) [
        | raise e ↦ (raise e, budget)
        | ok best ↦ try_gaps score length rest best budget
      ]).0
        ≡ ok found
      → (best : Best) × (r ≡ ok best) × ((try_gaps score length rest best budget).0 ≡ ok found)
  gap_continues length rest (ok best) budget found e = (best, refl, e)
  gap_continues length rest (raise x) budget found e = cc

  -- The best candidate of all gaps, and of those that were tried before.
  try_gaps-IsBest :
      (length : ℕ) (gaps : List Interval) (best : Best) (budget : ℕ) (Tried : ℕ → Type 0)
      (found : Best)
      → IsBest score Tried best
      → (try_gaps score length gaps best budget).0 ≡ ok found
      → IsBest score (λ i. Tried i ⊎ IsCandidate length gaps i) found
  unfolding try_gaps
  try_gaps-IsBest length [] best budget Tried found h e =
      let same : best ≡ found = cc in
      IsBest-iff Tried _ found (λ i t. inl t) (λ i t. elim t [ inl old ↦ old | inr r ↦ absurd r ])
        (subst (IsBest score Tried) same h)
  try_gaps-IsBest length ((begin, end) ∷ rest) best budget Tried found h e =
      let count = end + 1 - (begin + length) in
      let tried = try_starts score count begin best budget in
      let (best', now, later) = gap_continues length rest tried.0 tried.1 found e in
      IsBest-iff _ _ found
        (λ i t. elim t [
          | inl old ↦ elim old [
            | inl older ↦ inl older
            | inr r ↦ inr (inl (r.0, omega (arith, r.0, r.1)))
          ]
          | inr r ↦ inr (inr r)
        ])
        (λ i t. elim t [
          | inl old ↦ inl (inl old)
          | inr r ↦ elim r [
            | inl here ↦ inl (inr (here.0, omega (arith, here.0, here.1)))
            | inr there ↦ inr there
          ]
        ])
        (try_gaps-IsBest length rest best' tried.1 (λ i. Tried i ⊎ (begin ≤ i × i < begin + count))
          found (try_starts-IsBest count begin best budget Tried best' h now) later)

  -- From nothing: none is found only where there is no candidate, and what is found is a candidate
  -- whose key no other candidate comes before.
  pub try_gaps_lem :
      (length : ℕ) (gaps : List Interval) (budget : ℕ) (found : Best)
      → (try_gaps score length gaps none budget).0 ≡ ok found
      → IsBest score (IsCandidate length gaps) found
  try_gaps_lem length gaps budget found e =
      IsBest-iff _ _ found (λ i t. elim t [ inl no_start ↦ absurd no_start | inr r ↦ r ])
        (λ i t. inr t) (try_gaps-IsBest length gaps none budget (λ _. ⊥) found (λ i h. h) e)
