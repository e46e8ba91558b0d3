-- ===== src/Scheduler/Mask/Gaps.antt =====
-- src/smartplanner/scheduler.py: `_gaps` against the runs of ones that it stands for.
use planer.Prelude.{
  ℕ, zero, suc, ◌+◌, ◌-◌, ◌≤◌, ◌<◌, ◌≡◌, refl, ◌⊎◌, inl, inr, true, false, List, [], ◌∷◌, arith,
  ltb, ltb→lt, Bool-cases, All,
}
use planer.Scheduler.Mask.{Mask, Interval, bit, gap_end, gaps_from, gaps}

-- A run of ones in [start, end) that cannot be made longer on either side.
pub record IsRun (mask : Mask) (start end : ℕ) (gap : Interval) : Type 0 where
  pub from_start : start ≤ gap.0
  pub nonempty : gap.0 < gap.1
  pub to_end : gap.1 ≤ end
  pub ones : (i : ℕ) → gap.0 ≤ i → i < gap.1 → bit mask i ≡ true
  pub left_edge : (gap.0 ≡ start) ⊎ (bit mask (gap.0 - 1) ≡ false)
  pub right_edge : (gap.1 ≡ end) ⊎ (bit mask gap.1 ≡ false)

abbrev pub Covers : ℕ → List Interval → Type 0
Covers i [] = ⊥
Covers i (gap ∷ rest) = (gap.0 ≤ i × i < gap.1) ⊎ Covers i rest

record IsRunEnd (n : ℕ) (mask : Mask) (index stop : ℕ) : Type 0 where
  after : index ≤ stop
  before : stop ≤ index + n
  ones : (i : ℕ) → index ≤ i → i < stop → bit mask i ≡ true
  edge : (stop ≡ index + n) ⊎ (bit mask stop ≡ false)

IsRunEnd-step :
    (n : ℕ) (mask : Mask) (index stop : ℕ)
    → bit mask index ≡ true
    → IsRunEnd n mask (index + 1) stop
    → IsRunEnd (suc n) mask index stop
IsRunEnd-step n mask index stop e h = record {
  after = omega (arith, h.after);
  before = omega (arith, h.before);
  ones = λ i l r. ground (arith, h.ones i);
  edge = elim h.edge [ inl k ↦ inl (omega (arith, k)) | inr k ↦ inr k ];
}

gap_end-IsRunEnd : (n : ℕ) (mask : Mask) (index : ℕ) → IsRunEnd n mask index (gap_end n mask index)
unfolding gap_end
gap_end-IsRunEnd zero mask index = record {
  after = omega arith;
  before = omega arith;
  ones = λ i l r. absurd (omega arith);
  edge = inl (omega arith);
}
gap_end-IsRunEnd (suc n) mask index = elim (Bool-cases (bit mask index)) [
  | inl e ↦ rw (e, gap_end) (IsRunEnd-step n mask index _ e (gap_end-IsRunEnd n mask (index + 1)))
  | inr e ↦
      rw (e, gap_end)
        (record {
          after = omega arith;
          before = omega arith;
          ones = λ i l r. absurd (omega arith);
          edge = inr e;
        })
]

-- The outer loop starts a round at `start`, behind a zero, on a zero or at the end.
abbrev Resumes : Mask → ℕ → ℕ → ℕ → Type 0
Resumes mask start end index =
    (index ≡ start) ⊎ (bit mask (index - 1) ≡ false) ⊎ (bit mask index ≡ false) ⊎ (end ≤ index)

module _ (mask : Mask) (start end : ℕ) where
  run_end_after :
      (index : ℕ) → index < end → bit mask index ≡ true → index < gap_end (end - index) mask index
  run_end_after index high e =
      let r = gap_end-IsRunEnd (end - index) mask index in
      elim r.edge [ inl k ↦ omega (arith, k) | inr k ↦ ground (arith, r.after, k) ]

  IsRun-first :
      (index : ℕ)
      → start ≤ index
      → index < end
      → bit mask index ≡ true
      → Resumes mask start end index
      → IsRun mask start end (index, gap_end (end - index) mask index)
  IsRun-first index low high e h =
      let r = gap_end-IsRunEnd (end - index) mask index in
      record {
        from_start = low;
        nonempty = run_end_after index high e;
        to_end = omega (arith, r.before);
        ones = r.ones;
        left_edge = ground arith;
        right_edge = elim r.edge [ inl k ↦ inl (omega (arith, k)) | inr k ↦ inr k ];
      }

  gaps_from-IsRun :
      (rounds index : ℕ)
      → start ≤ index
      → Resumes mask start end index
      → All (IsRun mask start end) (gaps_from rounds mask index end)
  unfolding gaps_from
  gaps_from-IsRun zero index low h = tt
  gaps_from-IsRun (suc rounds) index low h = elim (Bool-cases (ltb index end)) [
    | inr e ↦ rw (e, gaps_from) tt
    | inl e ↦ elim (Bool-cases (bit mask index)) [
      | inr k ↦
          rw (e, k, gaps_from)
            (gaps_from-IsRun rounds (index + 1) (omega arith) (inr (inl (ground arith))))
      | inl k ↦
          let run = IsRun-first index low (ltb→lt index end e) k h in
          rw (e, k, gaps_from)
            (
              run,
              gaps_from-IsRun rounds (gap_end (end - index) mask index)
                  (omega (arith, run.nonempty)) (resumes run.right_edge),
            )
    ]
  ]
    where
      resumes : {stop : ℕ} → (stop ≡ end) ⊎ (bit mask stop ≡ false) → Resumes mask start end stop
      resumes (inl k) = inr (inr (inr (omega (arith, k))))
      resumes (inr k) = inr (inr (inl k))

  gaps_from-Covers :
      (rounds index i : ℕ)
      → end - index ≤ rounds
      → index ≤ i
      → i < end
      → bit mask i ≡ true
      → Covers i (gaps_from rounds mask index end)
  unfolding gaps_from
  gaps_from-Covers zero index i fuel low high one = absurd (omega arith)
  gaps_from-Covers (suc rounds) index i fuel low high one = elim (Bool-cases (bit mask index)) [
    | inr k ↦
        rw (below, k, gaps_from)
          (gaps_from-Covers rounds (index + 1) i (omega arith) (ground arith) high one)
    | inl k ↦
        let stop = gap_end (end - index) mask index in
        rw (below, k, gaps_from)
          (elim (Bool-cases (ltb i stop)) [
            | inl inside ↦ inl (low, ltb→lt i stop inside)
            | inr outside ↦ inr (
                gaps_from-Covers rounds stop i (omega (arith, run_end_after index (omega arith) k))
                  (ground arith) high one)
          ])
  ]
    where
      below : ltb index end ≡ true
      below = ground arith

-- What `_gaps` yields, in a mask of any length: each gap is a maximal run of ones of the range,
-- and each one of the range lies in a gap.
pub gaps_exact :
    (mask : Mask) (start end : ℕ)
    → All (IsRun mask start end) (gaps mask start end)
      × ((i : ℕ) → start ≤ i → i < end → bit mask i ≡ true → Covers i (gaps mask start end))
unfolding gaps
gaps_exact mask start end = (
  gaps_from-IsRun mask start end (end - start) start (omega arith) (inl refl),
  λ i low high one.
      gaps_from-Covers mask start end (end - start) start i (omega arith) low high one,
)
