-- ===== src/Scheduler/Sound/FindSlot.antt =====
-- `find_slot`: what a slot that it returns is, and what it means that it returns none.
use planer.Prelude.{
  ℕ, ◌+◌, ◌-◌, ◌≤◌, ◌<◌, ◌≡◌, ◌⊎◌, inl, inr, refl, sym, subst, max, false, ◌||◌, Option, none, some,
  List, [], ◌∷◌, arith, Any, All, Bool-cases, ◌==◌, ltb,
}
use planer.Errors.{Result, ok, raise}
use planer.Models.{TaskRecord}
use planer.Scheduler.Mask.{Interval, gaps}
use planer.Scheduler.Setup.{Setup}
use planer.Scheduler.Planner.{bounds, free_mask}
use planer.Scheduler.Search.{
  Key, Best, key_before, longest_of, pauses, try_gaps, score, piece, piece_in, try_pauses,
  find_slot,
}
use planer.Scheduler.Sound.Slots.{IsCandidate, try_gaps_lem}

-- The answer of `try_gaps` ends the search if it is a slot, and goes on to `next` if it is none.
tried_cases :
    (r : Result Best) (budget length : ℕ) (next : ℕ → Result (Option (ℕ × ℕ)) × ℕ)
    (slot : Option (ℕ × ℕ))
    → (elim r as (λ _. Result (Option (ℕ × ℕ)) × ℕ) [
      | raise e ↦ (raise e, budget)
      | ok best ↦ elim best [
        | some (key, start) ↦ (ok (some (start, length)), budget)
        | none ↦ next budget
      ]
    ]).0
      ≡ ok slot
    → ((r ≡ ok none) × ((next budget).0 ≡ ok slot))
      ⊎ ((key : Key) × (start : ℕ) × (r ≡ ok (some (key, start))) × (slot ≡ some (start, length)))
tried_cases (raise e) budget length next slot h = cc
tried_cases (ok none) budget length next slot h = inl (refl, h)
tried_cases (ok (some (key, start))) budget length next slot h = inr (key, start, refl, cc)

-- The longest gap is one of the gaps.
longest_of-Any :
    (found : List Interval)
    → 0 < longest_of found
    → Any (λ gap. gap.0 + longest_of found ≤ gap.1) found
unfolding longest_of
longest_of-Any [] h = absurd (omega arith)
longest_of-Any ((start, end) ∷ rest) h = elim (Bool-cases (ltb (end - start) (longest_of rest))) [
  | inl e ↦
      let same : max (end - start) (longest_of rest) ≡ longest_of rest = ground arith in
      inr (
        subst (λ n. Any (λ gap. gap.0 + n ≤ gap.1) rest) (sym same)
          (longest_of-Any rest (omega (arith, same))))
  | inr e ↦ inl (ground arith)
]

module _ (planner : Setup) (task : TaskRecord) (target : ℕ) (busy : List Interval)
    (used : List ℕ) where
  -- The gaps of the free minutes between the bounds of the task.
  abbrev pub free_gaps : ℕ → List Interval
  free_gaps pause =
      gaps (free_mask planner busy pause) (bounds planner task).0 (bounds planner task).1

  abbrev pub slot_length : ℕ → ℕ
  slot_length pause = piece_in planner task target (longest_of (free_gaps pause))

  -- A candidate with the least key, at a pause for which there is one.
  pub record IsSlot (start length : ℕ) : Type 0 where
    pub pause : ℕ
    pub full : length ≡ slot_length pause
    pub positive : 0 < length
    pub candidate : IsCandidate length (free_gaps pause) start
    pub least :
        (other : ℕ)
        → IsCandidate length (free_gaps pause) other
        → key_before (score planner task other length used) (score planner task start length used)
          ≡ false

  -- There is nothing to place, or every gap is too short for it.
  abbrev pub HasNoRoom : ℕ → Type 0
  HasNoRoom pause = (slot_length pause ≡ 0) ⊎ (longest_of (free_gaps pause) < slot_length pause)

  IsSlot-found :
      (pause start budget : ℕ) (key : Key)
      → (slot_length pause == 0 || ltb (longest_of (free_gaps pause)) (slot_length pause)) ≡ false
      → (try_gaps
          (λ st. score planner task st (slot_length pause) used)
          (slot_length pause)
          (free_gaps pause)
          none
          budget).0
        ≡ ok (some (key, start))
      → (slot : IsSlot start (slot_length pause)) × (pause ≡ slot.pause)
  IsSlot-found pause start budget key room e =
      let found =
        try_gaps_lem (λ st. score planner task st (slot_length pause) used) (slot_length pause)
          (free_gaps pause) budget (some (key, start)) e in
      (
        record {
          pause = pause;
          full = refl;
          positive = ground arith;
          candidate = found.1;
          least = λ other c.
              subst
                (λ (k : Key).
                  key_before (score planner task other (slot_length pause) used) k ≡ false)
                found.0 (found.2 other c);
        },
        refl,
      )

  -- A pass whose length fits into the longest gap has a candidate.
  IsCandidate-exists :
      (pause : ℕ)
      → (slot_length pause == 0 || ltb (longest_of (free_gaps pause)) (slot_length pause)) ≡ false
      → (start : ℕ) × IsCandidate (slot_length pause) (free_gaps pause) start
  IsCandidate-exists pause room =
      let n = slot_length pause in
      let fits : n ≤ longest_of (free_gaps pause) = ground arith in
      let positive : 0 < longest_of (free_gaps pause) = ground arith in
      go (free_gaps pause) n (longest_of (free_gaps pause)) fits
        (longest_of-Any (free_gaps pause) positive)
    where
      go :
          (found : List Interval) (n most : ℕ)
          → n ≤ most
          → Any (λ gap. gap.0 + most ≤ gap.1) found
          → (start : ℕ) × IsCandidate n found start
      go [] n most fits a = absurd a
      go (gap ∷ rest) n most fits (inl h) = (gap.0, inl (omega arith, omega (arith, h)))
      go (gap ∷ rest) n most fits (inr h) = let (start, c) = go rest n most fits h in (start, inr c)

  -- The pause is one of the list, and those before it have no room.
  abbrev pub IsFirst : List ℕ → ℕ → Type 0
  IsFirst [] pause = ⊥
  IsFirst (first ∷ rest) pause = (first ≡ pause) ⊎ (HasNoRoom first × IsFirst rest pause)

  -- What `try_pauses` returns: a slot at the first pause with room, or the reason why there is none.
  abbrev pub Explains : List ℕ → Option (ℕ × ℕ) → Type 0
  Explains pauses none = All HasNoRoom pauses
  Explains pauses (some (start, length)) = (slot : IsSlot start length) × IsFirst pauses slot.pause

  Explains-cons :
      (pause : ℕ) (pauses : List ℕ) (slot : Option (ℕ × ℕ))
      → HasNoRoom pause
      → Explains pauses slot
      → Explains (pause ∷ pauses) slot
  Explains-cons pause pauses none h k = (h, k)
  Explains-cons pause pauses (some (start, length)) h k = (k.0, inr (h, k.1))

  try_pauses-Explains :
      (pauses : List ℕ) (budget : ℕ) (slot : Option (ℕ × ℕ))
      → (try_pauses planner task target busy used pauses budget).0 ≡ ok slot
      → Explains pauses slot
  unfolding try_pauses
  try_pauses-Explains [] budget slot e = let same : none ≡ slot = cc in subst (Explains []) same tt
  try_pauses-Explains (pause ∷ rest) budget slot e =
      let n = slot_length pause in
      let skip = n == 0 || ltb (longest_of (free_gaps pause)) n in
      let tried = try_gaps (λ st. score planner task st n used) n (free_gaps pause) none budget in
      elim (Bool-cases skip) [
        | inl k ↦
            Explains-cons pause rest slot (ground (arith, k))
              (try_pauses-Explains rest budget slot (rw k at e))
        | inr k ↦
            elim (tried_cases tried.0 tried.1 n (try_pauses planner task target busy used rest) slot
              (rw k at e)) [
                | inl h ↦
                    let (start, c) = IsCandidate-exists pause k in
                    absurd (
                      try_gaps_lem (λ st. score planner task st n used) n (free_gaps pause) budget
                        none h.0 start c)
                | inr h ↦
                    subst (Explains (pause ∷ rest)) (sym h.3) (
                      let (slot, same) = IsSlot-found pause h.1 budget h.0 k h.2 in
                      (slot, inl same))
              ]
      ]

module _ (planner : Setup) (task : TaskRecord) (remaining : ℕ) (busy : List Interval)
    (used : List ℕ) (budget : ℕ) where
  -- An answer that `find_slot` returns is explained. A slot has the length that the longest gap of
  -- the first pause with room allows, it lies in a gap of that pause, and no start of this length
  -- in these gaps has a key before its key. None means that at no pause a gap is long enough.
  pub find_slot-Explains :
      (slot : Option (ℕ × ℕ))
      → (find_slot planner task remaining busy used budget).0 ≡ ok slot
      → Explains planner task
          (piece planner task remaining)
          busy
          used
          (pauses planner.preferences.break_minutes)
          slot
  unfolding find_slot
  find_slot-Explains slot e =
      try_pauses-Explains planner task (piece planner task remaining) busy used
        (pauses planner.preferences.break_minutes) budget slot e
