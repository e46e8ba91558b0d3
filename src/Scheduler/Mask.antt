-- ===== src/Scheduler/Mask.antt =====
-- src/smartplanner/scheduler.py: the minute mask (a `bytearray` of zeros and ones) and `_gaps`.
pub mod Fill
pub mod Gaps
use planer.Prelude.{
  ℕ, zero, suc, ◌+◌, ◌-◌, Bool, true, false, ◌&&◌, List, [], ◌∷◌, get_or, take, drop, all_of, ltb,
  if◌then◌else◌,
}

abbrev pub Mask : Type 0
Mask = List Bool

abbrev pub Interval : Type 0
Interval = ℕ × ℕ

-- `mask[index]`
abbrev pub bit : Mask → ℕ → Bool
bit mask index = get_or mask index false

-- `mask[left:right] = bytes([value]) * (right - left)`, for left ≤ right ≤ len(mask)
unfoldable pub fill : Bool → ℕ → ℕ → Mask → Mask
fill value left right [] = []
fill value left zero (b ∷ mask) = b ∷ mask
fill value zero (suc right) (b ∷ mask) = value ∷ fill value zero right mask
fill value (suc left) (suc right) (b ∷ mask) = b ∷ fill value left right mask

-- `all(mask[left:right])`
unfoldable pub all_bits : Mask → ℕ → ℕ → Bool
unfolding all_of
all_bits mask left right = all_of (λ b. b) (take (right - left) (drop left mask))

-- The inner loop of `_gaps`, with the number of rounds that are left.
unfoldable pub gap_end : ℕ → Mask → ℕ → ℕ
gap_end zero mask index = index
gap_end (suc left) mask index = elim (bit mask index) [
  | true ↦ gap_end left mask (index + 1)
  | false ↦ index
]

-- The outer loop. A round moves `index` on, so `end - start` rounds are enough.
unfoldable pub gaps_from : ℕ → Mask → ℕ → ℕ → List Interval
unfolding gap_end
gaps_from zero mask index end = []
gaps_from (suc rounds) mask index end = elim (ltb index end) [
  | false ↦ []
  | true ↦ elim (bit mask index) [
    | false ↦ gaps_from rounds mask (index + 1) end
    | true ↦
        let stop = gap_end (end - index) mask index in
        (index, stop) ∷ gaps_from rounds mask stop end
  ]
]

unfoldable pub gaps : Mask → ℕ → ℕ → List Interval
unfolding gaps_from
gaps mask start end = gaps_from (end - start) mask start end
