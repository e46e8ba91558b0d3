-- ===== src/Scheduler/Sound/Masks.antt =====
-- `free_mask` and the marking of a placed block leave only free minutes.
use planer.Prelude.{
  ℕ, zero, suc, ◌+◌, ◌-◌, ◌≤◌, ◌<◌, ◌≡◌, refl, true, false, List, [], ◌∷◌, ◌++◌, arith, length, min,
  All, All-append, sym, ◌∙◌,
}
use planer.Scheduler.Mask.{Mask, Interval, bit, fill}
use planer.Scheduler.Mask.Fill.{length-fill, bit-fill}
use planer.Scheduler.Setup.{Setup}
use planer.Scheduler.Planner.{clear_busy, free_mask}
use planer.Scheduler.Sound.{Disjoint, Misses, IsSolid, IsClear}

pub bit-lt-length : (mask : Mask) (i : ℕ) → bit mask i ≡ true → i < length mask
bit-lt-length [] i h = cc
bit-lt-length (b ∷ mask) zero h = omega arith
bit-lt-length (b ∷ mask) (suc i) h = omega (arith, bit-lt-length mask i h)

pub length-clear_busy :
    (size pause : ℕ) (busy : List Interval) (mask : Mask)
    → length (clear_busy size pause busy mask) ≡ length mask
unfolding clear_busy
length-clear_busy size pause [] mask = refl
length-clear_busy size pause ((left, right) ∷ busy) mask =
    length-clear_busy size pause busy _ ∙ length-fill _ _ _ mask

-- A minute that is free after an interval was cleared was free before, and is not in it.
bit_of_cleared :
    (mask : Mask) (size pause left right i : ℕ)
    → length mask ≡ size
    → bit (fill false (left - pause) (min size (right + pause)) mask) i ≡ true
    → (bit mask i ≡ true) × Misses i (left, right)
bit_of_cleared mask size pause left right i e h =
    let was =
      sym (bit-fill false (left - pause) (min size (right + pause)) mask i (omega arith)) ∙ h in
    let inside = bit-lt-length mask i in ground (arith, was, inside)

pub clear_busy-IsClear :
    (size pause : ℕ) (busy : List Interval) (mask : Mask)
    → length mask ≡ size
    → IsClear mask (clear_busy size pause busy mask) busy
unfolding clear_busy
clear_busy-IsClear size pause [] mask e i h = (h, tt)
clear_busy-IsClear size pause ((left, right) ∷ busy) mask e i h =
    let rest =
      clear_busy-IsClear size pause busy (fill false (left - pause) (min size (right + pause)) mask)
        (length-fill _ _ _ mask ∙ e) i h in
    let here = bit_of_cleared mask size pause left right i e rest.0 in (here.0, (here.1, rest.1))

module _ (planner : Setup) (sized : length planner.available ≡ planner.size) where
  pub free_mask-IsClear :
      (busy : List Interval) (pause : ℕ)
      → IsClear planner.available (free_mask planner busy pause) busy
  unfolding free_mask
  free_mask-IsClear busy pause = clear_busy-IsClear planner.size pause busy planner.available sized

  pub length-free_mask :
      (busy : List Interval) (pause : ℕ) → length (free_mask planner busy pause) ≡ planner.size
  unfolding free_mask
  length-free_mask busy pause = length-clear_busy planner.size pause busy _ ∙ sized

-- Marking an interval as taken is one more busy interval.
pub fill-IsClear :
    (available mask : Mask) (busy : List Interval) (left right : ℕ)
    → right ≤ length mask
    → IsClear available mask busy
    → IsClear available (fill false left right mask) (busy ++ (left, right) ∷ [])
fill-IsClear available mask busy left right fits clear i h =
    let was = sym (bit-fill false left right mask i fits) ∙ h in
    let old : bit mask i ≡ true = ground (arith, was) in
    let outside : Misses i (left, right) = ground (arith, was) in
    ((clear i old).0, All-append (Misses i) busy _ (clear i old).1 (outside, tt))

-- An interval of free minutes is disjoint from every busy interval.
Disjoint-of_Misses :
    (a : Interval) (left right : ℕ)
    → left < right
    → IsSolid a
    → ((i : ℕ) → left ≤ i → i < right → Misses i a)
    → Disjoint a (left, right)
Disjoint-of_Misses (l, r) left right solid fine miss = ground (arith, miss l, miss left)

pub free_interval-Disjoint :
    (available mask : Mask) (busy : List Interval) (left right : ℕ)
    → IsClear available mask busy
    → All IsSolid busy
    → left < right
    → ((i : ℕ) → left ≤ i → i < right → bit mask i ≡ true)
    → All (λ a. Disjoint a (left, right)) busy
free_interval-Disjoint available mask [] left right clear solid lt ones = tt
free_interval-Disjoint available mask (a ∷ busy) left right clear solid lt ones = (
  Disjoint-of_Misses a left right lt solid.0 (λ i l r. (clear i (ones i l r)).1.0),
  free_interval-Disjoint available mask busy left right (λ i h. ((clear i h).0, (clear i h).1.1))
      solid.1 lt ones,
)
