-- ===== src/Scheduler/Mask/Fill.antt =====
-- What a slice assignment and the test of a slice say of each minute.
use planer.Prelude.{
  ℕ, zero, suc, ◌+◌, ◌-◌, ◌≤◌, ◌<◌, ◌≡◌, refl, ap, Bool, true, ◌&&◌, [], ◌∷◌, arith, take, drop,
  all_of, length, ltb, leb, if◌then◌else◌, &&_parts, subst, sym, ◌∙◌,
}
use planer.Scheduler.Mask.{Mask, bit, fill, all_bits}

pub length-fill :
    (value : Bool) (left right : ℕ) (mask : Mask)
    → length (fill value left right mask) ≡ length mask
unfolding fill
length-fill value left right [] = refl
length-fill value left zero (b ∷ mask) = refl
length-fill value zero (suc right) (b ∷ mask) = ap suc (length-fill value zero right mask)
length-fill value (suc left) (suc right) (b ∷ mask) = ap suc (length-fill value left right mask)

-- A bit after the assignment: the value inside the slice, the old bit elsewhere.
pub bit-fill :
    (value : Bool) (left right : ℕ) (mask : Mask) (i : ℕ)
    → right ≤ length mask
    → bit (fill value left right mask) i ≡ (if leb left i && ltb i right then value else bit mask i)
unfolding fill
bit-fill value left right [] i h = ground arith
bit-fill value left zero (b ∷ mask) i h = ground arith
bit-fill value zero (suc right) (b ∷ mask) zero h = ground arith
bit-fill value zero (suc right) (b ∷ mask) (suc i) h =
    ground (arith, bit-fill value zero right mask i)
bit-fill value (suc left) (suc right) (b ∷ mask) zero h = ground arith
bit-fill value (suc left) (suc right) (b ∷ mask) (suc i) h =
    ground (arith, bit-fill value left right mask i)

bit_of_take :
    (n : ℕ) (mask : Mask) (i : ℕ)
    → all_of (λ b. b) (take n mask) ≡ true
    → i < n
    → i < length mask
    → bit mask i ≡ true
unfolding all_of
bit_of_take zero mask i h k l = absurd (omega arith)
bit_of_take (suc n) [] i h k l = absurd (omega arith)
bit_of_take (suc n) (b ∷ mask) zero h k l = (&&_parts b _ h).0
bit_of_take (suc n) (b ∷ mask) (suc i) h k l =
    bit_of_take n mask i (&&_parts b _ h).1 (omega arith) (omega arith)

bit-drop : (n : ℕ) (mask : Mask) (i : ℕ) → bit (drop n mask) i ≡ bit mask (n + i)
bit-drop zero mask i = ground arith
bit-drop (suc n) [] i = refl
bit-drop (suc n) (b ∷ mask) i = ground (arith, bit-drop n mask i)

length-drop : (n : ℕ) (mask : Mask) → length (drop n mask) ≡ length mask - n
length-drop zero mask = omega arith
length-drop (suc n) [] = omega arith
length-drop (suc n) (b ∷ mask) = omega (arith, length-drop n mask)

-- A slice that is all ones has a one at each of its minutes.
pub all_bits_sound :
    (mask : Mask) (left right i : ℕ)
    → all_bits mask left right ≡ true
    → right ≤ length mask
    → left ≤ i
    → i < right
    → bit mask i ≡ true
unfolding all_bits
all_bits_sound mask left right i h fits l r =
    let e : left + (i - left) ≡ i = omega arith in
    subst (λ k. bit mask k ≡ true) e
      (sym (bit-drop left mask (i - left))
        ∙ bit_of_take (right - left) (drop left mask) (i - left) h (omega arith)
            (omega (arith, length-drop left mask)))
