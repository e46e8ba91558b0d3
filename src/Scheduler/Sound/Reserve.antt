-- ===== src/Scheduler/Sound/Reserve.antt =====
-- `valid_block` and `reserve`: a block that was found valid on free minutes may be reserved.
use mathlib.Core.List.{append_assoc, map-append}
use planer.Prelude.{
  ℕ, ◌≤◌, ◌<◌, ◌≡◌, refl, sym, ap, ◌∙◌, subst, Bool, true, ◌&&◌, List, [], ◌∷◌, ◌++◌, arith, length,
  All, All-append, Pairs-snoc, ℤ, pos, negsuc, leb_ℤ, ltb_ℤ, pos_part,
}
use planer.Models.{TaskRecord}
use planer.Planning.{PlanBlock}
use planer.Scheduler.Mask.{Mask, Interval, bit, all_bits}
use planer.Scheduler.Mask.Fill.{all_bits_sound}
use planer.Scheduler.Setup.{Setup, indices, interval}
use planer.Scheduler.Planner.{State, bounds, valid_block, reserve}
use planer.Scheduler.Sound.{Disjoint, IsSolid, IsClear, IsFit, IsPlaced, IsSound}

record ValidParts (earliest latest : ℕ) (z z' : ℤ) : Type 0 where
  left : ℕ
  right : ℕ
  left_eq : z ≡ pos left
  right_eq : z' ≡ pos right
  early : earliest ≤ left
  solid : left < right
  late : right ≤ latest

valid_parts :
    (earliest latest : ℕ) (z z' : ℤ) (ones : Bool)
    → (leb_ℤ (pos earliest) z && ltb_ℤ z z' && leb_ℤ z' (pos latest) && ones) ≡ true
    → ValidParts earliest latest z z' × (ones ≡ true)
valid_parts earliest latest (negsuc n) z' ones h = absurd (ground arith)
valid_parts earliest latest (pos left) (negsuc n) ones h = absurd (ground arith)
valid_parts earliest latest (pos left) (pos right) ones h = (
  record {
    left = left;
    right = right;
    left_eq = refl;
    right_eq = refl;
    early = ground arith;
    solid = ground arith;
    late = ground arith;
  },
  ground arith,
)

module _ (planner : Setup) where
  open planner use {start, size, available}

  pub bounds-le-size : (task : TaskRecord) → (bounds planner task).1 ≤ size
  unfolding bounds
  bounds-le-size task = omega arith

  pub interval_of_indices :
      (block : PlanBlock) (left right : ℕ)
      → indices start block.window ≡ (pos left, pos right)
      → interval start block.window ≡ (left, right)
  unfolding interval
  interval_of_indices block left right e = ap (λ (p : ℤ × ℤ). (pos_part p.0, pos_part p.1)) e

  -- What `valid_block` tests.
  pub valid_block-IsFit :
      (task : TaskRecord) (block : PlanBlock) (mask : Mask) (busy : List Interval)
      → length mask ≡ size
      → IsClear available mask busy
      → valid_block planner task block mask ≡ true
      → (fit : IsFit planner task block) × ((i : ℕ)
          → fit.left ≤ i
          → i < fit.right
          → bit mask i ≡ true)
  unfolding valid_block
  valid_block-IsFit task block mask busy sized clear h =
      let z = (indices start block.window).0 in
      let z' = (indices start block.window).1 in
      let (parts, ones) =
        valid_parts (bounds planner task).0 (bounds planner task).1 z z'
          (all_bits mask (pos_part z) (pos_part z')) h in
      let on = all_bits_sound mask parts.left parts.right in
      let slice : all_bits mask parts.left parts.right ≡ true =
        cc (ones, ap pos_part parts.left_eq, ap pos_part parts.right_eq) in
      let fits : parts.right ≤ length mask =
        omega (arith, parts.late, bounds-le-size task, sized) in
      (
        record {
          left = parts.left;
          right = parts.right;
          placed = λ i. (parts.left_eq i, parts.right_eq i);
          early = parts.early;
          solid = parts.solid;
          late = parts.late;
          open_minutes = λ i l r. (clear i (on i slice fits l r)).0;
        },
        λ i l r. on i slice fits l r,
      )

  -- A placed block that meets no busy interval may be reserved.
  pub reserve-IsSound :
      (fixed : List Interval) (s : State) (block : PlanBlock) (placed : IsPlaced planner block)
      → IsSound planner fixed s
      → All (λ a. Disjoint a (placed.fits.left, placed.fits.right)) s.busy
      → IsSound planner fixed (reserve planner block s)
  unfolding reserve
  reserve-IsSound fixed s block placed sound free =
      let e = interval_of_indices block placed.fits.left placed.fits.right placed.fits.placed in
      record {
        split =
            ap (λ (l : List Interval). l ++ interval start block.window ∷ []) sound.split
            ∙ append_assoc fixed _ _
            ∙ ap (λ l. fixed ++ l) (sym (map-append _ s.blocks (block ∷ [])));
        apart =
            Pairs-snoc Disjoint s.busy (interval start block.window) sound.apart
              (subst (λ (v : Interval). All (λ a. Disjoint a v) s.busy) (sym e) free);
        solid =
            All-append IsSolid s.busy _ sound.solid (subst IsSolid (sym e) placed.fits.solid, tt);
        placed = All-append (IsPlaced planner) s.blocks _ sound.placed (placed, tt);
      }
