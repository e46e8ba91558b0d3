-- ===== src/Schedules/Checks/Placements.antt =====
-- `protect_placements`: what a new layout must keep of the one before it.
use planer.Prelude.{
  ◌≡◌, ◌<◌, ◌↔◌, ◌⊎◌, refl, Bool, true, false, not, ◌&&◌, ◌||◌, List, [], ◌∷◌, arith, All, All-imp,
  Any, Any-imp, any_of-Any, any_of-false, any_of, ltb,
}
use planer.Errors.{
  Result, ok, raise, Exception, error, raise_if, raise≢ok, ◌>>◌, locked_block_conflict,
  started_block_conflict, past_block,
}
use planer.Clock.{Instant}
use planer.Planning.{PlanBlock}
use planer.Repository.{TaskRow}
use planer.Schedules.Checks.{
  same_key, has_key, is_live_pending, protect_previous, protect_placements,
}

-- A block for the same task at the same time.
abbrev IsSame : PlanBlock → PlanBlock → Type 0
IsSame a b = (a.task_id ≡ b.task_id) × (a.start ≡ b.start) × (a.end ≡ b.end)

-- A block of the layout before that is locked or has started, of a task that is still to do, is
-- in the new one.
abbrev pub IsKept : List TaskRow → Instant → List PlanBlock → PlanBlock → Type 0
IsKept rows now candidate block =
    is_live_pending rows block.task_id ≡ true
    → (block.locked ≡ true) ⊎ (block.start < now)
    → Any (IsSame block) candidate

-- A block that starts in the past was there before.
abbrev pub IsOld : Instant → List PlanBlock → PlanBlock → Type 0
IsOld now previous block = block.start < now → Any (IsSame block) previous

same_key_iff : (a b : PlanBlock) → (same_key a b ≡ true) ↔ IsSame a b
same_key_iff a b = ground arith

has_key_iff :
    (block : PlanBlock) (blocks : List PlanBlock)
    → (has_key block blocks ≡ true) ↔ Any (IsSame block) blocks
unfolding has_key
has_key_iff block blocks =
    let found = any_of-Any (same_key block) blocks in
    (
      λ e.
          Any-imp (λ o. same_key block o ≡ true) (IsSame block) (λ o k. (same_key_iff block o).0 k)
            blocks (found.0 e),
      λ h. found.1 (
          Any-imp (IsSame block) (λ o. same_key block o ≡ true) (λ o k. (same_key_iff block o).1 k)
            blocks h),
    )

-- A block that the new layout may not be without, and is.
abbrev is_lost : List TaskRow → Instant → List PlanBlock → PlanBlock → Bool
is_lost rows now candidate block =
    (is_live_pending rows block.task_id && not (has_key block candidate))
    && (block.locked || ltb block.start now)

abbrev is_new : Instant → List PlanBlock → PlanBlock → Bool
is_new now previous block = ltb block.start now && not (has_key block previous)

is_lost_iff :
    (rows : List TaskRow) (now : Instant) (candidate : List PlanBlock) (block : PlanBlock)
    → (is_lost rows now candidate block ≡ false) ↔ IsKept rows now candidate block
is_lost_iff rows now candidate block = ground (arith, has_key_iff block candidate)

is_new_iff :
    (now : Instant) (previous : List PlanBlock) (block : PlanBlock)
    → (is_new now previous block ≡ false) ↔ IsOld now previous block
is_new_iff now previous block = ground (arith, has_key_iff block previous)

step :
    (gone locked started : Bool) (a b : Exception) (rest : Result (Unit {0}))
    → (raise_if (gone && locked) a >> raise_if (gone && started) b >> rest ≡ ok tt)
      ↔ (((gone && (locked || started)) ≡ false) × (rest ≡ ok tt))
step false locked started a b rest = (λ e. (refl, e), λ h. h.1)
step true true started a b rest = (λ e. absurd (raise≢ok a tt e), λ h. cc)
step true false true a b rest = (λ e. absurd (raise≢ok b tt e), λ h. cc)
step true false false a b rest = (λ e. (refl, e), λ h. h.1)

protect_previous_iff :
    (previous candidate : List PlanBlock) (rows : List TaskRow) (now : Instant)
    → (protect_previous previous candidate rows now ≡ ok tt)
      ↔ All (IsKept rows now candidate) previous
unfolding protect_previous
protect_previous_iff [] candidate rows now = (λ e. tt, λ h. refl)
protect_previous_iff (block ∷ rest) candidate rows now =
    let (to, from) =
      step (is_live_pending rows block.task_id && not (has_key block candidate)) block.locked
        (ltb block.start now) (error 409 locked_block_conflict) (error 409 started_block_conflict)
        (protect_previous rest candidate rows now) in
    let here = is_lost_iff rows now candidate block in
    let others = protect_previous_iff rest candidate rows now in
    (λ e. (here.0 (to e).0, others.0 (to e).1), λ h. from (here.1 h.0, others.1 h.1))

last_step :
    (b : Bool) (a : Exception) (first : Result (Unit {0}))
    → ((first >> raise_if b a) ≡ ok tt) ↔ ((first ≡ ok tt) × (b ≡ false))
last_step b a (raise e) = (λ h. absurd (raise≢ok e tt h), λ h. absurd (raise≢ok e tt h.0))
last_step true a (ok tt) = (λ h. absurd (raise≢ok a tt h), λ h. cc)
last_step false a (ok tt) = (λ h. (refl, refl), λ h. refl)

-- A layout may follow another exactly if it keeps the blocks that are locked or have started, of
-- the tasks that are still to do, and starts no other block in the past.
pub protect_placements_iff :
    (previous candidate : List PlanBlock) (rows : List TaskRow) (now : Instant)
    → (protect_placements previous candidate rows now ≡ ok tt)
      ↔ (All (IsKept rows now candidate) previous × All (IsOld now previous) candidate)
unfolding protect_placements
protect_placements_iff previous candidate rows now =
    let (to, from) =
      last_step (any_of (is_new now previous) candidate) (error 409 past_block)
        (protect_previous previous candidate rows now) in
    let kept = protect_previous_iff previous candidate rows now in
    let old = any_of-false (is_new now previous) candidate in
    let new_iff = is_new_iff now previous in
    (
      λ e. (
        kept.0 (to e).0,
        All-imp (λ b. is_new now previous b ≡ false) (IsOld now previous) (λ b. (new_iff b).0)
            candidate (old.0 (to e).1),
      ),
      λ h. from (
        kept.1 h.0,
        old.1 (
            All-imp (IsOld now previous) (λ b. is_new now previous b ≡ false) (λ b. (new_iff b).1)
              candidate h.1),
      ),
    )
