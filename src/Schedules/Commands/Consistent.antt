-- ===== src/Schedules/Commands/Consistent.antt =====
-- What the commands keep of the tables of schedules, versions and allocations.
use planer.Prelude.{
  ℕ, ◌≡◌, ◌≤◌, ◌⊎◌, refl, sym, ◌∙◌, true, false, not, List, [], ◌∷◌, ◌++◌, map, arith, All, All-imp,
  All-map, All-of, All-In, All-In_at, All-at, All-filter_if, Any, In, Pairs, Pairs-In, Pairs-snoc,
  Pairs-append, Pairs-filter_if, HasKey, any_of, any_of-false, contains, filter_if, Bool, ◌==◌,
  any_of-Any, Any-imp,
}
use planer.Planning.{TimeWindow, PlanBlock}
use planer.Schedules.Store.{
  Schedule, Version, Allocation, Store, is_taken, is_allocation_of, set_allocations,
}
use planer.Schedules.Commands.{overlaps}
use planer.Schedules.Commands.Histories.{AreKeyed}

-- Two schedules of one owner do not overlap.
abbrev pub AreApart : Schedule → Schedule → Type 0
AreApart a b = a.user_id ≡ b.user_id → (a.end_at ≤ b.start_at) ⊎ (b.end_at ≤ a.start_at)

-- A task of an owner has time in one schedule only.
abbrev pub AreOnce : Allocation → Allocation → Type 0
AreOnce a b = a.user_id ≡ b.user_id → a.task_id ≡ b.task_id → a.schedule_id ≡ b.schedule_id

-- A row of the allocations gives a task time in a schedule.
abbrev pub HasTime : List Allocation → ℕ → ℕ → ℕ → Type 0
HasTime allocations owner task_id id =
    Any (λ (a : Allocation). (a.user_id ≡ owner) × (a.task_id ≡ task_id) × (a.schedule_id ≡ id))
      allocations

-- A version is the current one of a schedule.
abbrev pub IsCurrent : Schedule → Version → Type 0
IsCurrent schedule version =
    (version.schedule_id ≡ schedule.id) × (version.revision ≡ schedule.current_revision)

-- The tasks of the blocks of a current version have time in the schedule.
abbrev pub HasTimes : List Allocation → Schedule → Version → Type 0
HasTimes allocations schedule version =
    IsCurrent schedule version
    → All (λ (block : PlanBlock). HasTime allocations schedule.user_id block.task_id schedule.id)
        version.state.content.blocks

abbrev pub IsWithin : Schedule → Version → Type 0
IsWithin schedule version = version.schedule_id ≡ schedule.id → version.revision ≤ schedule.version

pub record AreConsistent (schedules : List Schedule) (versions : List Version)
    (allocations : List Allocation) : Type 0 where
  pub apart : Pairs AreApart schedules
  pub once : Pairs AreOnce allocations
  pub timed : All (λ schedule. All (HasTimes allocations schedule) versions) schedules
  pub within : All (λ schedule. All (IsWithin schedule) versions) schedules
  pub schedule_keys : HasKey (λ (schedule : Schedule). schedule.id) schedules
  pub version_keys : Pairs AreKeyed versions

-- What the tables always are: the schedules of an owner do not overlap, a task of an owner has time
-- in one schedule only, and each block of a current layout has time for its task in its schedule.
-- The revisions of a schedule are at most its version, and the keys of schedules and versions are
-- keys.
abbrev pub IsConsistent : Store → Type 0
IsConsistent s = AreConsistent s.schedules s.versions s.allocations

-- Current layouts of an owner with a block for the same task are layouts of the same schedule.
abbrev pub IsExclusive : Store → Type 0
IsExclusive s =
    (a b : Schedule) (v w : Version) (x y : PlanBlock)
    → In s.schedules a
    → In s.schedules b
    → In s.versions v
    → In s.versions w
    → IsCurrent a v
    → IsCurrent b w
    → In v.state.content.blocks x
    → In w.state.content.blocks y
    → a.user_id ≡ b.user_id
    → x.task_id ≡ y.task_id
    → a.id ≡ b.id

-- The allocations of a schedule, where no other schedule has time for its tasks.
module _ (owner id : ℕ) where
  abbrev row : ℕ → Allocation
  row task_id = record { user_id = owner; task_id = task_id; schedule_id = id }

  untaken-AreOnce :
      (ids : List ℕ) (a : Allocation) (task_id : ℕ)
      → is_taken owner id ids a ≡ false
      → In ids task_id
      → AreOnce a (row task_id)
  untaken-AreOnce ids a task_id free member user task = ground (arith, listed)
    where
      listed : contains a.task_id ids ≡ true
      listed =
          unfold contains in
          (any_of-Any (λ x. x == a.task_id) ids).1 (
            Any-imp (λ x. x ≡ task_id) (λ x. (x == a.task_id) ≡ true) (λ x e. ground arith) ids
              member)

  rows-AreOnce : (ids : List ℕ) → Pairs AreOnce (map row ids)
  rows-AreOnce [] = tt
  rows-AreOnce (x ∷ ids) = (
    All-map (AreOnce (row x)) row ids (All-of (λ y. AreOnce (row x) (row y)) (λ y u k. refl) ids),
    rows-AreOnce ids,
  )

  pub set_allocations-once :
      (ids : List ℕ) (s : Store)
      → any_of (is_taken owner id ids) s.allocations ≡ false
      → Pairs AreOnce s.allocations
      → Pairs AreOnce (set_allocations owner id ids s).allocations
  unfolding set_allocations
  set_allocations-once ids s free once =
      let others : Allocation → Bool = λ a. not (is_allocation_of owner id a) in
      let untaken =
        All-filter_if (λ a. is_taken owner id ids a ≡ false) others s.allocations
          ((any_of-false (is_taken owner id ids) s.allocations).0 free) in
      Pairs-append AreOnce (filter_if others s.allocations) (map row ids)
        (Pairs-filter_if AreOnce others s.allocations once)
        (All-imp (λ a. is_taken owner id ids a ≡ false) (λ a. All (AreOnce a) (map row ids))
          (λ a h. All-map (AreOnce a) row ids (
            All-imp (In ids) (λ x. AreOnce a (row x)) (λ x. untaken-AreOnce ids a x h) ids
              (All-In ids)))
          (filter_if others s.allocations) untaken)
        (rows-AreOnce ids)

-- A new schedule that overlaps none of its owner's
pub snoc-apart :
    (schedules : List Schedule) (schedule : Schedule) (horizon : TimeWindow)
    → any_of (overlaps schedule.user_id horizon) schedules ≡ false
    → schedule.start_at ≡ horizon.start
    → schedule.end_at ≡ horizon.end
    → Pairs AreApart schedules
    → Pairs AreApart (schedules ++ schedule ∷ [])
snoc-apart schedules schedule horizon free e k apart =
    Pairs-snoc AreApart schedules schedule apart (
      All-imp (λ x. overlaps schedule.user_id horizon x ≡ false) (λ x. AreApart x schedule)
        (λ x h user. ground arith) schedules
        ((any_of-false (overlaps schedule.user_id horizon) schedules).0 free))

AreOnce-symmetric : (a b : Allocation) → AreOnce a b → AreOnce b a
AreOnce-symmetric a b h user task = sym (h (sym user) (sym task))

-- Where this holds, no task has a block in two current layouts of its owner.
pub IsConsistent-IsExclusive : (s : Store) → IsConsistent s → IsExclusive s
IsConsistent-IsExclusive s h a b v w x y a_in b_in v_in w_in v_at w_at x_in y_in user task =
    let (p, p_in, p_is) = time_of a v x a_in v_in v_at x_in in
    let (q, q_in, q_is) = time_of b w y b_in w_in w_at y_in in
    let same =
      Pairs-In AreOnce AreOnce-symmetric (λ a user task. refl) s.allocations p q h.once p_in q_in in
    sym p_is.2 ∙ same (p_is.0 ∙ user ∙ sym q_is.0) (p_is.1 ∙ task ∙ sym q_is.1) ∙ q_is.2
  where
    time_of :
        (schedule : Schedule) (version : Version) (block : PlanBlock)
        → In s.schedules schedule
        → In s.versions version
        → IsCurrent schedule version
        → In version.state.content.blocks block
        → (p : Allocation) × In s.allocations p
          × ((p.user_id ≡ schedule.user_id)
              × (p.task_id ≡ block.task_id)
              × (p.schedule_id ≡ schedule.id))
    time_of schedule version block schedule_in version_in at block_in =
        let timed =
          All-In_at (λ (schedule : Schedule). All (HasTimes s.allocations schedule) s.versions)
            s.schedules schedule h.timed schedule_in in
        let times =
          All-In_at (HasTimes s.allocations schedule) s.versions version timed version_in at in
        All-at (In s.allocations)
          (λ (p : Allocation).
            (p.user_id ≡ schedule.user_id)
            × (p.task_id ≡ block.task_id)
            × (p.schedule_id ≡ schedule.id))
          s.allocations (All-In s.allocations)
          (All-In_at
            (λ (block : PlanBlock).
              HasTime s.allocations schedule.user_id block.task_id schedule.id)
            version.state.content.blocks block times block_in)
