-- ===== src/Schedules/Commands/Covered.antt =====
-- What a write to a schedule leaves of the blocks that have time: those of its new layout, and those
-- of the layouts of other schedules.
use planer.Prelude.{
  ℕ, ◌≡◌, ◌≢◌, ◌≤◌, ◌⊎◌, inl, inr, refl, sym, ap, ◌∙◌, subst, true, not, List, [], ◌∷◌, map, arith,
  ltb, ◌==◌, ==_iff, Bool-cases, All, All-imp, All-In, All-In_at, Any-imp, Any-map, Any-filter_if,
  Any-append_left, Any-append_right, Any-sort_by, any_of-Any, In, Pairs, HasKey, contains,
  filter_if,
}
use planer.Planning.{PlanBlock}
use planer.Schedules.{SavedState}
use planer.Schedules.Store.{
  Schedule, Version, Allocation, Store, distinct_ids, block_ids, is_allocation_of, set_allocations,
}
use planer.Schedules.Commands.Histories.{AreKeyed}
use planer.Schedules.Commands.Consistent.{HasTime, HasTimes, IsWithin, IsConsistent}

-- Each identifier is still there.
In-distinct_ids : (xs : List ℕ) (x : ℕ) → In xs x → In (distinct_ids xs) x
unfolding distinct_ids contains
In-distinct_ids [] x h = absurd h
In-distinct_ids (first ∷ rest) x h = elim (Bool-cases (contains first rest)) [
  | inl k ↦
      let listed =
        Any-imp (λ y. (y == first) ≡ true) (λ y. y ≡ first) (λ y e. (==_iff y first).0 e) rest
          ((any_of-Any (λ y. y == first) rest).0 k) in
      rw k (elim h [
        | inl same ↦ In-distinct_ids rest x (subst (In rest) same listed)
        | inr later ↦ In-distinct_ids rest x later
      ])
  | inr k ↦ rw k (elim h [ inl same ↦ inl same | inr later ↦ inr (In-distinct_ids rest x later) ])
]

In-block_ids :
    (state : SavedState) (block : PlanBlock)
    → In state.content.blocks block
    → In (block_ids state) block.task_id
unfolding block_ids
In-block_ids state block h =
    let ids = map (λ (block : PlanBlock). block.task_id) state.content.blocks in
    Any-sort_by (λ y. y ≡ block.task_id) ltb (distinct_ids ids)
      (In-distinct_ids ids block.task_id (
        Any-map (λ y. y ≡ block.task_id) (λ (block : PlanBlock). block.task_id) state.content.blocks
          (Any-imp (λ b. b ≡ block) (λ (b : PlanBlock). b.task_id ≡ block.task_id)
            (λ b e. ap (λ (b : PlanBlock). b.task_id) e) state.content.blocks h)))

module _ (owner id : ℕ) (s : Store) where
  -- Time in another schedule is kept.
  set_allocations-other :
      (ids : List ℕ) (other task_id schedule_id : ℕ)
      → schedule_id ≢ id
      → HasTime s.allocations other task_id schedule_id
      → HasTime (set_allocations owner id ids s).allocations other task_id schedule_id
  unfolding set_allocations
  set_allocations-other ids other task_id schedule_id differs h =
      let is = (λ (a : Allocation).
        (a.user_id ≡ other) × (a.task_id ≡ task_id) × (a.schedule_id ≡ schedule_id)) in
      let others = (λ (a : Allocation). not (is_allocation_of owner id a)) in
      Any-append_left is (filter_if others s.allocations) _ (
        Any-filter_if is others s.allocations (
          Any-imp is (λ a. (others a ≡ true) × is a)
            (λ a p. (not_here a (λ e. differs (sym p.2 ∙ e)), p)) s.allocations h))
    where
      not_here : (a : Allocation) → a.schedule_id ≢ id → not (is_allocation_of owner id a) ≡ true
      not_here a differs = ground arith

  -- Each task of the layout gets time.
  set_allocations-own :
      (state : SavedState)
      → All
          (λ (block : PlanBlock).
            HasTime
              (set_allocations owner id (block_ids state) s).allocations
              owner
              block.task_id
              id)
          state.content.blocks
  unfolding set_allocations
  set_allocations-own state =
      let row : ℕ → Allocation =
        λ task_id. record { user_id = owner; task_id = task_id; schedule_id = id } in
      let others = filter_if (λ a. not (is_allocation_of owner id a)) s.allocations in
      All-imp (In state.content.blocks) _
        (λ block member.
          Any-append_right
            (λ (a : Allocation).
              (a.user_id ≡ owner) × (a.task_id ≡ block.task_id) × (a.schedule_id ≡ id))
            others (map row (block_ids state))
            (Any-map
              (λ (a : Allocation).
                (a.user_id ≡ owner) × (a.task_id ≡ block.task_id) × (a.schedule_id ≡ id))
              row (block_ids state)
              (Any-imp (λ y. y ≡ block.task_id)
                (λ y. (owner ≡ owner) × (y ≡ block.task_id) × (id ≡ id)) (λ y e. (refl, e, refl))
                (block_ids state) (In-block_ids state block member))))
        state.content.blocks (All-In state.content.blocks)

module _ (owner id version revision : ℕ) (state : SavedState) (s : Store) where
  -- A schedule that was there with another identifier, or the one that was written
  abbrev pub IsMoved : Schedule → Type 0
  IsMoved schedule =
      ((schedule.id ≢ id) × In s.schedules schedule)
      ⊎ ((schedule.id ≡ id)
          × (schedule.user_id ≡ owner)
          × (schedule.current_revision ≡ revision)
          × (schedule.version ≡ version))

  abbrev pub IsBelow : Version → Type 0
  IsBelow row = row.schedule_id ≡ id → row.revision ≤ version

  abbrev pub IsWritten : Version → Type 0
  IsWritten row = row.schedule_id ≡ id → row.revision ≡ revision → row.state ≡ state

  -- What a command makes of two tables: its schedule is at a revision, whose version has the layout.
  pub record Writes (schedules : List Schedule) (versions : List Version) : Type 0 where
    pub moved : All IsMoved schedules
    pub kept : All (λ row. In s.versions row ⊎ (row.schedule_id ≡ id)) versions
    pub below : All IsBelow versions
    pub written : All IsWritten versions
    pub schedule_keys : HasKey (λ (schedule : Schedule). schedule.id) schedules
    pub version_keys : Pairs AreKeyed versions

  module _ (schedules : List Schedule) (versions : List Version) (w : Writes schedules versions)
      (h : IsConsistent s) where
    abbrev pub allocated : List Allocation
    allocated = (set_allocations owner id (block_ids state) s).allocations

    other_timed :
        (schedule : Schedule) (row : Version)
        → schedule.id ≢ id
        → In s.schedules schedule
        → In s.versions row ⊎ (row.schedule_id ≡ id)
        → HasTimes allocated schedule row
    other_timed schedule row differs member (inr mine) at = absurd (differs (sym at.0 ∙ mine))
    other_timed schedule row differs member (inl old) at =
        let times =
          All-In_at (HasTimes s.allocations schedule) s.versions row
            (All-In_at (λ (schedule : Schedule). All (HasTimes s.allocations schedule) s.versions)
              s.schedules schedule h.timed member)
            old at in
        All-imp
          (λ (block : PlanBlock). HasTime s.allocations schedule.user_id block.task_id schedule.id)
          (λ (block : PlanBlock). HasTime allocated schedule.user_id block.task_id schedule.id)
          (λ block.
            set_allocations-other owner id s (block_ids state) schedule.user_id block.task_id
              schedule.id differs)
          row.state.content.blocks times

    own_timed :
        (schedule : Schedule) (row : Version)
        → schedule.id ≡ id
        → schedule.user_id ≡ owner
        → row.state ≡ state
        → All
            (λ (block : PlanBlock). HasTime allocated schedule.user_id block.task_id schedule.id)
            row.state.content.blocks
    own_timed schedule row same_id same_owner same =
        subst
          (λ (x : SavedState).
            All
              (λ (block : PlanBlock). HasTime allocated schedule.user_id block.task_id schedule.id)
              x.content.blocks)
          (sym same)
          (All-imp (λ (block : PlanBlock). HasTime allocated owner block.task_id id)
            (λ (block : PlanBlock). HasTime allocated schedule.user_id block.task_id schedule.id)
            (λ block.
              subst (λ (k : ℕ × ℕ). HasTime allocated k.0 block.task_id k.1)
                (λ i. (sym same_owner i, sym same_id i)))
            state.content.blocks (set_allocations-own owner id s state))

    pub written-timed : All (λ schedule. All (HasTimes allocated schedule) versions) schedules
    written-timed =
        All-imp IsMoved (λ schedule. All (HasTimes allocated schedule) versions)
          (λ schedule m. elim m [
            | inl (differs, member) ↦
                All-imp (λ row. In s.versions row ⊎ (row.schedule_id ≡ id))
                  (HasTimes allocated schedule) (λ row k. other_timed schedule row differs member k)
                  versions w.kept
            | inr (same_id, same_owner, at, moved) ↦
                All-imp IsWritten (HasTimes allocated schedule)
                  (λ row k current.
                    own_timed schedule row same_id same_owner
                      (k (current.0 ∙ same_id) (current.1 ∙ at)))
                  versions w.written
          ])
          schedules w.moved

    pub written-within : All (λ schedule. All (IsWithin schedule) versions) schedules
    written-within =
        All-imp IsMoved (λ schedule. All (IsWithin schedule) versions)
          (λ schedule m. elim m [
            | inl (differs, member) ↦
                All-imp (λ row. In s.versions row ⊎ (row.schedule_id ≡ id)) (IsWithin schedule)
                  (λ row k. other_within schedule row differs member k) versions w.kept
            | inr (same_id, same_owner, at, moved) ↦
                All-imp IsBelow (IsWithin schedule)
                  (λ row k at. subst (λ n. row.revision ≤ n) (sym moved) (k (at ∙ same_id)))
                  versions w.below
          ])
          schedules w.moved
      where
        other_within :
            (schedule : Schedule) (row : Version)
            → schedule.id ≢ id
            → In s.schedules schedule
            → In s.versions row ⊎ (row.schedule_id ≡ id)
            → IsWithin schedule row
        other_within schedule row differs member (inr mine) at = absurd (differs (sym at ∙ mine))
        other_within schedule row differs member (inl old) at =
            All-In_at (IsWithin schedule) s.versions row
              (All-In_at (λ (schedule : Schedule). All (IsWithin schedule) s.versions) s.schedules
                schedule h.within member)
              old at
