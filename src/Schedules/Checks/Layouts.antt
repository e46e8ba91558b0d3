-- ===== src/Schedules/Checks/Layouts.antt =====
-- `_validate`: what a layout that may be saved is.
use planer.Prelude.{
  ℕ, ◌≡◌, ◌≤◌, refl, sym, ap, ◌∙◌, subst, true, false, not, ◌&&◌, ◌||◌, Option, List, [], ◌∷◌, ◌++◌,
  map, inl, inr, arith, All, All-imp, All-at, All-both, All-In, All-filter_if, All-filter_test, Any,
  Any-imp, In, find_if, find_if-In, filter_if, any_of, any_of-false, contains, Option-cases, ltb,
  ◌==◌, &&_parts, ==_iff,
}
use planer.Errors.{
  Result, ok, error, raise_if, raise≢ok, key_error, returned, ok_injective, raise_if-eq-ok,
  validation_error, fixed_event_outside_saved_horizon,
}
use planer.Clock.{Instant, Zone, HasWholeSeconds}
use planer.Models.{TaskRecord, validate_record}
use planer.Planning.{TimeWindow, FixedEvent}
use planer.Repository.{TaskRow, validated}
use planer.Repository.Preferences.{PreferenceRecord, validated_preferences}
use planer.Scheduler.Preview.{Layout, inspect_layout}
use planer.Scheduler.Sound.Preview.{IsValidPlan}
use planer.Scheduler.Sound.Layout.{locked_request, inspect_layout-IsValidPlan}
use planer.Schedules.{Draft, SavedState}
use planer.Schedules.Store.{Store}
use planer.Schedules.Checks.{
  stale_sources, is_row, live_rows, is_current, selected_tasks, Sources, sources, check_dates,
  protect_placements, blocks_of_previous, ids_of_previous, validate,
}
use planer.Schedules.Checks.Placements.{IsKept, IsOld, protect_placements_iff}

-- A task of the table that belongs to the owner.
abbrev pub IsOwned : ℕ → List TaskRow → TaskRecord → Type 0
IsOwned owner rows task = Any (λ row. (row.task ≡ task) × (row.task.user_id ≡ owner)) rows

validated_lem : (stored task : TaskRecord) → validated stored ≡ ok task → stored ≡ task
unfolding validated
validated_lem stored task e =
    let (u, valid, e1) =
      returned (raise_if (not (validate_record stored)) validation_error) (λ _. ok stored) e in
    ok_injective e1

selected_tasks-In :
    (rows : List TaskRow) (ids : List ℕ) (tasks : List TaskRecord)
    → selected_tasks rows ids ≡ ok tasks
    → All (λ task. Any (λ (row : TaskRow). row.task ≡ task) rows) tasks
unfolding selected_tasks
selected_tasks-In rows [] tasks e =
    subst (All (λ task. Any (λ (row : TaskRow). row.task ≡ task) rows)) (ok_injective e) tt
selected_tasks-In rows (id ∷ rest) tasks e = elim (Option-cases (find_if (is_row id) rows)) [
  | inl k ↦ absurd (raise≢ok key_error tasks (rw (k, selected_tasks) at e))
  | inr (row, k) ↦
      let (task, valid, e1) = returned (validated row.task) _ (rw (k, selected_tasks) at e) in
      let (others, found, e2) =
        returned (selected_tasks rows rest) (λ others. ok (task ∷ others)) e1 in
      let here =
        Any-imp (λ r. r ≡ row) (λ (r : TaskRow). r.task ≡ task)
          (λ r same. ap (λ (r : TaskRow). r.task) same ∙ validated_lem row.task task valid) rows
          (find_if-In (is_row id) rows row k) in
      subst (All (λ task. Any (λ (row : TaskRow). row.task ≡ task) rows)) (ok_injective e2)
        (here, selected_tasks-In rows rest others found)
]

-- The rows that are read are the owner's.
live_rows-IsOwned :
    (owner : ℕ) (ids : List ℕ) (rows : List TaskRow) (task : TaskRecord)
    → Any (λ (row : TaskRow). row.task ≡ task) (live_rows owner ids rows)
    → IsOwned owner rows task
unfolding live_rows
live_rows-IsOwned owner ids rows task h =
    let test = (λ (row : TaskRow). row.task.user_id == owner && contains row.task.id ids) in
    let kept = filter_if test rows in
    let (row, (member, passed), same) =
      All-at (λ row. In rows row × (test row ≡ true)) (λ (row : TaskRow). row.task ≡ task) kept
        (All-both (In rows) (λ row. test row ≡ true) (λ row. In rows row × (test row ≡ true))
          (λ row a b. (a, b)) kept (All-filter_if (In rows) test rows (All-In rows))
          (All-filter_test test rows))
        h in
    let own = (==_iff row.task.user_id owner).0 (&&_parts (row.task.user_id == owner) _ passed).0 in
    Any-imp (λ r. r ≡ row) (λ (r : TaskRow). (r.task ≡ task) × (r.task.user_id ≡ owner))
      (λ r e. (ap (λ (r : TaskRow). r.task) e ∙ same, ap (λ (r : TaskRow). r.task.user_id) e ∙ own))
      rows member

sources_lem :
    (owner : ℕ) (candidate : Draft) (previous : Option Draft) (store : Store) (found : Sources)
    → sources owner candidate previous store ≡ ok found
    → (found.live
        ≡ live_rows owner (candidate.content.task_ids ++ ids_of_previous previous) store.tasks)
      × All (IsOwned owner store.tasks) found.tasks
unfolding sources
sources_lem owner candidate previous store found e =
    let ids = candidate.content.task_ids ++ ids_of_previous previous in
    let live = live_rows owner ids store.tasks in
    elim (Option-cases
      (find_if (λ (row : PreferenceRecord). row.user_id == owner) store.preferences)) [
        | inl k ↦ absurd (raise≢ok stale_sources found (rw (k, sources) at e))
        | inr (row, k) ↦
            let (u, current, e1) =
              returned (raise_if (not (row.version == candidate.preference_version)) stale_sources)
                _ (rw (k, sources) at e) in
            let (v, matching, e2) =
              returned
                (raise_if (any_of (λ entry. not (is_current live entry)) candidate.task_versions)
                  stale_sources)
                _ e1 in
            let (tasks, selected, e3) =
              returned (selected_tasks live candidate.content.task_ids) _ e2 in
            let (preferences, valid, e4) =
              returned (validated_preferences row)
                (λ preferences.
                  ok (record { tasks = tasks; preferences = preferences; live = live }))
                e3 in
            let same = ok_injective e4 in
            (
              ap (λ (x : Sources). x.live) (sym same),
              subst (λ (x : Sources). All (IsOwned owner store.tasks) x.tasks) same
                  (All-imp (λ task. Any (λ (row : TaskRow). row.task ≡ task) live)
                    (IsOwned owner store.tasks) (live_rows-IsOwned owner ids store.tasks) tasks
                    (selected_tasks-In live candidate.content.task_ids tasks selected)),
            )
      ]

-- A layout that may be saved, as a state with a horizon.
pub record IsAccepted (owner : ℕ) (candidate : Draft) (zone : Zone) (previous : Option Draft)
    (now : Instant) (store : Store) (state : SavedState) (horizon : TimeWindow) : Type 0 where
  pub tasks : List TaskRecord
  pub live : List TaskRow
  -- The state is that of the draft, and its tasks are the owner's.
  pub same : state.draft ≡ candidate
  pub owned : All (IsOwned owner store.tasks) tasks
  pub rows :
      live ≡ live_rows owner (candidate.content.task_ids ++ ids_of_previous previous) store.tasks
  -- The hard constraints
  pub valid :
      IsValidPlan
        (locked_request candidate.content.planning candidate.content.blocks)
        tasks
        zone
        (zone.midnight candidate.content.start_date)
        candidate.content.blocks
  -- What it must keep of the layout before it
  pub kept : All (IsKept live now candidate.content.blocks) (blocks_of_previous previous)
  pub old : All (IsOld now (blocks_of_previous previous)) candidate.content.blocks
  pub within :
      All
        (λ (event : FixedEvent). (horizon.start ≤ event.start) × (event.end ≤ horizon.end))
        candidate.content.fixed_events

-- A layout that `_validate` accepts consists of blocks of tasks of the owner, which keep the hard
-- constraints of the scheduler; it keeps the blocks of the layout before it that are locked or have
-- started, of the tasks that are still to do, and starts no other block in the past; and its fixed
-- events lie in the horizon. The state that is saved is that of the layout. The zone's midnights
-- have no fractions of a second.
pub validate-IsAccepted :
    (owner : ℕ) (candidate : Draft) (zone : Zone) (previous : Option Draft) (now : Instant)
    (store : Store) (state : SavedState) (horizon : TimeWindow)
    → HasWholeSeconds zone
    → validate owner candidate zone previous now store ≡ ok (state, horizon)
    → IsAccepted owner candidate zone previous now store state horizon
unfolding validate
validate-IsAccepted owner candidate zone previous now store state horizon whole e =
    let content = candidate.content in
    let outside = (λ (layout : Layout) (event : FixedEvent).
      ltb event.start layout.horizon.start || ltb layout.horizon.end event.end) in
    let (found, sourced, e1) = returned (sources owner candidate previous store) _ e in
    let (u, dated, e2) = returned (check_dates candidate previous (zone.local_date now)) _ e1 in
    let (v, protected, e3) =
      returned (protect_placements (blocks_of_previous previous) content.blocks found.live now) _
        e2 in
    let (layout, inspected, e4) =
      returned
        (inspect_layout content.planning content.blocks found.tasks found.preferences.values zone) _
        e3 in
    let (w, within, e5) =
      returned
        (raise_if (any_of (outside layout) content.fixed_events)
          (error 422 fixed_event_outside_saved_horizon))
        (λ _. ok (made found.tasks layout, layout.horizon)) e4 in
    let (live, owned) = sources_lem owner candidate previous store found sourced in
    let (kept, old) =
      (protect_placements_iff (blocks_of_previous previous) content.blocks found.live now).0
        (at_unit v protected) in
    let inside =
      (any_of-false (outside layout) content.fixed_events).0 (raise_if-eq-ok _ _ w within) in
    subst
      (λ (p : SavedState × TimeWindow). IsAccepted owner candidate zone previous now store p.0 p.1)
      (ok_injective e5)
      (record {
        tasks = found.tasks;
        live = found.live;
        same = refl;
        owned = owned;
        rows = live;
        valid =
            inspect_layout-IsValidPlan content.planning content.blocks found.tasks
              found.preferences.values zone layout whole inspected;
        kept = kept;
        old = old;
        within =
            All-imp (λ event. outside layout event ≡ false) _
              (λ event h. (ground arith, ground arith)) content.fixed_events inside;
      })
  where
    at_unit : {r : Result (Unit {0})} (u : Unit {0}) → r ≡ ok u → r ≡ ok tt
    at_unit tt h = h

    made : List TaskRecord → Layout → SavedState
    made tasks layout = record {
      draft = candidate;
      task_titles = map (λ (task : TaskRecord). (task.id, task.title)) tasks;
      unscheduled = layout.missing;
      ignored_task_ids = layout.ignored;
      warnings = layout.warned;
    }
