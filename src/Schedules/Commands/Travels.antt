-- ===== src/Schedules/Commands/Travels.antt =====
-- Undo and redo: the version that a command goes to, and that a redo comes back from an undo.
use planer.Prelude.{
  ℕ, String, ◌≡◌, sym, ap, ◌∙◌, subst, true, false, some, List, arith, All, In, All-In, All-sort_by,
  All-filter_test, All-unfilter_if, find_if, sort_by, filter_if, first_of-sort_by, first_of-All,
  find_if-test, find_if-In, All-In_at, All-filter_if, ==_iff, some_injective, ltb, ◌==◌, &&_parts,
}
use planer.Errors.{ok, ok_injective}
use planer.Clock.{Instant, Zone}
use planer.Schedules.{SavedSchedule, HistoryCommand, ScheduleResult}
use planer.Schedules.Store.{
  Version, Store, Header, header, is_schedule, is_version_at, is_before, is_after, insert_receipt,
  move_schedule, set_allocations,
}
use planer.Schedules.Views.{view}
use planer.Schedules.Commands.Runs.{finish_lem, travelled, Travelled}
use planer.Schedules.Commands.Replays.{travel_lem}
use planer.Schedules.Commands.Versions.{header_lem, view_lem, Joined-move_schedule}
use planer.Schedules.Commands.{Direction, undo, redo, travels, Command, nearest, travel}

abbrev NotLater : ℕ → ℕ → ℕ → Version → Type 0
NotLater id revision at row = is_before id revision row ≡ true → ltb at row.revision ≡ false

abbrev NotEarlier : ℕ → ℕ → ℕ → Version → Type 0
NotEarlier id revision at row = is_after id revision row ≡ true → ltb row.revision at ≡ false

-- An undo goes to the latest of the versions before the current one.
nearest_undo :
    (id revision : ℕ) (versions : List Version) (target : Version)
    → nearest undo id revision versions ≡ some target
    → (is_before id revision target ≡ true) × All (NotLater id revision target.revision) versions
unfolding nearest
nearest_undo id revision versions target e =
    let kept = filter_if (is_before id revision) versions in
    let before = (λ (a b : Version). ltb b.revision a.revision) in
    (
      first_of-All (λ row. is_before id revision row ≡ true) (sort_by before kept) target
          (All-sort_by (λ row. is_before id revision row ≡ true) before kept
            (All-filter_test (is_before id revision) versions))
          e,
      All-unfilter_if (λ (row : Version). ltb target.revision row.revision ≡ false)
          (is_before id revision) versions
          (first_of-sort_by before (λ a b h. ground arith) (λ a b c h k. ground arith) kept target
            e),
    )

-- A redo goes to the earliest of the versions after the current one.
nearest_redo :
    (id revision : ℕ) (versions : List Version) (target : Version)
    → nearest redo id revision versions ≡ some target
    → (is_after id revision target ≡ true)
      × All (NotEarlier id revision target.revision) versions
      × In versions target
unfolding nearest
nearest_redo id revision versions target e =
    let kept = filter_if (is_after id revision) versions in
    let before = (λ (a b : Version). ltb a.revision b.revision) in
    (
      first_of-All (λ row. is_after id revision row ≡ true) (sort_by before kept) target
          (All-sort_by (λ row. is_after id revision row ≡ true) before kept
            (All-filter_test (is_after id revision) versions))
          e,
      All-unfilter_if (λ (row : Version). ltb row.revision target.revision ≡ false)
          (is_after id revision) versions
          (first_of-sort_by before (λ a b h. ground arith) (λ a b c h k. ground arith) kept target
            e),
      first_of-All (In versions) (sort_by before kept) target
          (All-sort_by (In versions) before kept
            (All-filter_if (In versions) (is_after id revision) versions (All-In versions)))
          e,
    )

-- Between a version and the latest one before it there is none.
nearest-nearest :
    (id revision : ℕ) (versions : List Version) (current back target : Version)
    → find_if (is_version_at id revision) versions ≡ some current
    → nearest undo id revision versions ≡ some back
    → nearest redo id back.revision versions ≡ some target
    → target.revision ≡ revision
nearest-nearest id revision versions current back target found e e' =
    let (before, latest) = nearest_undo id revision versions back e in
    let (after, earliest, member) = nearest_redo id back.revision versions target e' in
    let at = find_if-test (is_version_at id revision) versions current found in
    let first =
      All-In_at (NotEarlier id back.revision target.revision) versions current earliest
        (find_if-In (is_version_at id revision) versions current found) in
    let last = All-In_at (NotLater id revision back.revision) versions target latest member in
    same_revision at before after first last
  where
    same_revision :
        is_version_at id revision current ≡ true
        → is_before id revision back ≡ true
        → is_after id back.revision target ≡ true
        → NotEarlier id back.revision target.revision current
        → NotLater id revision back.revision target
        → target.revision ≡ revision
    same_revision at before after first last = ground arith

-- What an undo or a redo leaves: the same versions, and the schedule at the one it went to.
record IsAt (owner id : ℕ) (row : Header) (revision : ℕ) (s t : Store) (result : ScheduleResult)
    : Type 0 where
  pub after : Header
  pub found : header owner id t ≡ ok after
  pub versions : t.versions ≡ s.versions
  pub arrived : after.current_revision ≡ revision
  pub same_id : after.id ≡ row.id
  pub shown : result.schedule.history_revision ≡ after.current_revision
  pub stated : result.schedule.state ≡ after.state

module _ (digest : Command → ℕ) (zone_of : String → Zone) where
  Travelled-IsAt :
      (direction : Direction) (owner id : ℕ) (now : Instant) (s : Store) (result : ScheduleResult)
      (t : Store) (row : Header) (request : HistoryCommand)
      → header owner id s ≡ ok row
      → (run : Travelled digest zone_of owner id now s result t direction row request)
      → IsAt owner id row run.target.revision s t result
  unfolding move_schedule set_allocations insert_receipt
  Travelled-IsAt direction owner id now s result t row request e run =
      let (wrote, viewed, shape) =
        finish_lem owner id request.client_request_id (digest (travels direction id request))
          run.version (travelled owner id now run.version run.target.revision run.state s) result t
          run.finished in
      let (after, found, shown, revised, stated) = view_lem owner id t result.schedule viewed in
      let moved =
        Joined-move_schedule owner id run.version run.target.revision now s t row after e
          (ap (λ (x : Store). x.schedules) wrote) found in
      record {
        after = after;
        found = found;
        versions = ap (λ (x : Store). x.versions) wrote;
        arrived = moved.1;
        same_id = moved.2;
        shown = revised;
        stated = stated;
      }

  -- The version that the join finds depends on the key and on the table only.
  same_state :
      (owner id : ℕ) (s u : Store) (row after : Header)
      → header owner id s ≡ ok row
      → header owner id u ≡ ok after
      → u.versions ≡ s.versions
      → after.id ≡ row.id
      → after.current_revision ≡ row.current_revision
      → after.state ≡ row.state
  same_state owner id s u row after e e' versions ids revisions =
      let j = header_lem owner id s row e in
      let k = header_lem owner id u after e' in
      let l =
        subst (λ vs. find_if (is_version_at after.id after.current_revision) vs ≡ some k.current)
          versions k.version in
      let m =
        subst (λ i. find_if (is_version_at i after.current_revision) s.versions ≡ some k.current)
          ids l in
      let n =
        subst (λ r. find_if (is_version_at row.id r) s.versions ≡ some k.current) revisions m in
      k.state ∙ ap (λ (v : Version). v.state) (some_injective (sym n ∙ j.version)) ∙ sym j.state

  header_id : (owner id : ℕ) (s : Store) (row : Header) → header owner id s ≡ ok row → row.id ≡ id
  header_id owner id s row e =
      let found = (header_lem owner id s row e).schedule in
      (==_iff row.id id).0
        (&&_parts (row.id == id) _
          (find_if-test (is_schedule owner id) s.schedules row.schedule found)).0

  -- An undo and then a redo, both done and neither answered from a receipt: the schedule is at the
  -- revision and has the state that a view showed before them, and all versions are still there.
  pub undo_then_redo :
      (owner id : ℕ) (first second : HistoryCommand) (now later : Instant) (s : Store)
      (before : SavedSchedule) (a b : ScheduleResult) (t u : Store)
      → view owner id s ≡ ok before
      → travel digest zone_of undo owner id first now s ≡ ok (a, t)
      → a.replayed ≡ false
      → travel digest zone_of redo owner id second later t ≡ ok (b, u)
      → b.replayed ≡ false
      → (b.schedule.history_revision ≡ before.history_revision)
        × (b.schedule.state ≡ before.state)
        × (u.versions ≡ s.versions)
  undo_then_redo owner id first second now later s before a b t u viewed e new e' new' =
      let (row, found, shown, revised, stated) = view_lem owner id s before viewed in
      let (row₁, timezone₁, headed₁, locked₁, fresh₁, run₁) =
        travel_lem digest zone_of undo owner id first now s a t e new in
      let (row₂, timezone₂, headed₂, locked₂, fresh₂, run₂) =
        travel_lem digest zone_of redo owner id second later t b u e' new' in
      let at₁ = Travelled-IsAt undo owner id now s a t row₁ first headed₁ run₁ in
      let at₂ = Travelled-IsAt redo owner id later t b u row₂ second headed₂ run₂ in
      let same₁ : row₁ ≡ row = ok_injective (sym headed₁ ∙ found) in
      let same₂ : at₁.after ≡ row₂ = ok_injective (sym at₁.found ∙ headed₂) in
      let joined = header_lem owner id s row₁ headed₁ in
      let from : row₂.current_revision ≡ run₁.target.revision =
        ap (λ (r : Header). r.current_revision) (sym same₂) ∙ at₁.arrived in
      let went : nearest redo id run₁.target.revision s.versions ≡ some run₂.target =
        subst (λ v. nearest redo id run₁.target.revision v ≡ some run₂.target) at₁.versions
          (subst (λ r. nearest redo id r t.versions ≡ some run₂.target) from run₂.found) in
      let back : run₂.target.revision ≡ row₁.current_revision =
        nearest-nearest id row₁.current_revision s.versions joined.current run₁.target run₂.target
          (subst
            (λ i. find_if (is_version_at i row₁.current_revision) s.versions ≡ some joined.current)
            (header_id owner id s row₁ headed₁) joined.version)
          run₁.found went in
      let revision : at₂.after.current_revision ≡ row₁.current_revision = at₂.arrived ∙ back in
      let ids : at₂.after.id ≡ row₁.id =
        at₂.same_id ∙ ap (λ (r : Header). r.id) (sym same₂) ∙ at₁.same_id in
      let versions = at₂.versions ∙ at₁.versions in
      (
        at₂.shown ∙ revision ∙ ap (λ (r : Header). r.current_revision) same₁ ∙ sym revised,
        at₂.stated
            ∙ same_state owner id s u row₁ at₂.after headed₁ at₂.found versions ids revision
            ∙ ap (λ (r : Header). r.state) same₁
            ∙ sym stated,
        versions,
      )
