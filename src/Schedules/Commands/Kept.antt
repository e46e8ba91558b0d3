-- ===== src/Schedules/Commands/Kept.antt =====
-- Each command keeps the tables consistent.
use planer.Prelude.{
  ℕ, ◌+◌, ◌≡◌, ◌<◌, refl, sym, subst, String, Bool, true, not, ◌&&◌, some, List, [], ◌∷◌, ◌++◌,
  arith, ◌==◌, All-filter_if, All-In, All-sort_by, All-both, All-filter_test, In, filter_if,
  sort_by, contains, first_of, first_of-All,
}
use planer.Errors.{ok}
use planer.Clock.{Instant, Zone}
use planer.Schedules.{SavedState, ScheduleCreate, ScheduleReplace, HistoryCommand, ScheduleResult}
use planer.Schedules.Store.{
  Schedule, Version, Store, Header, header, insert_receipt, is_before, is_after, set_allocations,
  insert_state, move_schedule, drop_after, trim_history, latest_revisions, history_limit,
}
use planer.Schedules.Commands.{
  Direction, undo, redo, Command, creates, replaces, travels, insert_schedule, nearest,
}
use planer.Schedules.Commands.Runs.{
  finish_lem, next_version_lem, created, replaced, travelled, Created, Replaced, Travelled,
}
use planer.Schedules.Commands.Versions.{validated_state_lem}
use planer.Schedules.Commands.Consistent.{IsConsistent, snoc-apart}
use planer.Schedules.Commands.Covered.{Writes}
use planer.Schedules.Commands.Moves.{
  IsNew, Writes-AreConsistent, created-Writes, travelled-Writes, replaced-Writes, moved_apart,
  moved_schedules,
}

module _ (id : ℕ) (versions : List Version) (target : Version) where
  first_in :
      (test : Version → Bool)
      → ((x : Version) → test x ≡ true → x.schedule_id ≡ id)
      → (before : Version → Version → Bool)
      → first_of (sort_by before (filter_if test versions)) ≡ some target
      → In versions target × (target.schedule_id ≡ id)
  first_in test only before e =
      let kept = filter_if test versions in
      let Is : Version → Type 0 = λ x. In versions x × (x.schedule_id ≡ id) in
      first_of-All Is (sort_by before kept) target
        (All-sort_by Is before kept (
          All-both (In versions) (λ x. test x ≡ true) Is (λ x member k. (member, only x k)) kept
            (All-filter_if (In versions) test versions (All-In versions))
            (All-filter_test test versions)))
        e

-- The version that a command goes to is one of the schedule.
nearest-In :
    (direction : Direction) (id revision : ℕ) (versions : List Version) (target : Version)
    → nearest direction id revision versions ≡ some target
    → In versions target × (target.schedule_id ≡ id)
unfolding nearest
nearest-In undo id revision versions target e =
    first_in id versions target (is_before id revision) (λ x k. ground arith) _ e
nearest-In redo id revision versions target e =
    first_in id versions target (is_after id revision) (λ x k. ground arith) _ e

module _ (digest : Command → ℕ) (zone_of : String → Zone) (owner id : ℕ) (now : Instant) (s : Store)
    (result : ScheduleResult) (t : Store) (h : IsConsistent s) where
  pub Created-IsConsistent :
      (timezone : String) (request : ScheduleCreate)
      → IsNew id s
      → Created digest zone_of owner id now s result t timezone request
      → IsConsistent t
  unfolding insert_receipt insert_state insert_schedule set_allocations
  Created-IsConsistent timezone request fresh c =
      let mid = created owner id timezone now c.horizon c.state s in
      let (wrote, viewed, shape) =
        finish_lem owner id request.client_request_id (digest (creates request)) 1 mid result t
          c.finished in
      let schedule : Schedule = record {
        id = id;
        user_id = owner;
        start_at = c.horizon.start;
        end_at = c.horizon.end;
        timezone = timezone;
        version = 1;
        current_revision = 1;
        created_at = now;
        updated_at = now;
      } in
      let row : Version = record {
        schedule_id = id;
        user_id = owner;
        revision = 1;
        state = c.state;
        created_at = now;
      } in
      subst IsConsistent (sym wrote) (
        Writes-AreConsistent owner id 1 1 c.state s (s.schedules ++ schedule ∷ [])
          (s.versions ++ row ∷ [])
          (created-Writes owner id c.state s schedule row refl refl refl refl refl refl refl fresh
            h)
          h (snoc-apart s.schedules schedule c.horizon c.apart refl refl h.apart) c.free)

  module _ (row : Header) (headed : header owner id s ≡ ok row) where
    next_lem :
        (expected version : ℕ)
        → (row.version == expected) ≡ true
        → version ≡ expected + 1
        → row.version < version
    next_lem expected version e k = ground arith

    pub Replaced-IsConsistent :
        (request : ScheduleReplace)
        → Replaced digest zone_of owner id now s result t row request
        → IsConsistent t
    unfolding insert_receipt insert_state drop_after trim_history move_schedule set_allocations
    Replaced-IsConsistent request c =
        let mid = replaced owner id row now c.version c.state s in
        let (wrote, viewed, shape) =
          finish_lem owner id request.client_request_id (digest (replaces id request)) c.version mid
            result t c.finished in
        let (current, below, up) = next_version_lem row request.expected_version c.version c.next in
        let less = next_lem request.expected_version c.version current up in
        let new : Version = record {
          schedule_id = id;
          user_id = owner;
          revision = c.version;
          state = c.state;
          created_at = now;
        } in
        let dropped : Version → Bool = λ x. not (is_after id row.current_revision x) in
        let latest = latest_revisions id history_limit (filter_if dropped s.versions ++ new ∷ []) in
        let kept : Version → Bool =
          λ x. not (x.schedule_id == id && not (contains x.revision latest)) in
        subst IsConsistent (sym wrote) (
          Writes-AreConsistent owner id c.version c.version c.state s _ _
            (replaced-Writes owner id c.version now s row headed less h c.state new refl refl refl
              dropped kept)
            h (moved_apart owner id c.version c.version now s row headed less h) c.free)

    pub Travelled-IsConsistent :
        (direction : Direction) (request : HistoryCommand)
        → Travelled digest zone_of owner id now s result t direction row request
        → IsConsistent t
    unfolding insert_receipt move_schedule set_allocations
    Travelled-IsConsistent direction request c =
        let mid = travelled owner id now c.version c.target.revision c.state s in
        let (wrote, viewed, shape) =
          finish_lem owner id request.client_request_id (digest (travels direction id request))
            c.version mid result t c.finished in
        let (current, below, up) = next_version_lem row request.expected_version c.version c.next in
        let less = next_lem request.expected_version c.version current up in
        let (member, of) =
          nearest-In direction id row.current_revision s.versions c.target c.found in
        let writes =
          travelled-Writes owner id c.version c.target.revision now s row headed less h c.target
            member of refl in
        subst IsConsistent (sym wrote) (
          Writes-AreConsistent owner id c.version c.target.revision c.state s _ _
            (subst
              (λ (x : SavedState).
                Writes owner id c.version c.target.revision x s
                  (moved_schedules owner id c.version c.target.revision now s row headed less h)
                  s.versions)
              (validated_state_lem c.target.state c.state c.is) writes)
            h (moved_apart owner id c.version c.target.revision now s row headed less h) c.free)
