-- ===== src/Schedules/Commands/Versions.antt =====
-- The versions of a schedule: of two commands that expect the same one, only the first is done.
use planer.Prelude.{
  ℕ, ◌+◌, ◌≡◌, refl, sym, ap, ◌∙◌, String, false, not, Option, none, some, arith, subst, inl, inr,
  max, find_if, find_if-update_if, some_injective, Option-cases, ◌==◌,
}
use planer.Errors.{
  ok, raise, error, raise_if, raise≢ok, not_found, validation_error, returned, ok_injective,
  stale_schedule_version,
}
use planer.Clock.{Instant, Zone}
use planer.Schedules.{
  SavedState, SavedSchedule, validate_state, ScheduleReplace, HistoryCommand, ScheduleResult,
}
use planer.Schedules.Store.{
  Schedule, Version, Store, Header, owner_lock, header, insert_receipt, is_schedule, is_version_at,
  set_allocations, insert_state, move_schedule, drop_after, trim_history,
}
use planer.Schedules.Views.{validated_state, view, replay}
use planer.Schedules.Commands.{
  Direction, Command, replaces, travels, next_version, replace_current, replace, travel_current,
  travel,
}
use planer.Schedules.Commands.Runs.{
  finish_lem, next_version_lem, replaced, travelled, Replaced, Travelled,
}
use planer.Schedules.Commands.Receipts.{NoReceipt}
use planer.Schedules.Commands.Replays.{replace_lem, travel_lem}

-- The rows that `header` joins.
pub record Joined (owner id : ℕ) (s : Store) (row : Header) : Type 0 where
  pub current : Version
  pub schedule : find_if (is_schedule owner id) s.schedules ≡ some row.schedule
  pub version : find_if (is_version_at row.id row.current_revision) s.versions ≡ some current
  pub state : row.state ≡ current.state

header_found :
    (owner id : ℕ) (s : Store) (row : Header) (schedule : Schedule)
    → find_if (is_schedule owner id) s.schedules ≡ some schedule
    → header owner id s ≡ ok row
    → (found : Option Version)
    → find_if (is_version_at schedule.id schedule.current_revision) s.versions ≡ found
    → Joined owner id s row
unfolding header
header_found owner id s row schedule k e none l =
    absurd (raise≢ok not_found row (rw (k, header, l) at e))
header_found owner id s row schedule k e (some current) l =
    let same = ok_injective (rw (k, header, l) at e) in
    subst (Joined owner id s) same
      (record { current = current; schedule = k; version = l; state = refl })

pub header_lem :
    (owner id : ℕ) (s : Store) (row : Header) → header owner id s ≡ ok row → Joined owner id s row
unfolding header
header_lem owner id s row e = elim (Option-cases (find_if (is_schedule owner id) s.schedules)) [
  | inl k ↦ absurd (raise≢ok not_found row (rw (k, header) at e))
  | inr (schedule, k) ↦ header_found owner id s row schedule k e _ refl
]

pub validated_state_lem :
    (stored state : SavedState) → validated_state stored ≡ ok state → stored ≡ state
unfolding validated_state
validated_state_lem stored state e =
    let (u, valid, e1) =
      returned (raise_if (not (validate_state stored)) validation_error) (λ _. ok stored) e in
    ok_injective e1

-- What a view shows of the rows.
pub view_lem :
    (owner id : ℕ) (s : Store) (schedule : SavedSchedule)
    → view owner id s ≡ ok schedule
    → (row : Header) × (header owner id s ≡ ok row)
      × (schedule.version ≡ row.version)
      × (schedule.history_revision ≡ row.current_revision)
      × (schedule.state ≡ row.state)
unfolding view
view_lem owner id s schedule e =
    let (row, found, e1) = returned (header owner id s) _ e in
    let (state, valid, e2) = returned (validated_state row.state) _ e1 in
    let same = ok_injective e2 in
    (
      row,
      found,
      ap (λ (x : SavedSchedule). x.version) (sym same),
      ap (λ (x : SavedSchedule). x.history_revision) (sym same),
      ap (λ (x : SavedSchedule). x.state) (sym same)
          ∙ sym (validated_state_lem row.state state valid),
    )

-- `move_schedule` moves the row that `header` finds.
pub Joined-move_schedule :
    (owner id version revision : ℕ) (now : Instant) (s t : Store) (row after : Header)
    → header owner id s ≡ ok row
    → t.schedules ≡ (move_schedule owner id version revision now s).schedules
    → header owner id t ≡ ok after
    → (after.version ≡ version) × (after.current_revision ≡ revision) × (after.id ≡ row.id)
unfolding move_schedule
Joined-move_schedule owner id version revision now s t row after e moved e' =
    let before = header_lem owner id s row e in
    let found = (header_lem owner id t after e').schedule in
    let expected =
      find_if-update_if (is_schedule owner id)
        (λ (schedule : Schedule). record schedule {
          version = version;
          current_revision = revision;
          updated_at = max now schedule.updated_at;
        })
        s.schedules row.schedule (λ y h. h) before.schedule in
    let both = sym found ∙ ap (find_if (is_schedule owner id)) moved ∙ expected in
    let same = some_injective both in
    (
      ap (λ (x : Schedule). x.version) same,
      ap (λ (x : Schedule). x.current_revision) same,
      ap (λ (x : Schedule). x.id) same,
    )

-- The schedule that the owner can see has the version after the expected one.
pub record IsNext (owner id expected : ℕ) (t : Store) : Type 0 where
  pub row : Header
  pub found : header owner id t ≡ ok row
  pub version : row.version ≡ expected + 1

stale :
    (row : Header) (expected : ℕ)
    → row.version ≡ expected + 1
    → next_version row expected ≡ raise (error 409 stale_schedule_version)
unfolding next_version
stale row expected e = rw (e, differs) refl
  where
    differs : (expected + 1 == expected) ≡ false
    differs = ground arith

NoReceipt-replay :
    (owner request digest : ℕ) (t : Store)
    → NoReceipt owner request t
    → replay owner request digest t ≡ ok none
unfolding replay
NoReceipt-replay owner request digest t fresh = rw (fresh, replay) refl

module _ (digest : Command → ℕ) (zone_of : String → Zone) where
  replace_stale :
      (owner id : ℕ) (request : ScheduleReplace) (now : Instant) (t : Store) (timezone : String)
      → owner_lock owner t ≡ ok timezone
      → IsNext owner id request.expected_version t
      → NoReceipt owner request.client_request_id t
      → replace digest zone_of owner id request now t ≡ raise (error 409 stale_schedule_version)
  unfolding replace replace_current
  replace_stale owner id request now t timezone locked n fresh =
      rw
        (
          locked,
          n.found,
          NoReceipt-replay owner request.client_request_id (digest (replaces id request)) t fresh,
          stale n.row request.expected_version n.version,
        )
        refl

  travel_stale :
      (direction : Direction) (owner id : ℕ) (request : HistoryCommand) (now : Instant) (t : Store)
      (timezone : String)
      → owner_lock owner t ≡ ok timezone
      → IsNext owner id request.expected_version t
      → NoReceipt owner request.client_request_id t
      → travel digest zone_of direction owner id request now t
        ≡ raise (error 409 stale_schedule_version)
  unfolding travel travel_current
  travel_stale direction owner id request now t timezone locked n fresh =
      rw
        (
          locked,
          n.found,
          NoReceipt-replay owner request.client_request_id (digest (travels direction id request)) t
              fresh,
          stale n.row request.expected_version n.version,
        )
        refl

  Replaced-IsNext :
      (owner id : ℕ) (now : Instant) (s : Store) (result : ScheduleResult) (t : Store)
      (row : Header) (request : ScheduleReplace)
      → header owner id s ≡ ok row
      → Replaced digest zone_of owner id now s result t row request
      → IsNext owner id request.expected_version t
  unfolding trim_history move_schedule insert_state drop_after set_allocations insert_receipt
  Replaced-IsNext owner id now s result t row request e r =
      let (wrote, viewed, shape) =
        finish_lem owner id request.client_request_id (digest (replaces id request)) r.version
          (replaced owner id row now r.version r.state s) result t r.finished in
      let (after, found, shown, revised, stated) = view_lem owner id t result.schedule viewed in
      let (same, matched, number) =
        next_version_lem row request.expected_version r.version r.next in
      let moved =
        Joined-move_schedule owner id r.version r.version now s t row after e
          (ap (λ (x : Store). x.schedules) wrote) found in
      record { row = after; found = found; version = moved.0 ∙ number }

  Travelled-IsNext :
      (direction : Direction) (owner id : ℕ) (now : Instant) (s : Store) (result : ScheduleResult)
      (t : Store) (row : Header) (request : HistoryCommand)
      → header owner id s ≡ ok row
      → Travelled digest zone_of owner id now s result t direction row request
      → IsNext owner id request.expected_version t
  unfolding move_schedule set_allocations insert_receipt
  Travelled-IsNext direction owner id now s result t row request e r =
      let (wrote, viewed, shape) =
        finish_lem owner id request.client_request_id (digest (travels direction id request))
          r.version (travelled owner id now r.version r.target.revision r.state s) result t
          r.finished in
      let (after, found, shown, revised, stated) = view_lem owner id t result.schedule viewed in
      let (same, matched, number) =
        next_version_lem row request.expected_version r.version r.next in
      let moved =
        Joined-move_schedule owner id r.version r.target.revision now s t row after e
          (ap (λ (x : Store). x.schedules) wrote) found in
      record { row = after; found = found; version = moved.0 ∙ number }

  -- After a replacement that was done, the schedule has the version after the expected one, and
  -- any other replacement that expects the old version, without a receipt, is refused.
  pub replace_then_replace :
      (owner id : ℕ) (request other : ScheduleReplace) (now later : Instant) (s : Store)
      (result : ScheduleResult) (t : Store)
      → replace digest zone_of owner id request now s ≡ ok (result, t)
      → result.replayed ≡ false
      → other.expected_version ≡ request.expected_version
      → NoReceipt owner other.client_request_id t
      → IsNext owner id request.expected_version t
        × (replace digest zone_of owner id other later t ≡ raise (error 409 stale_schedule_version))
  replace_then_replace owner id request other now later s result t e new same fresh =
      let (row, timezone, headed, locked, had_none, run) =
        replace_lem digest zone_of owner id request now s result t e new in
      let n = Replaced-IsNext owner id now s result t row request headed run in
      (
        n,
        replace_stale owner id other later t timezone locked
            (subst (λ v. IsNext owner id v t) (sym same) n) fresh,
      )

  -- After an undo or a redo that was done, the schedule has the version after the expected one,
  -- and any undo or redo that expects the old version, without a receipt, is refused.
  pub travel_then_travel :
      (direction direction₂ : Direction) (owner id : ℕ) (request other : HistoryCommand)
      (now later : Instant) (s : Store) (result : ScheduleResult) (t : Store)
      → travel digest zone_of direction owner id request now s ≡ ok (result, t)
      → result.replayed ≡ false
      → other.expected_version ≡ request.expected_version
      → NoReceipt owner other.client_request_id t
      → IsNext owner id request.expected_version t
        × (travel digest zone_of direction₂ owner id other later t
            ≡ raise (error 409 stale_schedule_version))
  travel_then_travel direction direction₂ owner id request other now later s result t e new same
        fresh =
      let (row, timezone, headed, locked, had_none, run) =
        travel_lem digest zone_of direction owner id request now s result t e new in
      let n = Travelled-IsNext direction owner id now s result t row request headed run in
      (
        n,
        travel_stale direction₂ owner id other later t timezone locked
            (subst (λ v. IsNext owner id v t) (sym same) n) fresh,
      )
