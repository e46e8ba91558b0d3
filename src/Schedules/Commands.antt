-- ===== src/Schedules/Commands.antt =====
-- src/smartplanner/schedule_repository.py: the commands that write. A command is one transaction,
-- and returns the new tables only if it returns. The digest of a command, the zone of a name, the
-- clock and the identifier of a new schedule are parameters.
pub mod Runs
pub mod Receipts
pub mod Replays
pub mod Versions
pub mod Travels
pub mod Histories
pub mod Consistent
pub mod Covered
pub mod Moves
pub mod Kept
pub mod Reachable
mod Tests
use planer.Prelude.{
  ℕ, ◌+◌, String, Bool, false, not, first_of, ◌&&◌, ◌||◌, Option, none, some, List, [], ◌∷◌, ◌++◌,
  any_of, filter_if, sort_by, ltb, leb, ◌==◌, if◌then◌else◌,
}
use planer.Errors.{
  Result, ok, raise, error, raise_if, ◌>>=◌, ◌>>◌, stale_schedule_version, schedule_version_limit,
  schedule_overlap, history_boundary,
}
use planer.Clock.{Instant, Zone}
use planer.Models.{max_version}
use planer.Planning.{TimeWindow}
use planer.Schedules.{SavedState, ScheduleCreate, ScheduleReplace, HistoryCommand, ScheduleResult}
use planer.Schedules.Store.{
  Schedule, Version, Store, Header, owner_lock, header, insert_state, insert_receipt, move_schedule,
  drop_after, trim_history, allocate, is_before, is_after,
}
use planer.Schedules.Checks.{validate}
use planer.Schedules.Views.{validated_state, view, replay}

pub data Direction : Type 0 where
  undo redo : Direction

-- What `command_digest` is given.
pub data Command : Type 0 where
  creates : ScheduleCreate → Command
  replaces : ℕ → ScheduleReplace → Command
  travels : Direction → ℕ → HistoryCommand → Command

-- `_next_version`
unfoldable pub next_version : Header → ℕ → Result ℕ
next_version row expected = do
  raise_if (not (row.version == expected)) (error 409 stale_schedule_version)
  raise_if (leb max_version expected) (error 409 schedule_version_limit)
  ok (expected + 1)

-- `_finish`
unfoldable pub finish : ℕ → ℕ → ℕ → ℕ → ℕ → Store → Result (ScheduleResult × Store)
unfolding insert_receipt view
finish owner id request digest version store = do
  let written = insert_receipt owner id request digest version store
  schedule ← view owner id written
  ok (record { schedule = schedule; replayed = false; applied_version = version }, written)

-- `if result is None`: the work of a command that has no receipt
abbrev pub unless_replayed :
    Option ScheduleResult
    → Store
    → Result (ScheduleResult × Store)
    → Result (ScheduleResult × Store)
unless_replayed (some result) store work = ok (result, store)
unless_replayed none store work = work

-- A row for a new schedule, with the defaults of its table
unfoldable pub insert_schedule : ℕ → ℕ → TimeWindow → String → Instant → Store → Store
insert_schedule owner id horizon timezone now store = record store {
  schedules =
      store.schedules
      ++ (record {
        id = id;
        user_id = owner;
        start_at = horizon.start;
        end_at = horizon.end;
        timezone = timezone;
        version = 1;
        current_revision = 1;
        created_at = now;
        updated_at = now;
      })
        ∷ [];
}

abbrev pub overlaps : ℕ → TimeWindow → Schedule → Bool
overlaps owner horizon schedule =
    schedule.user_id == owner
    && ltb schedule.start_at horizon.end
    && ltb horizon.start schedule.end_at

-- The version that a command goes to: `ORDER BY revision` with `LIMIT 1`
unfoldable pub nearest : Direction → ℕ → ℕ → List Version → Option Version
unfolding filter_if sort_by
nearest undo id revision versions = first_of (
    sort_by (λ (a b : Version). ltb b.revision a.revision)
      (filter_if (is_before id revision) versions))
nearest redo id revision versions = first_of (
    sort_by (λ (a b : Version). ltb a.revision b.revision)
      (filter_if (is_after id revision) versions))

module _ (digest : Command → ℕ) (zone_of : String → Zone) where
  -- The work of `create`, with the identifier that it chooses
  unfoldable pub create_new :
      ℕ → String → ScheduleCreate → ℕ → Instant → Store → Result (ScheduleResult × Store)
  unfolding validate any_of insert_schedule insert_state allocate finish
  create_new owner timezone request id now store = do
    (state, horizon) ← validate owner request.draft (zone_of timezone) none now store
    raise_if (any_of (overlaps owner horizon) store.schedules) (error 409 schedule_overlap)
    let inserted = insert_schedule owner id horizon timezone now store
    allocated ← allocate owner id state (insert_state owner id 1 state now inserted)
    finish owner id request.client_request_id (digest (creates request)) 1 allocated

  unfoldable pub create : ℕ → ScheduleCreate → ℕ → Instant → Store → Result (ScheduleResult × Store)
  unfolding owner_lock replay create_new
  create owner request id now store = do
    timezone ← owner_lock owner store
    found ← replay owner request.client_request_id (digest (creates request)) store
    unless_replayed found store (create_new owner timezone request id now store)

  -- The work of `replace`
  unfoldable pub replace_current :
      ℕ → ℕ → Header → ScheduleReplace → Instant → Store → Result (ScheduleResult × Store)
  unfolding next_version validated_state validate allocate drop_after insert_state move_schedule
      trim_history finish
  replace_current owner id row request now store = do
    version ← next_version row request.expected_version
    previous ← validated_state row.state
    (state, horizon) ←
        validate owner request.draft (zone_of row.timezone) (some previous.draft) now store
    allocated ← allocate owner id state store
    let kept = drop_after id row.current_revision allocated
    let moved =
        move_schedule owner id version version now (insert_state owner id version state now kept)
    finish owner id request.client_request_id (digest (replaces id request)) version
        (trim_history id moved)

  unfoldable pub replace :
      ℕ → ℕ → ScheduleReplace → Instant → Store → Result (ScheduleResult × Store)
  unfolding owner_lock header replay replace_current
  replace owner id request now store = do
    timezone ← owner_lock owner store
    row ← header owner id store
    found ← replay owner request.client_request_id (digest (replaces id request)) store
    unless_replayed found store (replace_current owner id row request now store)

  -- The work of `travel` towards a version that is there
  unfoldable pub travel_to :
      Direction
      → ℕ
      → ℕ
      → Header
      → HistoryCommand
      → ℕ
      → Version
      → Instant
      → Store
      → Result (ScheduleResult × Store)
  unfolding validated_state validate allocate move_schedule finish
  travel_to direction owner id row request version target now store = do
    previous ← validated_state row.state
    destination ← validated_state target.state
    (state, horizon) ←
        validate owner destination.draft (zone_of row.timezone) (some previous.draft) now store
    allocated ← allocate owner id destination store
    finish owner id request.client_request_id (digest (travels direction id request)) version
        (move_schedule owner id version target.revision now allocated)

  unfoldable pub travel_current :
      Direction
      → ℕ
      → ℕ
      → Header
      → HistoryCommand
      → Instant
      → Store
      → Result (ScheduleResult × Store)
  unfolding next_version nearest travel_to
  travel_current direction owner id row request now store = do
    version ← next_version row request.expected_version
    elim (nearest direction id row.current_revision store.versions) [
      | none ↦ raise (error 409 history_boundary)
      | some target ↦ travel_to direction owner id row request version target now store
    ]

  unfoldable pub travel :
      Direction → ℕ → ℕ → HistoryCommand → Instant → Store → Result (ScheduleResult × Store)
  unfolding owner_lock header replay travel_current
  travel direction owner id request now store = do
    timezone ← owner_lock owner store
    row ← header owner id store
    found ← replay owner request.client_request_id (digest (travels direction id request)) store
    unless_replayed found store (travel_current direction owner id row request now store)
