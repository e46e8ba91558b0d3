-- ===== src/Schedules/Store.antt =====
-- The tables that src/smartplanner/schedule_repository.py reads and writes, and the writes that
-- touch one table.
use planer.Prelude.{
  ℕ, String, Bool, not, ◌&&◌, none, some, List, [], ◌∷◌, ◌++◌, map, take, any_of, filter_if,
  find_if, update_if, contains, sort_by, max, ltb, ◌==◌, if◌then◌else◌,
}
use planer.Errors.{Result, ok, raise, error, raise_if, ◌>>◌, not_found, task_already_scheduled}
use planer.Clock.{Instant}
use planer.Repository.{TaskRow}
use planer.Repository.Preferences.{PreferenceRecord}
use planer.Schedules.{SavedState}

pub record User : Type 0 where
  pub id : ℕ
  pub timezone : String

pub record Schedule : Type 0 where
  pub id : ℕ
  pub user_id : ℕ
  pub start_at : Instant
  pub end_at : Instant
  pub timezone : String
  pub version : ℕ
  pub current_revision : ℕ
  pub created_at : Instant
  pub updated_at : Instant

pub record Version : Type 0 where
  pub schedule_id : ℕ
  pub user_id : ℕ
  pub revision : ℕ
  pub state : SavedState
  pub created_at : Instant

-- The receipt of a command.
pub record Receipt : Type 0 where
  pub user_id : ℕ
  pub client_request_id : ℕ
  pub schedule_id : ℕ
  pub request_digest : ℕ
  pub applied_version : ℕ

pub record Allocation : Type 0 where
  pub user_id : ℕ
  pub task_id : ℕ
  pub schedule_id : ℕ

pub record Store : Type 0 where
  pub users : List User
  pub tasks : List TaskRow
  pub preferences : List PreferenceRecord
  pub schedules : List Schedule
  pub versions : List Version
  pub commands : List Receipt
  pub allocations : List Allocation

-- `_owner_lock`; the commands of an owner run one after the other
unfoldable pub owner_lock : ℕ → Store → Result String
unfolding find_if
owner_lock owner store = elim (find_if (λ (user : User). user.id == owner) store.users) [
  | none ↦ raise not_found
  | some user ↦ ok user.timezone
]

abbrev pub is_schedule : ℕ → ℕ → Schedule → Bool
is_schedule owner id schedule = schedule.id == id && schedule.user_id == owner

abbrev pub is_version_at : ℕ → ℕ → Version → Bool
is_version_at id revision row = row.schedule_id == id && row.revision == revision

-- A row of `_header`.
pub record Header : Type 0 where
  pub schedule : Schedule
  pub open schedule use *
  pub state : SavedState
  pub can_undo : Bool
  pub can_redo : Bool

abbrev pub is_before : ℕ → ℕ → Version → Bool
is_before id revision row = row.schedule_id == id && ltb row.revision revision

abbrev pub is_after : ℕ → ℕ → Version → Bool
is_after id revision row = row.schedule_id == id && ltb revision row.revision

-- `_header`, whose join finds the schedule and the version that is its current one
unfoldable pub header : ℕ → ℕ → Store → Result Header
unfolding find_if any_of
header owner id store = elim (find_if (is_schedule owner id) store.schedules) [
  | none ↦ raise not_found
  | some schedule ↦
      elim (find_if (is_version_at schedule.id schedule.current_revision) store.versions) [
        | none ↦ raise not_found
        | some row ↦ ok (record {
          schedule = schedule;
          state = row.state;
          can_undo = any_of (is_before schedule.id schedule.current_revision) store.versions;
          can_redo = any_of (is_after schedule.id schedule.current_revision) store.versions;
        })
      ]
]

-- `_insert_state`
unfoldable pub insert_state : ℕ → ℕ → ℕ → SavedState → Instant → Store → Store
insert_state owner id revision state now store = record store {
  versions =
      store.versions
      ++ (record {
        schedule_id = id;
        user_id = owner;
        revision = revision;
        state = state;
        created_at = now;
      })
        ∷ [];
}

-- The write to `schedule_commands` of `_finish`
unfoldable pub insert_receipt : ℕ → ℕ → ℕ → ℕ → ℕ → Store → Store
insert_receipt owner id request digest version store = record store {
  commands =
      store.commands
      ++ (record {
        user_id = owner;
        client_request_id = request;
        schedule_id = id;
        request_digest = digest;
        applied_version = version;
      })
        ∷ [];
}

-- `UPDATE schedules SET version=..., current_revision=...`
unfoldable pub move_schedule : ℕ → ℕ → ℕ → ℕ → Instant → Store → Store
unfolding update_if
move_schedule owner id version revision now store = record store {
  schedules =
      update_if (is_schedule owner id)
        (λ (schedule : Schedule). record schedule {
          version = version;
          current_revision = revision;
          updated_at = max now schedule.updated_at;
        })
        store.schedules;
}

-- `DELETE FROM schedule_versions WHERE schedule_id=... AND revision>...`
unfoldable pub drop_after : ℕ → ℕ → Store → Store
unfolding filter_if
drop_after id revision store = record store {
  versions = filter_if (λ row. not (is_after id revision row)) store.versions;
}

-- `HISTORY_LIMIT`
abbrev pub history_limit : ℕ
history_limit = 20

-- `SELECT revision ... ORDER BY revision DESC LIMIT ...`
unfoldable pub latest_revisions : ℕ → ℕ → List Version → List ℕ
unfolding filter_if sort_by
latest_revisions id limit rows = take limit (
    sort_by (λ a b. ltb b a)
      (map (λ (row : Version). row.revision) (filter_if (λ row. row.schedule_id == id) rows)))

-- `DELETE FROM schedule_versions WHERE schedule_id=... AND revision NOT IN (...)`
unfoldable pub trim_history : ℕ → Store → Store
unfolding filter_if latest_revisions contains
trim_history id store =
    let latest = latest_revisions id history_limit store.versions in
    record store {
      versions =
          filter_if (λ row. not (row.schedule_id == id && not (contains row.revision latest)))
            store.versions;
    }

-- `sorted({block.task_id for block in ...}, key=str)`
unfoldable pub distinct_ids : List ℕ → List ℕ
unfolding contains
distinct_ids [] = []
distinct_ids (id ∷ rest) =
    let others = distinct_ids rest in if contains id rest then others else id ∷ others

-- `sorted({block.task_id for block in ...}, key=str)` of a layout
unfoldable pub block_ids : SavedState → List ℕ
unfolding sort_by distinct_ids
block_ids state = sort_by ltb (distinct_ids (map (λ block. block.task_id) state.content.blocks))

-- One of the tasks has time in another schedule of its owner.
abbrev pub is_taken : ℕ → ℕ → List ℕ → Allocation → Bool
is_taken owner id ids a = a.user_id == owner && contains a.task_id ids && not (a.schedule_id == id)

abbrev pub is_allocation_of : ℕ → ℕ → Allocation → Bool
is_allocation_of owner id a = a.user_id == owner && a.schedule_id == id

-- The `DELETE` and the `INSERT`s of `_allocations`
unfoldable pub set_allocations : ℕ → ℕ → List ℕ → Store → Store
unfolding filter_if
set_allocations owner id ids store = record store {
  allocations =
      filter_if (λ a. not (is_allocation_of owner id a)) store.allocations
      ++ map (λ task_id. record { user_id = owner; task_id = task_id; schedule_id = id }) ids;
}

-- `_allocations`
unfoldable pub allocate : ℕ → ℕ → SavedState → Store → Result Store
unfolding block_ids any_of contains set_allocations
allocate owner id state store = do
  raise_if (any_of (is_taken owner id (block_ids state)) store.allocations)
      (error 409 task_already_scheduled)
  ok (set_allocations owner id (block_ids state) store)
