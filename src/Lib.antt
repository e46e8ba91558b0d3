-- ===== src/Lib.antt =====
-- SmartPlanner: a planner of tasks over one or a few days, with accounts, a web API and a store.
--
-- The program's core is pure: a preview of a plan is computed from tasks, preferences, fixed events,
-- windows of availability and the blocks of an earlier plan, an edit of a task is computed from the
-- task and a patch, and a recurring activity is expanded into dates. The repositories and the API
-- around it load these values, call the core, and store what it returns. This library models the
-- core and the contracts that it shares with the rest.
--
-- Files and what they model:
--   Errors          src/smartplanner/errors.py: `AppError`, and exceptions as values of `Result`;
--                   the text of a message is left out
--   Clock           the part of Python's datetime that the core uses
--   Models          src/smartplanner/models.py: tasks, patches and (Models/Preferences) preferences;
--                   the validators are tests, in the order of the class
--   Planning        src/smartplanner/planning_models.py: requests, blocks and previews;
--                   Planning/Grid: what a validated request says of its instants
--   Recurrence      src/smartplanner/recurrence_models.py and recurrence.py; Recurrence/Dates and
--                   Recurrence/Windows are about `occurrence_dates` and `occurrence_window`
--   Series          src/smartplanner/recurrence_repository.py: the table of recurring activities;
--                   Series/Occurrences is `materialize`, and its children are about its rows, its runs
--                   and a request that is sent again
--   TaskChanges     src/smartplanner/task_changes.py; TaskChanges/Edits is about its one function
--   Repository      src/smartplanner/repository.py: the table of tasks, and (Repository/Preferences)
--                   that of preferences; Repository/Tasks and Repository/Edits are about creations and
--                   edits of tasks
--                   Repository/Sessions are the users and the sessions, and Sessions/Access is about
--                   the latter
--   FixedEvents     src/smartplanner/fixed_event_models.py and fixed_event_repository.py
--   Accounts        src/smartplanner/accounts.py: `AuthLimiter`; Accounts/Limits is about it
--   Schedules       src/smartplanner/schedule_models.py: saved layouts and their views; its children are
--                   about schedule_repository.py:
--     Store         the tables, and the writes that touch one table
--     Checks        `protect_placements`, `_sources` and `_validate`; Checks/Placements and
--                   Checks/Layouts are about them
--     Views         `_view`, `list`, `history` and `_replay`
--     Commands      `create`, `replace` and `travel`; Commands/Runs has the steps of a command that
--                   returned, Commands/Receipts and Commands/Replays are about receipts,
--                   Commands/Versions about versions, Commands/Travels about undo and redo,
--                   Commands/Histories about the bound of the history; Commands/Consistent says what
--                   the tables always are, Commands/Covered and Commands/Moves are about one write,
--                   Commands/Kept about one command and Commands/Reachable about sequences of them
--   Api             src/smartplanner/api.py: the checks before a handler (Api/Access is about
--                   `current_user`, with Api/Texts for the formats of its tokens) and the handler of
--                   previews (Api/Previews, with Api/Inputs and Api/Reads for what it reads)
--   Settings        src/smartplanner/settings.py: the checks of `Settings`
--   Scheduler       src/smartplanner/scheduler.py, one module for each part of `_Planner`:
--     Mask          the minute mask and `_gaps`; Mask/Fill and Mask/Gaps are about them
--     Setup         `__init__` and `indices`
--     Planner       `bounds`, `order`, `free_mask`, `valid_block`, `reserve`, `preserve_previous`
--     Search        `usage`, `score`, `find_slot`
--     Allocate      `allocate_task`, and the loop of `build_preview` over the tasks
--     Preview       `warnings`, `build_preview` and `inspect_layout`
--     Sound         the invariant of the planner's state, and one child for each step that keeps it:
--                   Masks, Reserve, Preserve (previous blocks), Slots and FindSlot (the search),
--                   Pieces and Allocation (the rest), Ready and Init (`__init__`), Instants (minutes
--                   read as instants), Planned and Preview (what a preview promises), and Locks and
--                   Layout (`inspect_layout`)
--     Account       accounting, with Account/Preserved and Account/Kept (`preserve_previous`),
--                   Account/Allocated (the loop over the tasks) and Account/Preview
--     Samples, Tests  a small problem, runs of the planner on it, and the theorems at it
--   Prelude         lists, sorting, predicates on lists, keys of tables, tests and integers
--
-- State. The fields that `__init__` writes and nothing changes are the record `Setup`; `blocks`,
-- `busy`, `unscheduled` and `search_budget` are the record `State`, which each operation takes and
-- returns. The search threads the budget through and raises `search_limit` when it is spent.
--
-- Numbers. An instant is a number of microseconds since the year 1, and a date is its ordinal; an
-- identifier is a number, since UUIDs order like their texts. A zone is a parameter: a record of
-- three functions, with the hypothesis `HasWholeSeconds`, that zoneinfo's offsets are whole seconds.
-- The float quotients of two timedeltas are whole minutes or are rounded, and stand for natural
-- numbers where the source clamps them at 0, and for integers where it does not (`indices`). For
-- the instants that the contracts allow these quotients are far below 2 ^ 53.
--
-- Loops. The outer loop of `_gaps` has `end - start` rounds, since each round moves on. The loop of
-- `allocate_task` has as many rounds as minutes remain, since each round places at least one minute.
-- The loops over ranges carry the number of values that are left.
--
-- Tables. A table is a list of rows, and an operation returns the new table only if it returns, since
-- a transaction that raises is rolled back. What the database chooses (the clock, a new identifier)
-- and the digest of a creation or of a command are parameters; the commands on schedules take a zone
-- for each name. The owner's row is locked first, so the commands of an owner run one after the
-- other. An `UPDATE` changes every row that its condition
-- selects, and `fetchone` reads the first one.
--
-- Not modelled: parsing and normalising by pydantic, `build_preview`'s test for a naive `now` (an
-- instant is always aware), the hashing of passwords and its slots, the handlers that only pass a call
-- on, response headers, the SQLite adapter, migrations, backups, the constraints that the tables
-- declare, the validators of the records that a view of a schedule is made of, and that of the
-- horizon that `build_preview` and `inspect_layout` make, which refuses one that starts before the
-- year 2000 in UTC.
mod Prelude
pub mod Errors
pub mod Clock
pub mod Models
pub mod Planning
pub mod Recurrence
pub mod Series
pub mod TaskChanges
pub mod Repository
pub mod FixedEvents
pub mod Settings
pub mod Accounts
pub mod Scheduler
pub mod Schedules
pub mod Api
