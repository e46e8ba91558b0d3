-- ===== src/Repository/Tests.antt =====
-- A table with one task, and the theorems about it there.
use Prim.Native.Char.{code}
use planer.Prelude.{
  String, ◌*◌, arith, find_if, any_of, ℕ, ◌+◌, ◌≡◌, refl, true, false, none, List, [], ◌∷◌,
}
use planer.Errors.{ok, raise, error, stale_version, not_found, request_id_conflict}
use planer.Models.{Period, Status, TaskCreate, TaskRecord, TaskPatch, unset, value}
use planer.Repository.{TaskRow, create_task, get_task, update_task}
use planer.Repository.Tasks.{create_task_again}
use planer.Repository.Sessions.{UserRow, Session, create_session, session_user, logout}
use planer.Repository.Sessions.Access.{denied, session_user_lem}
use planer.Repository.Edits.{update_task_lem}

-- Stands for a digest: the length of the task.
abbrev digest : TaskCreate → ℕ
digest task = task.duration_minutes

abbrev creation : ℕ → TaskCreate
creation duration = record {
  times = record { earliest_start = none; deadline = none };
  client_request_id = 9;
  title = "write";
  description = "";
  duration_minutes = duration;
  priority = 5;
  splittable = true;
  preferred_period = Period.any;
}

abbrev made : TaskRecord
made = record {
  created = creation 30;
  id = 1;
  user_id = 2;
  status = Status.pending;
  version = 1;
  created_at = 100;
  updated_at = 100;
  recurrence_id = none;
  occurrence_date = none;
}

abbrev table : List TaskRow
table = record { task = made; creation_digest = 30; deleted = false } ∷ []

create_runs : create_task digest 2 (creation 30) 1 100 [] ≡ ok ((made, false), table)
unfolding create_task
create_runs = refl

other_task : create_task digest 2 (creation 31) 5 110 table ≡ raise (error 409 request_id_conflict)
unfolding create_task
other_task = refl

create_task_again_example :
    create_task digest 2 (creation 30) 7 200 table ≡ ok ((made, true), table)
create_task_again_example =
    create_task_again digest 2 (creation 30) 1 7 100 200 [] table made create_runs

abbrev patch : ℕ → ℕ → TaskPatch
patch version duration = record {
  expected_version = version;
  earliest_start = unset;
  deadline = unset;
  title = unset;
  description = unset;
  duration_minutes = value duration;
  priority = unset;
  splittable = unset;
  preferred_period = unset;
  status = unset;
}

abbrev edited : TaskRecord
edited = record made {
  created = record made.created { duration_minutes = 45 };
  version = 2;
  updated_at = 300;
}

abbrev edited_table : List TaskRow
edited_table = record { task = edited; creation_digest = 30; deleted = false } ∷ []

update_runs : update_task 2 1 (patch 1 45) 300 table ≡ ok (edited, edited_table)
unfolding update_task
update_runs = refl

-- Another user does not find the task.
foreign : update_task 3 1 (patch 1 45) 300 table ≡ raise not_found
unfolding update_task
foreign = refl

update_task_lem_example :
    (get_task 2 1 edited_table ≡ ok edited)
    × (2 ≡ 1 + 1)
    × (update_task 2 1 (patch 1 60) 400 edited_table ≡ raise stale_version)
update_task_lem_example =
    update_task_lem 2 1 (patch 1 45) (patch 1 60) 300 400 table edited_table edited update_runs refl

abbrev account : UserRow
account = record {
  user = record { id = 2; email = "a@example.org"; timezone = "UTC"; created_at = 0 };
  password_hash = "";
}

-- Stands for the digest of a token: the code of its first letter.
abbrev token_digest : String → ℕ
token_digest String.[] = 0
token_digest (String.◌∷◌ c rest) = code c

-- An open session of the same user, with the token "u", and an expired one
abbrev open_sessions : List Session
open_sessions =
    record { token_digest = 117; user_id = 2; expires_at = 9000 * 1_000_000 }
    ∷ record { token_digest = 118; user_id = 2; expires_at = 90 }
    ∷ []

abbrev made_sessions : List Session
made_sessions = create_session token_digest "t" 2 1 100 open_sessions

session_user_lem_example :
    (session_user token_digest "t" 7200 made_sessions (account ∷ []) ≡ ok account.user)
    × (session_user token_digest "u" 7200 made_sessions (account ∷ [])
        ≡ session_user token_digest "u" 7200 open_sessions (account ∷ []))
    × ((table : List Session)
        → (session_user token_digest "t" 7200 (logout token_digest "t" table) (account ∷ [])
            ≡ denied)
          × (session_user token_digest "u" 7200 (logout token_digest "t" table) (account ∷ [])
              ≡ session_user token_digest "u" 7200 table (account ∷ [])))
unfolding find_if any_of
session_user_lem_example =
    session_user_lem token_digest "t" "u" 7200 (account ∷ []) 2 1 100 open_sessions account refl
      refl (omega arith) refl

-- The other session is still open.
still_in : session_user token_digest "u" 7200 made_sessions (account ∷ []) ≡ ok account.user
unfolding session_user create_session
still_in = refl
