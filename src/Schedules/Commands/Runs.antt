-- ===== src/Schedules/Commands/Runs.antt =====
-- What a command has done once it returned: each of its steps returned, and the tables are what
-- they wrote.
use planer.Prelude.{
  ℕ, ◌+◌, ◌≡◌, refl, sym, ap, ◌∙◌, subst, String, true, false, not, inl, inr, none, some, arith,
  any_of, Option-cases, ◌==◌, leb,
}
use planer.Errors.{
  ok, error, raise_if, history_boundary, raise≢ok, returned, ok_injective, raise_if-eq-ok,
  stale_schedule_version, schedule_version_limit, schedule_overlap,
}
use planer.Clock.{Instant, Zone}
use planer.Models.{max_version}
use planer.Planning.{TimeWindow}
use planer.Schedules.{SavedState, ScheduleCreate, ScheduleReplace, HistoryCommand, ScheduleResult}
use planer.Schedules.Store.{
  Version, Store, Header, insert_receipt, is_taken, block_ids, set_allocations, allocate,
  insert_state, move_schedule, drop_after, trim_history,
}
use planer.Schedules.Checks.{validate}
use planer.Schedules.Views.{validated_state, view}
use planer.Schedules.Commands.{
  Direction, Command, creates, replaces, travels, overlaps, finish, next_version, insert_schedule,
  nearest, create_new, replace_current, travel_to, travel_current,
}

-- `allocate` writes one table, after it found all tasks free.
pub allocate_lem :
    (owner id : ℕ) (state : SavedState) (s t : Store)
    → allocate owner id state s ≡ ok t
    → (any_of (is_taken owner id (block_ids state)) s.allocations ≡ false)
      × (t ≡ set_allocations owner id (block_ids state) s)
unfolding allocate
allocate_lem owner id state s t e =
    let (u, free, same) =
      returned (raise_if (any_of (is_taken owner id (block_ids state)) s.allocations) _)
        (λ _. ok (set_allocations owner id (block_ids state) s)) e in
    (raise_if-eq-ok _ _ u free, sym (ok_injective same))

-- What `finish` returns.
pub finish_lem :
    (owner id request digest version : ℕ) (s : Store) (result : ScheduleResult) (t : Store)
    → finish owner id request digest version s ≡ ok (result, t)
    → (t ≡ insert_receipt owner id request digest version s)
      × (view owner id t ≡ ok result.schedule)
      × (result
          ≡ record { schedule = result.schedule; replayed = false; applied_version = version })
unfolding finish
finish_lem owner id request digest version s result t e =
    let written = insert_receipt owner id request digest version s in
    let (schedule, viewed, e') =
      returned (view owner id written)
        (λ schedule.
          ok (record { schedule = schedule; replayed = false; applied_version = version }, written))
        e in
    let same = ok_injective e' in
    subst
      (λ (p : ScheduleResult × Store).
        (p.1 ≡ insert_receipt owner id request digest version s)
        × (view owner id p.1 ≡ ok p.0.schedule)
        × (p.0 ≡ record { schedule = p.0.schedule; replayed = false; applied_version = version }))
      same (refl, viewed, refl)

-- A command goes to the version after the one it expected, which is the schedule's.
pub next_version_lem :
    (row : Header) (expected version : ℕ)
    → next_version row expected ≡ ok version
    → ((row.version == expected) ≡ true)
      × (leb max_version expected ≡ false)
      × (version ≡ expected + 1)
unfolding next_version
next_version_lem row expected version e =
    let (u, same, e1) =
      returned (raise_if (not (row.version == expected)) (error 409 stale_schedule_version)) _ e in
    let (w, below, e2) =
      returned (raise_if (leb max_version expected) (error 409 schedule_version_limit))
        (λ _. ok (expected + 1)) e1 in
    let kept = raise_if-eq-ok _ _ u same in
    (ground arith, raise_if-eq-ok _ _ w below, sym (ok_injective e2))

-- The tables that each command gives its receipt to.
abbrev pub created : ℕ → ℕ → String → Instant → TimeWindow → SavedState → Store → Store
created owner id timezone now horizon state s =
    set_allocations owner id (block_ids state)
      (insert_state owner id 1 state now (insert_schedule owner id horizon timezone now s))

abbrev pub replaced : ℕ → ℕ → Header → Instant → ℕ → SavedState → Store → Store
replaced owner id row now version state s = trim_history id (
    move_schedule owner id version version now (
      insert_state owner id version state now
        (drop_after id row.current_revision (set_allocations owner id (block_ids state) s))))

abbrev pub travelled : ℕ → ℕ → Instant → ℕ → ℕ → SavedState → Store → Store
travelled owner id now version revision state s =
    move_schedule owner id version revision now (set_allocations owner id (block_ids state) s)

module _ (digest : Command → ℕ) (zone_of : String → Zone) (owner id : ℕ) (now : Instant) (s : Store)
    (result : ScheduleResult) (t : Store) where
  pub record Created (timezone : String) (request : ScheduleCreate) : Type 0 where
    pub state : SavedState
    pub horizon : TimeWindow
    pub valid : validate owner request.draft (zone_of timezone) none now s ≡ ok (state, horizon)
    pub apart : any_of (overlaps owner horizon) s.schedules ≡ false
    pub free : any_of (is_taken owner id (block_ids state)) s.allocations ≡ false
    pub finished :
        finish owner id request.client_request_id
          (digest (creates request))
          1
          (created owner id timezone now horizon state s)
        ≡ ok (result, t)

  pub record Replaced (row : Header) (request : ScheduleReplace) : Type 0 where
    pub version : ℕ
    pub previous : SavedState
    pub state : SavedState
    pub horizon : TimeWindow
    pub next : next_version row request.expected_version ≡ ok version
    pub was : validated_state row.state ≡ ok previous
    pub valid :
        validate owner request.draft (zone_of row.timezone) (some previous.draft) now s
        ≡ ok (state, horizon)
    pub free : any_of (is_taken owner id (block_ids state)) s.allocations ≡ false
    pub finished :
        finish owner id request.client_request_id
          (digest (replaces id request))
          version
          (replaced owner id row now version state s)
        ≡ ok (result, t)

  pub record Travelled (direction : Direction) (row : Header) (request : HistoryCommand)
      : Type 0 where
    pub version : ℕ
    pub target : Version
    pub previous : SavedState
    pub state : SavedState
    pub checked : SavedState
    pub horizon : TimeWindow
    pub next : next_version row request.expected_version ≡ ok version
    pub found : nearest direction id row.current_revision s.versions ≡ some target
    pub was : validated_state row.state ≡ ok previous
    pub is : validated_state target.state ≡ ok state
    pub valid :
        validate owner state.draft (zone_of row.timezone) (some previous.draft) now s
        ≡ ok (checked, horizon)
    pub free : any_of (is_taken owner id (block_ids state)) s.allocations ≡ false
    pub finished :
        finish owner id request.client_request_id
          (digest (travels direction id request))
          version
          (travelled owner id now version target.revision state s)
        ≡ ok (result, t)

  pub create_new_lem :
      (timezone : String) (request : ScheduleCreate)
      → create_new digest zone_of owner timezone request id now s ≡ ok (result, t)
      → Created timezone request
  unfolding create_new
  create_new_lem timezone request e =
      let ((state, horizon), valid, e1) =
        returned (validate owner request.draft (zone_of timezone) none now s) _ e in
      let (u, apart, e2) =
        returned
          (raise_if (any_of (overlaps owner horizon) s.schedules) (error 409 schedule_overlap)) _
          e1 in
      let first =
        insert_state owner id 1 state now (insert_schedule owner id horizon timezone now s) in
      let then = finish owner id request.client_request_id (digest (creates request)) 1 in
      let (mid, allocated, e3) = returned (allocate owner id state first) then e2 in
      let (free, wrote) = allocate_lem owner id state first mid allocated in
      record {
        state = state;
        horizon = horizon;
        valid = valid;
        apart = raise_if-eq-ok _ _ u apart;
        free = kept_free state (insert_schedule owner id horizon timezone now s) free;
        finished = ap then (sym wrote) ∙ e3;
      }
    where
      kept_free :
          (state : SavedState) (s' : Store)
          → any_of
              (is_taken owner id (block_ids state))
              (insert_state owner id 1 state now s').allocations
            ≡ false
          → any_of (is_taken owner id (block_ids state)) s'.allocations ≡ false
      kept_free state s' h = unfold insert_state in h

  pub replace_current_lem :
      (row : Header) (request : ScheduleReplace)
      → replace_current digest zone_of owner id row request now s ≡ ok (result, t)
      → Replaced row request
  unfolding replace_current
  replace_current_lem row request e =
      let (version, next, e1) = returned (next_version row request.expected_version) _ e in
      let (previous, was, e2) = returned (validated_state row.state) _ e1 in
      let ((state, horizon), valid, e3) =
        returned (validate owner request.draft (zone_of row.timezone) (some previous.draft) now s) _
          e2 in
      let then = (λ (store : Store).
        finish owner id request.client_request_id (digest (replaces id request)) version (
          trim_history id (
            move_schedule owner id version version now (
              insert_state owner id version state now
                (drop_after id row.current_revision store))))) in
      let (mid, allocated, e4) = returned (allocate owner id state s) then e3 in
      let (free, wrote) = allocate_lem owner id state s mid allocated in
      record {
        version = version;
        previous = previous;
        state = state;
        horizon = horizon;
        next = next;
        was = was;
        valid = valid;
        free = free;
        finished = ap then (sym wrote) ∙ e4;
      }

  travel_to_lem :
      (direction : Direction) (row : Header) (request : HistoryCommand) (version : ℕ)
      (target : Version)
      → next_version row request.expected_version ≡ ok version
      → nearest direction id row.current_revision s.versions ≡ some target
      → travel_to digest zone_of direction owner id row request version target now s
        ≡ ok (result, t)
      → Travelled direction row request
  unfolding travel_to
  travel_to_lem direction row request version target next found e =
      let (previous, was, e1) = returned (validated_state row.state) _ e in
      let (state, is, e2) = returned (validated_state target.state) _ e1 in
      let ((checked, horizon), valid, e3) =
        returned (validate owner state.draft (zone_of row.timezone) (some previous.draft) now s) _
          e2 in
      let then = (λ (store : Store).
        finish owner id request.client_request_id (digest (travels direction id request)) version
          (move_schedule owner id version target.revision now store)) in
      let (mid, allocated, e4) = returned (allocate owner id state s) then e3 in
      let (free, wrote) = allocate_lem owner id state s mid allocated in
      record {
        version = version;
        target = target;
        previous = previous;
        state = state;
        checked = checked;
        horizon = horizon;
        next = next;
        found = found;
        was = was;
        is = is;
        valid = valid;
        free = free;
        finished = ap then (sym wrote) ∙ e4;
      }

  pub travel_current_lem :
      (direction : Direction) (row : Header) (request : HistoryCommand)
      → travel_current digest zone_of direction owner id row request now s ≡ ok (result, t)
      → Travelled direction row request
  unfolding travel_current
  travel_current_lem direction row request e =
      let (version, next, e1) = returned (next_version row request.expected_version) _ e in
      elim (Option-cases (nearest direction id row.current_revision s.versions)) [
        | inl k ↦ absurd (raise≢ok (error 409 history_boundary) (result, t) (rw k at e1))
        | inr (target, k) ↦ travel_to_lem direction row request version target next k (rw k at e1)
      ]
