-- ===== src/Schedules/Commands/Reachable.antt =====
-- The tables that commands lead to, and what always holds of them.
use planer.Prelude.{ℕ, ◌≡◌, ◌⊎◌, inl, inr, ap, subst, String, Option, none, some}
use planer.Errors.{Result, ok, returned, ok_injective}
use planer.Clock.{Instant, Zone}
use planer.Schedules.{ScheduleCreate, ScheduleReplace, HistoryCommand, ScheduleResult}
use planer.Schedules.Store.{Store, owner_lock, header}
use planer.Schedules.Views.{replay}
use planer.Schedules.Commands.{
  Direction, Command, creates, replaces, travels, create_new, create, replace_current, replace,
  travel_current, travel, unless_replayed,
}
use planer.Schedules.Commands.Runs.{create_new_lem, replace_current_lem, travel_current_lem}
use planer.Schedules.Commands.Consistent.{IsConsistent, IsExclusive, IsConsistent-IsExclusive}
use planer.Schedules.Commands.Moves.{IsNew}
use planer.Schedules.Commands.Kept.{
  Created-IsConsistent, Replaced-IsConsistent, Travelled-IsConsistent,
}

-- A command either was answered from its receipt, and changed nothing, or did its work.
run_cases :
    (found : Option ScheduleResult) (s t : Store) (work : Result (ScheduleResult × Store))
    (result : ScheduleResult)
    → unless_replayed found s work ≡ ok (result, t)
    → (s ≡ t) ⊎ (work ≡ ok (result, t))
run_cases none s t work result e = inr e
run_cases (some r) s t work result e =
    inl (ap (λ (p : ScheduleResult × Store). p.1) (ok_injective e))

module _ (digest : Command → ℕ) (zone_of : String → Zone) where
  create-IsConsistent :
      (owner : ℕ) (request : ScheduleCreate) (id : ℕ) (now : Instant) (s : Store)
      (result : ScheduleResult) (t : Store)
      → create digest zone_of owner request id now s ≡ ok (result, t)
      → IsNew id s
      → IsConsistent s
      → IsConsistent t
  unfolding create
  create-IsConsistent owner request id now s result t e fresh h =
      let (timezone, locked, e1) = returned (owner_lock owner s) _ e in
      let (found, answered, e2) =
        returned (replay owner request.client_request_id (digest (creates request)) s)
          (λ found.
            unless_replayed found s (create_new digest zone_of owner timezone request id now s))
          e1 in
      elim (run_cases found s t _ result e2) [
        | inl same ↦ subst IsConsistent same h
        | inr work ↦
            Created-IsConsistent digest zone_of owner id now s result t h timezone request fresh
              (create_new_lem digest zone_of owner id now s result t timezone request work)
      ]

  replace-IsConsistent :
      (owner id : ℕ) (request : ScheduleReplace) (now : Instant) (s : Store)
      (result : ScheduleResult) (t : Store)
      → replace digest zone_of owner id request now s ≡ ok (result, t)
      → IsConsistent s
      → IsConsistent t
  unfolding replace
  replace-IsConsistent owner id request now s result t e h =
      let (timezone, locked, e1) = returned (owner_lock owner s) _ e in
      let (row, headed, e2) = returned (header owner id s) _ e1 in
      let (found, answered, e3) =
        returned (replay owner request.client_request_id (digest (replaces id request)) s)
          (λ found.
            unless_replayed found s (replace_current digest zone_of owner id row request now s))
          e2 in
      elim (run_cases found s t _ result e3) [
        | inl same ↦ subst IsConsistent same h
        | inr work ↦
            Replaced-IsConsistent digest zone_of owner id now s result t h row headed request
              (replace_current_lem digest zone_of owner id now s result t row request work)
      ]

  travel-IsConsistent :
      (direction : Direction) (owner id : ℕ) (request : HistoryCommand) (now : Instant) (s : Store)
      (result : ScheduleResult) (t : Store)
      → travel digest zone_of direction owner id request now s ≡ ok (result, t)
      → IsConsistent s
      → IsConsistent t
  unfolding travel
  travel-IsConsistent direction owner id request now s result t e h =
      let (timezone, locked, e1) = returned (owner_lock owner s) _ e in
      let (row, headed, e2) = returned (header owner id s) _ e1 in
      let (found, answered, e3) =
        returned (replay owner request.client_request_id (digest (travels direction id request)) s)
          (λ found.
            unless_replayed found s
              (travel_current digest zone_of direction owner id row request now s))
          e2 in
      elim (run_cases found s t _ result e3) [
        | inl same ↦ subst IsConsistent same h
        | inr work ↦
            Travelled-IsConsistent digest zone_of owner id now s result t h row headed direction
              request
              (travel_current_lem digest zone_of owner id now s result t direction row request work)
      ]

  -- What a command, of any owner and at any time, makes of the tables. One that raises leaves them.
  -- The identifier that `uuid4` gives a new schedule is one that no row has.
  pub data Step : Store → Store → Type 0 where
    by_create :
        (owner : ℕ) (request : ScheduleCreate) (id : ℕ) (now : Instant) (s : Store)
        (result : ScheduleResult) (t : Store)
        → create digest zone_of owner request id now s ≡ ok (result, t)
        → IsNew id s
        → Step s t
    by_replace :
        (owner id : ℕ) (request : ScheduleReplace) (now : Instant) (s : Store)
        (result : ScheduleResult) (t : Store)
        → replace digest zone_of owner id request now s ≡ ok (result, t)
        → Step s t
    by_travel :
        (direction : Direction) (owner id : ℕ) (request : HistoryCommand) (now : Instant)
        (s : Store) (result : ScheduleResult) (t : Store)
        → travel digest zone_of direction owner id request now s ≡ ok (result, t)
        → Step s t

  -- Any number of commands, one after the other
  pub data Reaches : Store → Store → Type 0 where
    start : (s : Store) → Reaches s s
    next : (s t u : Store) → Reaches s t → Step t u → Reaches s u

  Step-IsConsistent : (s t : Store) → Step s t → IsConsistent s → IsConsistent t
  Step-IsConsistent _ _ (by_create owner request id now s result t e fresh) h =
      create-IsConsistent owner request id now s result t e fresh h
  Step-IsConsistent _ _ (by_replace owner id request now s result t e) h =
      replace-IsConsistent owner id request now s result t e h
  Step-IsConsistent _ _ (by_travel direction owner id request now s result t e) h =
      travel-IsConsistent direction owner id request now s result t e h

  sequence-IsConsistent : (s t : Store) → Reaches s t → IsConsistent s → IsConsistent t
  sequence-IsConsistent _ _ (start s) h = h
  sequence-IsConsistent _ _ (next s m t before step) h =
      Step-IsConsistent m t step (sequence-IsConsistent s m before h)

  -- After any sequence of commands, of any owners, from consistent tables (such as empty ones) and
  -- with a new identifier for each new schedule, the tables are consistent: no two schedules of an
  -- owner overlap, no task of an owner has time in two schedules, and each block of a current
  -- layout has time for its task in its schedule. So no task has a block in the current layouts of
  -- two schedules of an owner.
  pub Reaches-IsConsistent :
      (s t : Store) → Reaches s t → IsConsistent s → IsConsistent t × IsExclusive t
  Reaches-IsConsistent s t reaches h =
      let after = sequence-IsConsistent s t reaches h in (after, IsConsistent-IsExclusive t after)
