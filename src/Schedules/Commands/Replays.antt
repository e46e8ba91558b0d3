-- ===== src/Schedules/Commands/Replays.antt =====
-- A command that is sent again: the receipt of the first answers the second.
use planer.Prelude.{ℕ, ◌≡◌, refl, ◌∙◌, String, true, false}
use planer.Errors.{ok, returned}
use planer.Clock.{Instant, Zone}
use planer.Schedules.{ScheduleCreate, ScheduleReplace, HistoryCommand, ScheduleResult}
use planer.Schedules.Store.{Store, Header, owner_lock, header}
use planer.Schedules.Views.{replay}
use planer.Schedules.Commands.Runs.{
  Replaced, Travelled, create_new_lem, replace_current_lem, travel_current_lem,
}
use planer.Schedules.Commands.{
  Direction, Command, creates, replaces, travels, create_new, create, replace_current, replace,
  travel_current, travel, unless_replayed,
}
use planer.Schedules.Commands.Receipts.{
  NoReceipt, Finished-replay, Finished-owner_lock, Finished-header, first_run, Created-Finished,
  Replaced-Finished, Travelled-Finished,
}

module _ (digest : Command → ℕ) (zone_of : String → Zone) where
  -- A creation that returned a new schedule, sent again to the tables it left, at any time and
  -- with any new identifier: it returns the result of the first, marked as replayed, and writes
  -- nothing.
  pub create_again :
      (owner : ℕ) (request : ScheduleCreate) (id id₂ : ℕ) (now later : Instant) (s : Store)
      (result : ScheduleResult) (t : Store)
      → create digest zone_of owner request id now s ≡ ok (result, t)
      → result.replayed ≡ false
      → create digest zone_of owner request id₂ later t ≡ ok (record result { replayed = true }, t)
  unfolding create
  create_again owner request id id₂ now later s result t e new =
      let (timezone, locked, e1) = returned (owner_lock owner s) _ e in
      let key = digest (creates request) in
      let (found, answered, e2) =
        returned (replay owner request.client_request_id key s)
          (λ found.
            unless_replayed found s (create_new digest zone_of owner timezone request id now s))
          e1 in
      let (fresh, none_found, worked) =
        first_run owner request.client_request_id key s t found
          (create_new digest zone_of owner timezone request id now s) result answered e2 new in
      let done =
        Created-Finished digest zone_of owner id now s result t timezone request
          (create_new_lem digest zone_of owner id now s result t timezone request worked) in
      rw
        (
          Finished-owner_lock owner id request.client_request_id key s result t done,
          locked,
          Finished-replay owner id request.client_request_id key s result t done fresh,
        )
        refl

  -- The steps of a `replace` and of a `travel` that were not answered from a receipt.
  pub replace_lem :
      (owner id : ℕ) (request : ScheduleReplace) (now : Instant) (s : Store)
      (result : ScheduleResult) (t : Store)
      → replace digest zone_of owner id request now s ≡ ok (result, t)
      → result.replayed ≡ false
      → (row : Header) × (timezone : String) × (header owner id s ≡ ok row)
        × (owner_lock owner t ≡ ok timezone)
        × NoReceipt owner request.client_request_id s
        × Replaced digest zone_of owner id now s result t row request
  unfolding replace
  replace_lem owner id request now s result t e new =
      let (timezone, locked, e1) = returned (owner_lock owner s) _ e in
      let (row, headed, e2) = returned (header owner id s) _ e1 in
      let key = digest (replaces id request) in
      let (found, answered, e3) =
        returned (replay owner request.client_request_id key s)
          (λ found.
            unless_replayed found s (replace_current digest zone_of owner id row request now s))
          e2 in
      let (fresh, none_found, worked) =
        first_run owner request.client_request_id key s t found
          (replace_current digest zone_of owner id row request now s) result answered e3 new in
      let run = replace_current_lem digest zone_of owner id now s result t row request worked in
      let done = Replaced-Finished digest zone_of owner id now s result t row request run in
      (
        row,
        timezone,
        headed,
        Finished-owner_lock owner id request.client_request_id key s result t done ∙ locked,
        fresh,
        run,
      )

  pub travel_lem :
      (direction : Direction) (owner id : ℕ) (request : HistoryCommand) (now : Instant) (s : Store)
      (result : ScheduleResult) (t : Store)
      → travel digest zone_of direction owner id request now s ≡ ok (result, t)
      → result.replayed ≡ false
      → (row : Header) × (timezone : String) × (header owner id s ≡ ok row)
        × (owner_lock owner t ≡ ok timezone)
        × NoReceipt owner request.client_request_id s
        × Travelled digest zone_of owner id now s result t direction row request
  unfolding travel
  travel_lem direction owner id request now s result t e new =
      let (timezone, locked, e1) = returned (owner_lock owner s) _ e in
      let (row, headed, e2) = returned (header owner id s) _ e1 in
      let key = digest (travels direction id request) in
      let (found, answered, e3) =
        returned (replay owner request.client_request_id key s)
          (λ found.
            unless_replayed found s
              (travel_current digest zone_of direction owner id row request now s))
          e2 in
      let (fresh, none_found, worked) =
        first_run owner request.client_request_id key s t found
          (travel_current digest zone_of direction owner id row request now s) result answered e3
          new in
      let run =
        travel_current_lem digest zone_of owner id now s result t direction row request worked in
      let done =
        Travelled-Finished digest zone_of owner id now s result t direction row request run in
      (
        row,
        timezone,
        headed,
        Finished-owner_lock owner id request.client_request_id key s result t done ∙ locked,
        fresh,
        run,
      )

  -- A replacement that was done, sent again to the tables it left at any time: it returns the
  -- result of the first, marked as replayed, and writes nothing.
  pub replace_again :
      (owner id : ℕ) (request : ScheduleReplace) (now later : Instant) (s : Store)
      (result : ScheduleResult) (t : Store)
      → replace digest zone_of owner id request now s ≡ ok (result, t)
      → result.replayed ≡ false
      → replace digest zone_of owner id request later t ≡ ok (record result { replayed = true }, t)
  unfolding replace
  replace_again owner id request now later s result t e new =
      let (row, timezone, headed, locked, fresh, run) =
        replace_lem owner id request now s result t e new in
      let key = digest (replaces id request) in
      let done = Replaced-Finished digest zone_of owner id now s result t row request run in
      let (row₂, headed₂) =
        Finished-header owner id request.client_request_id key s result t done in
      rw
        (
          locked,
          headed₂,
          Finished-replay owner id request.client_request_id key s result t done fresh,
        )
        refl

  -- An undo or a redo that was done, sent again to the tables it left at any time: it returns the
  -- result of the first, marked as replayed, and writes nothing.
  pub travel_again :
      (direction : Direction) (owner id : ℕ) (request : HistoryCommand) (now later : Instant)
      (s : Store) (result : ScheduleResult) (t : Store)
      → travel digest zone_of direction owner id request now s ≡ ok (result, t)
      → result.replayed ≡ false
      → travel digest zone_of direction owner id request later t
        ≡ ok (record result { replayed = true }, t)
  unfolding travel
  travel_again direction owner id request now later s result t e new =
      let (row, timezone, headed, locked, fresh, run) =
        travel_lem direction owner id request now s result t e new in
      let key = digest (travels direction id request) in
      let done =
        Travelled-Finished digest zone_of owner id now s result t direction row request run in
      let (row₂, headed₂) =
        Finished-header owner id request.client_request_id key s result t done in
      rw
        (
          locked,
          headed₂,
          Finished-replay owner id request.client_request_id key s result t done fresh,
        )
        refl
