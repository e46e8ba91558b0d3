-- ===== src/Schedules/Commands/Receipts.antt =====
-- What the receipt of a command that was done answers.
use mathlib.Core.Bool.{false≢true}
use planer.Prelude.{
  ℕ, ◌≡◌, refl, sym, ap, ◌∙◌, ◌⊎◌, inl, inr, String, true, false, not, Option, none, some, arith,
  find_if, find_if-append, Option-cases, ◌==◌,
}
use planer.Errors.{Result, ok, raise_if, returned, ok_injective}
use planer.Clock.{Instant, Zone}
use planer.Schedules.{
  SavedSchedule, ScheduleCreate, ScheduleReplace, HistoryCommand, ScheduleResult,
}
use planer.Schedules.Store.{
  Store, Header, owner_lock, header, insert_receipt, set_allocations, insert_state, move_schedule,
  drop_after, trim_history,
}
use planer.Schedules.Views.{view, replay, is_receipt}
use planer.Schedules.Commands.Runs.{
  finish_lem, created, replaced, travelled, Created, Replaced, Travelled,
}
use planer.Schedules.Commands.{
  Direction, Command, creates, replaces, travels, finish, insert_schedule, unless_replayed,
}

-- A first run that ended: it wrote what it wrote into `mid`, and then the receipt.
pub record Finished (owner id request digest : ℕ) (store : Store) (result : ScheduleResult)
    (t : Store) : Type 0 where
  pub mid : Store
  pub version : ℕ
  pub commands : mid.commands ≡ store.commands
  pub users : mid.users ≡ store.users
  pub finished : finish owner id request digest version mid ≡ ok (result, t)

abbrev SameResult : ScheduleResult × Store → ScheduleResult × Store → Type 0
SameResult a b = a ≡ b

abbrev pub NoReceipt : ℕ → ℕ → Store → Type 0
NoReceipt owner request store = find_if (is_receipt owner request) store.commands ≡ none

-- The receipt is found, and says what the command said.
replay-insert_receipt :
    (owner id request digest version : ℕ) (s : Store) (schedule : SavedSchedule)
    → NoReceipt owner request s
    → view owner id (insert_receipt owner id request digest version s) ≡ ok schedule
    → replay owner request digest (insert_receipt owner id request digest version s)
      ≡ ok (some (record { schedule = schedule; replayed = true; applied_version = version }))
unfolding replay insert_receipt
replay-insert_receipt owner id request digest version s schedule fresh viewed =
    rw
      (
        find_if-append (is_receipt owner request) s.commands
            (record {
              user_id = owner;
              client_request_id = request;
              schedule_id = id;
              request_digest = digest;
              applied_version = version;
            })
            fresh (ground arith),
        replay,
        same_digest,
        viewed,
      )
      refl
  where
    same_digest : (digest == digest) ≡ true
    same_digest = ground arith

header-view :
    (owner id : ℕ) (t : Store) (schedule : SavedSchedule)
    → view owner id t ≡ ok schedule
    → (row : Header) × (header owner id t ≡ ok row)
unfolding view
header-view owner id t schedule e =
    let (row, found, e') = returned (header owner id t) _ e in (row, found)

owner_lock-users :
    (owner : ℕ) (s t : Store) → t.users ≡ s.users → owner_lock owner t ≡ owner_lock owner s
unfolding owner_lock
owner_lock-users owner s t same = rw same refl

module _ (owner id request digest : ℕ) (store : Store) (result : ScheduleResult) (t : Store)
    (h : Finished owner id request digest store result t) where
  -- The result of the first run, marked as replayed.
  abbrev pub again : ScheduleResult
  again = record result { replayed = true }

  pub Finished-replay :
      NoReceipt owner request store → replay owner request digest t ≡ ok (some again)
  Finished-replay fresh =
      let (written, viewed, shape) =
        finish_lem owner id request digest h.version h.mid result t h.finished in
      let answered =
        replay-insert_receipt owner id request digest h.version h.mid result.schedule
          (ap (find_if (is_receipt owner request)) h.commands ∙ fresh)
          (ap (view owner id) (sym written) ∙ viewed) in
      ap (replay owner request digest) written
      ∙ answered
      ∙ ap (λ (r : ScheduleResult). ok (some (record r { replayed = true }))) (sym shape)

  pub Finished-owner_lock : owner_lock owner t ≡ owner_lock owner store
  Finished-owner_lock =
      let (written, viewed, shape) =
        finish_lem owner id request digest h.version h.mid result t h.finished in
      owner_lock-users owner store t
        (ap (λ (s : Store). s.users) written ∙ kept_users h.mid h.version ∙ h.users)
    where
      kept_users :
          (s : Store) (version : ℕ)
          → (insert_receipt owner id request digest version s).users ≡ s.users
      kept_users s version = unfold insert_receipt in refl

  pub Finished-header : (row : Header) × (header owner id t ≡ ok row)
  Finished-header =
      let (written, viewed, shape) =
        finish_lem owner id request digest h.version h.mid result t h.finished in
      header-view owner id t result.schedule viewed

-- By the receipt: what was answered from one is marked so, and what was not had none.
replay_cases :
    (owner request digest : ℕ) (s : Store) (found : Option ScheduleResult)
    → replay owner request digest s ≡ ok found
    → (NoReceipt owner request s × (found ≡ none))
      ⊎ ((r : ScheduleResult) × (found ≡ some r) × (r.replayed ≡ true))
unfolding replay
replay_cases owner request digest s found e =
    elim (Option-cases (find_if (is_receipt owner request) s.commands)) [
      | inl k ↦ inl (k, sym (ok_injective (rw (k, replay) at e)))
      | inr (receipt, k) ↦
          let (u, same, e1) =
            returned (raise_if (not (receipt.request_digest == digest)) _) _
              (rw (k, replay) at e) in
          let (schedule, viewed, e2) = returned (view owner receipt.schedule_id s) _ e1 in
          inr (
            record {
              schedule = schedule;
              replayed = true;
              applied_version = receipt.applied_version;
            },
            sym (ok_injective e2),
            refl,
          )
    ]

-- A command that was not answered from a receipt had none, and its work was done.
pub first_run :
    (owner request digest : ℕ) (s t : Store) (found : Option ScheduleResult)
    (work : Result (ScheduleResult × Store)) (result : ScheduleResult)
    → replay owner request digest s ≡ ok found
    → unless_replayed found s work ≡ ok (result, t)
    → result.replayed ≡ false
    → NoReceipt owner request s × (found ≡ none) × (work ≡ ok (result, t))
first_run owner request digest s t found work result answered e new =
    elim (replay_cases owner request digest s found answered) [
      | inl (fresh, none_found) ↦
          (fresh, none_found, ap (λ f. unless_replayed f s work) (sym none_found) ∙ e)
      | inr (r, found_r, marked) ↦
          let same = ok_injective (ap (λ f. unless_replayed f s work) (sym found_r) ∙ e) in
          absurd (clash r same marked)
    ]
  where
    clash : (r : ScheduleResult) → SameResult (r, s) (result, t) → r.replayed ≡ true → ⊥
    clash r same marked =
        false≢true (sym new ∙ ap (λ (p : ScheduleResult × Store). p.0.replayed) (sym same) ∙ marked)

module _ (digest : Command → ℕ) (zone_of : String → Zone) (owner id : ℕ) (now : Instant) (s : Store)
    (result : ScheduleResult) (t : Store) where
  pub Created-Finished :
      (timezone : String) (request : ScheduleCreate)
      → Created digest zone_of owner id now s result t timezone request
      → Finished owner id request.client_request_id (digest (creates request)) s result t
  unfolding insert_schedule insert_state set_allocations
  Created-Finished timezone request c = record {
    mid = created owner id timezone now c.horizon c.state s;
    version = 1;
    commands = refl;
    users = refl;
    finished = c.finished;
  }

  pub Replaced-Finished :
      (row : Header) (request : ScheduleReplace)
      → Replaced digest zone_of owner id now s result t row request
      → Finished owner id request.client_request_id (digest (replaces id request)) s result t
  unfolding set_allocations drop_after insert_state move_schedule trim_history
  Replaced-Finished row request c = record {
    mid = replaced owner id row now c.version c.state s;
    version = c.version;
    commands = refl;
    users = refl;
    finished = c.finished;
  }

  pub Travelled-Finished :
      (direction : Direction) (row : Header) (request : HistoryCommand)
      → Travelled digest zone_of owner id now s result t direction row request
      → Finished owner id request.client_request_id
          (digest (travels direction id request))
          s
          result
          t
  unfolding set_allocations move_schedule
  Travelled-Finished direction row request c = record {
    mid = travelled owner id now c.version c.target.revision c.state s;
    version = c.version;
    commands = refl;
    users = refl;
    finished = c.finished;
  }
