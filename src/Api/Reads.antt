-- ===== src/Api/Reads.antt =====
-- How the reading of stored events can fail, and how many are read.
use planer.Prelude.{
  length-take, length-map, some, ℕ, suc, ◌≡◌, ◌≤◌, sym, ap, ◌∙◌, not, List, [], ◌∷◌, map, take,
  length, arith, inl, inr,
}
use planer.Errors.{
  Exception, ok, raise, raise_if, raise≢ok, raised, raise_if-eq-raise, returned, ok_injective,
  validation_error,
}
use planer.Clock.{Instant}
use planer.FixedEvents.{
  FixedEventRecord, EventRow, validate_event, event_record, event_records, matching_events,
  list_events, planning_events,
}
use planer.Api.{stored_event}

-- Reading rows fails in one way only.
event_record-raise :
    (row : EventRow) (x : Exception) → event_record row ≡ raise x → validation_error ≡ x
unfolding event_record
event_record-raise row x e =
    elim (raised (raise_if (not (validate_event row.entry.event)) validation_error) _ x e) [
      | inl h ↦ (raise_if-eq-raise _ validation_error x h).1
      | inr (u, passed, h) ↦ absurd (raise≢ok x row.entry (sym h))
    ]

event_records-raise :
    (rows : List EventRow) (x : Exception) → event_records rows ≡ raise x → validation_error ≡ x
unfolding event_records
event_records-raise [] x e = absurd (raise≢ok x [] (sym e))
event_records-raise (row ∷ rest) x e = elim (raised (event_record row) _ x e) [
  | inl h ↦ event_record-raise row x h
  | inr (first, read, h) ↦ elim (raised (event_records rest) (λ others. ok (first ∷ others)) x h) [
    | inl k ↦ event_records-raise rest x k
    | inr (others, read_others, k) ↦ absurd (raise≢ok x (first ∷ others) (sym k))
  ]
]

-- Reading rows gives as many records.
length-event_records :
    (rows : List EventRow) (events : List FixedEventRecord)
    → event_records rows ≡ ok events
    → length events ≡ length rows
unfolding event_records
length-event_records [] events e = ap length (sym (ok_injective e))
length-event_records (row ∷ rest) events e =
    let (first, read, e1) = returned (event_record row) _ e in
    let (others, read_others, e2) =
      returned (event_records rest) (λ others. ok (first ∷ others)) e1 in
    ap length (sym (ok_injective e2)) ∙ ap suc (length-event_records rest others read_others)

-- However many events there are in the horizon, the handler reads at most 100.
pub planning_events-le :
    (owner : ℕ) (start end : Instant) (rows : List EventRow) (stored : List FixedEventRecord)
    → planning_events owner start end rows ≡ ok stored
    → length (map stored_event stored) ≤ 100
unfolding planning_events list_events
planning_events-le owner start end rows stored e =
    let page = matching_events owner (some start) (some end) rows in
    le_of (length-map stored_event stored) (length-event_records (take 100 page) stored e)
      (length-take 100 page)
  where
    le_of : {a b c : ℕ} → a ≡ b → b ≡ c → c ≤ 100 → a ≤ 100
    le_of h k l = omega arith

pub planning_events-raise :
    (owner : ℕ) (start end : Instant) (rows : List EventRow) (x : Exception)
    → planning_events owner start end rows ≡ raise x
    → validation_error ≡ x
unfolding planning_events list_events
planning_events-raise owner start end rows x e =
    event_records-raise (take 100 (matching_events owner (some start) (some end) rows)) x e
