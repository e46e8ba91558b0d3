-- ===== src/Schedules/Commands/Histories.antt =====
-- The history of a schedule is bounded.
use planer.Prelude.{
  ℕ, ◌≡◌, ◌≤◌, refl, sym, ap, ◌∙◌, subst, String, Bool, true, false, not, ◌&&◌, List, map, arith,
  length, length-take, length-map, All, All-both, All-map, All-filter_if, All-filter_test, Pairs,
  Pairs-imp, Pairs-map, Pairs-filter_if, filter_if, contains, distinct-le, Differ, ◌==◌,
}
use planer.Errors.{ok}
use planer.Clock.{Instant, Zone}
use planer.Schedules.{ScheduleReplace, ScheduleResult}
use planer.Schedules.Store.{
  Version, Store, insert_receipt, latest_revisions, trim_history, history_limit,
}
use planer.Schedules.Commands.{Command, replaces, replace}
use planer.Schedules.Commands.Runs.{finish_lem, replaced}
use planer.Schedules.Commands.Replays.{replace_lem}

-- The key of the table of versions.
abbrev pub AreKeyed : Version → Version → Type 0
AreKeyed a b = a.schedule_id ≡ b.schedule_id → Differ a.revision b.revision

abbrev pub IsKeyed : Store → Type 0
IsKeyed s = Pairs AreKeyed s.versions

abbrev pub own_versions : ℕ → Store → List Version
own_versions id s = filter_if (λ row. row.schedule_id == id) s.versions

-- What is left is among the latest.
trim_history-latest :
    (id : ℕ) (s : Store)
    → All
        (λ (row : Version).
          contains row.revision (latest_revisions id history_limit s.versions) ≡ true)
        (own_versions id (trim_history id s))
unfolding trim_history
trim_history-latest id s =
    let latest = latest_revisions id history_limit s.versions in
    let own : Version → Bool = λ row. row.schedule_id == id in
    let stays : Version → Bool =
      λ row. not (row.schedule_id == id && not (contains row.revision latest)) in
    let kept = filter_if stays s.versions in
    All-both (λ row. stays row ≡ true) (λ row. own row ≡ true)
      (λ row. contains row.revision latest ≡ true) (λ row a b. ground arith) (filter_if own kept)
      (All-filter_if (λ row. stays row ≡ true) own kept (All-filter_test stays s.versions))
      (All-filter_test own kept)

length-latest_revisions :
    (id limit : ℕ) (rows : List Version) → length (latest_revisions id limit rows) ≤ limit
unfolding latest_revisions
length-latest_revisions id limit rows = length-take limit _

trim_history-le :
    (id : ℕ) (s : Store)
    → IsKeyed (trim_history id s)
    → length (own_versions id (trim_history id s)) ≤ history_limit
trim_history-le id s keyed =
    let own : Version → Bool = λ row. row.schedule_id == id in
    let t = trim_history id s in
    let rows = own_versions id t in
    let revision : Version → ℕ = λ row. row.revision in
    let latest = latest_revisions id history_limit s.versions in
    let distinct = Pairs-map Differ revision rows (
      Pairs-imp (λ row. own row ≡ true) AreKeyed (λ a b. Differ a.revision b.revision)
        (λ a b p q k. k (same a b p q)) rows (All-filter_test own t.versions)
        (Pairs-filter_if AreKeyed own t.versions keyed)) in
    let among = All-map (λ x. contains x latest ≡ true) revision rows (trim_history-latest id s) in
    let bound = distinct-le (map revision rows) latest distinct among in
    omega
      (arith, bound, length-map revision rows, length-latest_revisions id history_limit s.versions)
  where
    same :
        (a b : Version)
        → (a.schedule_id == id) ≡ true
        → (b.schedule_id == id) ≡ true
        → a.schedule_id ≡ b.schedule_id
    same a b p q = ground arith

-- A replacement that was done, and not answered from a receipt, leaves at most 20 versions of its
-- schedule, where a schedule and a revision are the key of the table of versions that it leaves.
pub replace-history_limit :
    (digest : Command → ℕ) (zone_of : String → Zone) (owner id : ℕ) (request : ScheduleReplace)
    (now : Instant) (s : Store) (result : ScheduleResult) (t : Store)
    → replace digest zone_of owner id request now s ≡ ok (result, t)
    → result.replayed ≡ false
    → IsKeyed t
    → length (own_versions id t) ≤ history_limit
replace-history_limit digest zone_of owner id request now s result t e new keyed =
    let (row, timezone, headed, locked, had_none, run) =
      replace_lem digest zone_of owner id request now s result t e new in
    let mid = replaced owner id row now run.version run.state s in
    let (wrote, viewed, shape) =
      finish_lem owner id request.client_request_id (digest (replaces id request)) run.version mid
        result t run.finished in
    let same : t.versions ≡ mid.versions =
      ap (λ (x : Store). x.versions) wrote ∙ frame mid run.version in
    subst
      (λ versions.
        length (filter_if (λ (row : Version). row.schedule_id == id) versions) ≤ history_limit)
      (sym same) (trim_history-le id _ (subst (Pairs AreKeyed) same keyed))
  where
    frame :
        (mid : Store) (version : ℕ)
        → (insert_receipt owner id request.client_request_id
            (digest (replaces id request))
            version
            mid).versions
          ≡ mid.versions
    frame mid version = unfold insert_receipt in refl
