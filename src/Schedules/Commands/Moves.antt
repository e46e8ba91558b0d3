-- ===== src/Schedules/Commands/Moves.antt =====
-- The tables that each command writes, from consistent ones.
use planer.Prelude.{
  ℕ, ◌≡◌, ◌≢◌, ◌<◌, ◌⊎◌, inl, inr, refl, sym, ap, ◌∙◌, subst, Bool, true, false, some, List, [],
  ◌∷◌, ◌++◌, arith, max, ◌==◌, All, All-imp, All-append, All-filter_if, All-In, All-In_at, All-both,
  All-updated, In, Pairs, Pairs-snoc, Pairs-filter_if, Pairs-update_if, HasKey, HasKey-same, any_of,
  filter_if, update_if, find_if, find_if-In, find_if-test, Pairs-In, Pairs-imp,
}
use planer.Errors.{ok}
use planer.Clock.{Instant}
use planer.Schedules.{SavedState}
use planer.Schedules.Store.{
  Schedule, Version, Store, Header, header, is_schedule, is_taken, block_ids, set_allocations,
}
use planer.Schedules.Commands.Versions.{header_lem}
use planer.Schedules.Commands.Histories.{AreKeyed}
use planer.Schedules.Commands.Consistent.{
  AreApart, AreConsistent, IsConsistent, IsWithin, set_allocations-once,
}
use planer.Schedules.Commands.Covered.{
  IsMoved, IsBelow, IsWritten, Writes, written-timed, written-within,
}

-- No schedule has the identifier, and no version is of such a schedule.
abbrev pub IsNew : ℕ → Store → Type 0
IsNew id s =
    All (λ (schedule : Schedule). schedule.id ≢ id) s.schedules
    × All (λ (row : Version). row.schedule_id ≢ id) s.versions

pub Writes-AreConsistent :
    (owner id version revision : ℕ) (state : SavedState) (s : Store) (schedules : List Schedule)
    (versions : List Version)
    → Writes owner id version revision state s schedules versions
    → IsConsistent s
    → Pairs AreApart schedules
    → any_of (is_taken owner id (block_ids state)) s.allocations ≡ false
    → AreConsistent schedules versions (set_allocations owner id (block_ids state) s).allocations
Writes-AreConsistent owner id version revision state s schedules versions w h apart free = record {
  apart = apart;
  once = set_allocations-once owner id (block_ids state) s free h.once;
  timed = written-timed owner id version revision state s schedules versions w h;
  within = written-within owner id version revision state s schedules versions w h;
  schedule_keys = w.schedule_keys;
  version_keys = w.version_keys;
}

-- A new schedule and its first version.
module _ (owner id : ℕ) (state : SavedState) (s : Store) (schedule : Schedule) (row : Version)
    (is : schedule.id ≡ id) (its : schedule.user_id ≡ owner) (at : schedule.current_revision ≡ 1)
    (first : schedule.version ≡ 1) (of : row.schedule_id ≡ id) (number : row.revision ≡ 1)
    (same : row.state ≡ state) (fresh : IsNew id s) (h : IsConsistent s) where
  pub created-Writes :
      Writes owner id 1 1 state s (s.schedules ++ schedule ∷ []) (s.versions ++ row ∷ [])
  created-Writes = record {
    moved =
        All-append (IsMoved owner id 1 1 state s) s.schedules (schedule ∷ [])
          (All-both (λ (x : Schedule). x.id ≢ id) (In s.schedules) (IsMoved owner id 1 1 state s)
            (λ x differs member. inl (differs, member)) s.schedules fresh.0 (All-In s.schedules))
          (inr (is, its, at, first), tt);
    kept =
        All-append (λ x. In s.versions x ⊎ (x.schedule_id ≡ id)) s.versions (row ∷ [])
          (All-imp (In s.versions) (λ x. In s.versions x ⊎ (x.schedule_id ≡ id))
            (λ x member. inl member) s.versions (All-In s.versions))
          (inr of, tt);
    below =
        All-append (IsBelow owner id 1 1 state s) s.versions (row ∷ [])
          (All-imp (λ (x : Version). x.schedule_id ≢ id) (IsBelow owner id 1 1 state s)
            (λ x differs e. absurd (differs e)) s.versions fresh.1)
          (λ e. omega (arith, number), tt);
    written =
        All-append (IsWritten owner id 1 1 state s) s.versions (row ∷ [])
          (All-imp (λ (x : Version). x.schedule_id ≢ id) (IsWritten owner id 1 1 state s)
            (λ x differs e. absurd (differs e)) s.versions fresh.1)
          (λ e k. same, tt);
    schedule_keys =
        Pairs-snoc (λ (a b : Schedule). a.id ≢ b.id) s.schedules schedule h.schedule_keys
          (All-imp (λ (x : Schedule). x.id ≢ id) (λ x. x.id ≢ schedule.id)
            (λ x differs e. differs (e ∙ is)) s.schedules fresh.0);
    version_keys = Pairs-snoc AreKeyed s.versions row h.version_keys (
        All-imp (λ (x : Version). x.schedule_id ≢ id) (λ x. AreKeyed x row)
          (λ x differs e. absurd (differs (e ∙ of))) s.versions fresh.1);
  }

differ_lem : {n m : ℕ} → (m == n) ≡ false → n ≡ m → ⊥
differ_lem h e = ground arith

older_differs : {n m k : ℕ} → n < k → m ≡ k → (m == n) ≡ false
older_differs h e = ground arith

-- A schedule that is there goes to its next version.
module _ (owner id version revision : ℕ) (now : Instant) (s : Store) (row : Header)
    (headed : header owner id s ≡ ok row) (next : row.version < version) (h : IsConsistent s) where
  abbrev move : Schedule → Schedule
  move schedule = record schedule {
    version = version;
    current_revision = revision;
    updated_at = max now schedule.updated_at;
  }

  abbrev pub moved_schedules : List Schedule
  moved_schedules = update_if (is_schedule owner id) move s.schedules

  found : find_if (is_schedule owner id) s.schedules ≡ some row.schedule
  found = (header_lem owner id s row headed).schedule

  found_id : row.schedule.id ≡ id
  found_id =
      let test = find_if-test (is_schedule owner id) s.schedules row.schedule found in ground arith

  moved_all : (state : SavedState) → All (IsMoved owner id version revision state s) moved_schedules
  moved_all state =
      All-updated (In s.schedules) (IsMoved owner id version revision state s)
        (is_schedule owner id) move (λ x member k. inr (ground arith, ground arith, refl, refl))
        (λ x member k. inl (λ e. not_other x member k e, member)) s.schedules (All-In s.schedules)
    where
      not_other : (x : Schedule) → In s.schedules x → is_schedule owner id x ≡ false → x.id ≢ id
      not_other x member k e =
          let same =
            HasKey-same (λ (x : Schedule). x.id) s.schedules x row.schedule h.schedule_keys member
              (find_if-In (is_schedule owner id) s.schedules row.schedule found)
              (e ∙ sym found_id) in
          let test =
            subst (λ (y : Schedule). is_schedule owner id y ≡ true) (sym same)
              (find_if-test (is_schedule owner id) s.schedules row.schedule found) in
          ground arith

  moved_keys : HasKey (λ (x : Schedule). x.id) moved_schedules
  moved_keys =
      Pairs-update_if (λ (a b : Schedule). a.id ≢ b.id) (is_schedule owner id) move
        (λ x y differs. differs) (λ x y differs. differs) s.schedules h.schedule_keys

  pub moved_apart : Pairs AreApart moved_schedules
  moved_apart =
      Pairs-update_if AreApart (is_schedule owner id) move (λ x y apart. apart) (λ x y apart. apart)
        s.schedules h.apart

  -- All its versions are older.
  older : All (λ (x : Version). x.schedule_id ≡ id → x.revision < version) s.versions
  older =
      All-imp (IsWithin row.schedule) (λ x. x.schedule_id ≡ id → x.revision < version)
        (λ x below e. omega (arith, below (e ∙ sym found_id), next)) s.versions
        (All-In_at (λ (x : Schedule). All (IsWithin x) s.versions) s.schedules row.schedule h.within
          (find_if-In (is_schedule owner id) s.schedules row.schedule found))

  pub travelled-Writes :
      (target : Version)
      → In s.versions target
      → target.schedule_id ≡ id
      → target.revision ≡ revision
      → Writes owner id version revision target.state s moved_schedules s.versions
  travelled-Writes target member of at = record {
    moved = moved_all target.state;
    kept =
        All-imp (In s.versions) (λ x. In s.versions x ⊎ (x.schedule_id ≡ id)) (λ x k. inl k)
          s.versions (All-In s.versions);
    below =
        All-imp (λ x. x.schedule_id ≡ id → x.revision < version)
          (IsBelow owner id version revision target.state s) (λ x less e. omega (arith, less e))
          s.versions older;
    written =
        All-imp (In s.versions) (IsWritten owner id version revision target.state s)
          (λ x x_in e k.
            ap (λ (x : Version). x.state) (same_version x x_in (e ∙ sym of) (k ∙ sym at)))
          s.versions (All-In s.versions);
    schedule_keys = moved_keys;
    version_keys = h.version_keys;
  }
    where
      same_version :
          (x : Version)
          → In s.versions x
          → x.schedule_id ≡ target.schedule_id
          → x.revision ≡ target.revision
          → x ≡ target
      same_version x x_in =
          Pairs-In
            (λ (x y : Version). x.schedule_id ≡ y.schedule_id → x.revision ≡ y.revision → x ≡ y)
            (λ x y f e k. sym (f (sym e) (sym k))) (λ x e k. refl) s.versions x target
            (Pairs-imp (In s.versions) AreKeyed
              (λ (x y : Version). x.schedule_id ≡ y.schedule_id → x.revision ≡ y.revision → x ≡ y)
              (λ x y a b differ e k. absurd (differ_lem (differ e) k)) s.versions
              (All-In s.versions) h.version_keys)
            x_in member

module _ (owner id version : ℕ) (now : Instant) (s : Store) (row : Header)
    (headed : header owner id s ≡ ok row) (next : row.version < version) (h : IsConsistent s)
    (state : SavedState) (new : Version) (of : new.schedule_id ≡ id)
    (number : new.revision ≡ version) (same : new.state ≡ state)
    (dropped kept : Version → Bool) where
  abbrev new_versions : List Version
  new_versions = filter_if kept (filter_if dropped s.versions ++ new ∷ [])

  -- What holds of the versions that were there and of the new one
  each_version :
      (P : Version → Type 0)
      → ((x : Version) → In s.versions x → (x.schedule_id ≡ id → x.revision < version) → P x)
      → P new
      → All P new_versions
  each_version P old mine = All-filter_if P kept (filter_if dropped s.versions ++ new ∷ []) (
      All-append P (filter_if dropped s.versions) (new ∷ [])
        (All-filter_if P dropped s.versions (
          All-both (In s.versions) (λ x. x.schedule_id ≡ id → x.revision < version) P old s.versions
            (All-In s.versions) (older owner id version version now s row headed next h)))
        (mine, tt))

  pub replaced-Writes :
      Writes owner id version version state s
        (moved_schedules owner id version version now s row headed next h)
        new_versions
  replaced-Writes = record {
    moved = moved_all owner id version version now s row headed next h state;
    kept =
        each_version (λ x. In s.versions x ⊎ (x.schedule_id ≡ id)) (λ x member less. inl member)
          (inr of);
    below =
        each_version (IsBelow owner id version version state s)
          (λ x member less e. omega (arith, less e)) (λ e. omega (arith, number));
    written =
        each_version (IsWritten owner id version version state s)
          (λ x member less e k. absurd (omega (arith, less e, k))) (λ e k. same);
    schedule_keys = moved_keys owner id version version now s row headed next h;
    version_keys = Pairs-filter_if AreKeyed kept (filter_if dropped s.versions ++ new ∷ []) (
        Pairs-snoc AreKeyed (filter_if dropped s.versions) new
          (Pairs-filter_if AreKeyed dropped s.versions h.version_keys)
          (All-filter_if (λ x. AreKeyed x new) dropped s.versions
            (All-imp (λ x. x.schedule_id ≡ id → x.revision < version) (λ x. AreKeyed x new)
              (λ x less e. older_differs (less (e ∙ of)) number) s.versions
              (older owner id version version now s row headed next h))));
  }
