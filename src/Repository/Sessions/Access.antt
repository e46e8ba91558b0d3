-- ===== src/Repository/Sessions/Access.antt =====
-- How long a session lets its user in.
use planer.Prelude.{
  ℕ, ◌+◌, ◌*◌, ◌≡◌, ◌≤◌, ◌∙◌, refl, String, Bool, true, false, not, none, some, List, [], ◌∷◌, ◌++◌,
  arith, inl, inr, any_of, any_of-false, filter_if, find_if, find_if-append, find_if-none, ltb,
  ◌==◌, Bool-cases, if◌then◌else◌, All, All-imp, All-append, All-filter_if, All-filter_test,
}
use planer.Errors.{Result, ok, raise, error, authentication_required}
use planer.Clock.{Instant}
use planer.Repository.Sessions.{
  UserView, UserRow, Session, hour, is_expired, create_session, is_open, session_user, logout,
}

-- No session of the table has the digest.
abbrev pub IsFree : ℕ → List Session → Type 0
IsFree digest sessions =
    any_of (λ (session : Session). session.token_digest == digest) sessions ≡ false

abbrev pub denied : Result UserView
denied = raise (error 401 authentication_required)

module _ (digest : String → ℕ) (token : String) (later : Instant) (users : List UserRow) where
  abbrev IsOther : Session → Type 0
  IsOther session = (session.token_digest == digest token) ≡ false

  -- Where no session has the digest, none is open.
  none_open :
      (sessions : List Session)
      → All IsOther sessions
      → find_if (is_open (digest token) later) sessions ≡ none
  none_open sessions h = find_if-none (is_open (digest token) later) sessions (
      All-imp IsOther (λ s. is_open (digest token) later s ≡ false) (λ s e. ground arith) sessions
        h)

  all_denied :
      (sessions : List Session)
      → find_if (is_open (digest token) later) sessions ≡ none
      → session_user digest token later sessions users ≡ denied
  unfolding session_user
  all_denied sessions e = rw (e, session_user) refl

  logged_out :
      (sessions : List Session)
      → session_user digest token later (logout digest token sessions) users ≡ denied
  unfolding logout
  logged_out sessions =
      let kept = filter_if (λ (s : Session). not (s.token_digest == digest token)) sessions in
      all_denied kept (
        none_open kept (
          All-imp (λ (s : Session). not (s.token_digest == digest token) ≡ true) IsOther
            (λ s e. ground arith) kept
            (All-filter_test (λ (s : Session). not (s.token_digest == digest token)) sessions)))

  abbrev new_session : ℕ → ℕ → Instant → Session
  new_session id hours now = record {
    token_digest = digest token;
    user_id = id;
    expires_at = now + hours * hour;
  }

  module _ (id hours : ℕ) (now : Instant) (sessions : List Session) (row : UserRow)
      (free : IsFree (digest token) sessions)
      (known : find_if (λ (row : UserRow). row.user.id == id) users ≡ some row) where
    abbrev kept_sessions : List Session
    kept_sessions = filter_if (λ session. not (is_expired id now session)) sessions

    others : All IsOther kept_sessions
    others =
        All-filter_if IsOther (λ session. not (is_expired id now session)) sessions
          ((any_of-false (λ (s : Session). s.token_digest == digest token) sessions).0 free)

    lets_in :
        session_user digest token later (create_session digest token id hours now sessions) users
        ≡ (if ltb later (now + hours * hour) then ok row.user else denied)
    unfolding create_session session_user
    lets_in = elim (Bool-cases (ltb later (now + hours * hour))) [
      | inl e ↦
          rw
            (
              find_if-append (is_open (digest token) later) kept_sessions (new_session id hours now)
                  (none_open kept_sessions others) (open_now e),
              session_user,
              known,
              e,
            )
            refl
      | inr e ↦
          rw
            (
              find_if-none (is_open (digest token) later)
                  (kept_sessions ++ new_session id hours now ∷ [])
                  (All-append (λ s. is_open (digest token) later s ≡ false) kept_sessions
                    (new_session id hours now ∷ [])
                    (All-imp IsOther (λ s. is_open (digest token) later s ≡ false)
                      (λ s k. ground arith) kept_sessions others)
                    (closed_now e, tt)),
              session_user,
              e,
            )
            refl
    ]
      where
        open_now :
            ltb later (now + hours * hour) ≡ true
            → is_open (digest token) later (new_session id hours now) ≡ true
        open_now e = ground arith

        closed_now :
            ltb later (now + hours * hour) ≡ false
            → is_open (digest token) later (new_session id hours now) ≡ false
        closed_now e = ground arith

-- The sessions that are not open are of no account: without some of them, or with one more, the same
-- one is found.
find_if-filter_if {ℓ} :
    {A : Type ℓ} (test kept : A → Bool)
    → ((x : A) → kept x ≡ false → test x ≡ false)
    → (xs : List A) → find_if test (filter_if kept xs) ≡ find_if test xs
unfolding find_if filter_if
find_if-filter_if test kept drops [] = refl
find_if-filter_if test kept drops (x ∷ xs) = elim (Bool-cases (kept x)) [
  | inl e ↦ rw (e, find_if-filter_if test kept drops xs) refl
  | inr e ↦ rw (e, drops x e) (find_if-filter_if test kept drops xs)
]

find_if-snoc {ℓ} :
    {A : Type ℓ} (test : A → Bool) (xs : List A) (x : A)
    → test x ≡ false
    → find_if test (xs ++ x ∷ []) ≡ find_if test xs
unfolding find_if
find_if-snoc test [] x e = rw e refl
find_if-snoc test (y ∷ ys) x e = rw (find_if-snoc test ys x e) refl

module _ (digest : String → ℕ) (token other : String) (later : Instant) (users : List UserRow)
    (sessions : List Session) (differs : (digest other == digest token) ≡ false) where
  same_found :
      (found : List Session)
      → find_if (is_open (digest other) later) found
        ≡ find_if (is_open (digest other) later) sessions
      → session_user digest other later found users ≡ session_user digest other later sessions users
  unfolding session_user
  same_found found e = rw (e, session_user) refl

  logout_keeps :
      session_user digest other later (logout digest token sessions) users
      ≡ session_user digest other later sessions users
  unfolding logout
  logout_keeps =
      same_found (filter_if (λ (s : Session). not (s.token_digest == digest token)) sessions) (
        find_if-filter_if (is_open (digest other) later)
          (λ (s : Session). not (s.token_digest == digest token)) (λ s e. ground arith) sessions)

  create_keeps :
      (id hours : ℕ) (now : Instant)
      → now ≤ later
      → session_user digest other later (create_session digest token id hours now sessions) users
        ≡ session_user digest other later sessions users
  unfolding create_session
  create_keeps id hours now after =
      let kept = filter_if (λ session. not (is_expired id now session)) sessions in
      same_found (kept ++ new_session digest token later users id hours now ∷ []) (
        find_if-snoc (is_open (digest other) later) kept _ (ground arith)
        ∙ find_if-filter_if (is_open (digest other) later)
            (λ session. not (is_expired id now session)) (λ s e. ground arith) sessions)

-- A session that is made with a new token lets its user in until its hours are over, and then no
-- more; and from then on each token of another digest is answered as it would have been without it,
-- so that no session is ended that was still open. A logout, whatever sessions there are, ends
-- those of its token at once, and each token of another digest is answered as before.
pub session_user_lem :
    (digest : String → ℕ) (token other : String) (later : Instant) (users : List UserRow)
    (id hours : ℕ) (now : Instant) (sessions : List Session) (row : UserRow)
    → IsFree (digest token) sessions
    → find_if (λ (row : UserRow). row.user.id == id) users ≡ some row
    → now ≤ later
    → (digest other == digest token) ≡ false
    → let made = create_session digest token id hours now sessions in
      (session_user digest token later made users
        ≡ (if ltb later (now + hours * hour) then ok row.user else denied))
      × (session_user digest other later made users
          ≡ session_user digest other later sessions users)
      × ((table : List Session)
          → (session_user digest token later (logout digest token table) users ≡ denied)
            × (session_user digest other later (logout digest token table) users
                ≡ session_user digest other later table users))
session_user_lem digest token other later users id hours now sessions row free known after differs =
    (
      lets_in digest token later users id hours now sessions row free known,
      create_keeps digest token other later users sessions differs id hours now after,
      λ table. (
        logged_out digest token later users table,
        logout_keeps digest token other later users table differs,
      ),
    )
