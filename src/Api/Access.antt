-- ===== src/Api/Access.antt =====
-- Who may use a handler: `current_user`.
use planer.Prelude.{
  ℕ, ◌≡◌, ◌<◌, ◌↔◌, ◌⊎◌, inl, inr, refl, sym, ap, ◌∙◌, subst, String, Bool, true, false, not, ◌&&◌,
  ◌||◌, ◌==◌, List, str_eq, true_of_not, ==_iff, Option-cases, find_if, find_if-In, find_if-test,
  find_if-key, HasKey, In, arith,
}
use planer.Errors.{
  ok, error, raise_if, raise≢ok, returned, ok_injective, raise_if-eq-ok, authentication_required,
  csrf_rejected,
}
use planer.Clock.{Instant}
use planer.Repository.Sessions.{UserView, UserRow, Session, is_open, session_user}
use planer.Api.{
  Method, HttpRequest, changes, has_format, is_token_letter, is_hex_digit, session_token,
  current_user,
}
use planer.Api.Texts.{
  codes, IsTokenLetter, IsHexDigit, IsText, has_format_iff, is_token_letter_iff, is_hex_digit_iff,
  str_eq_iff,
}

-- The keys of the two tables
abbrev pub HasKeys : List Session → List UserRow → Type 0
HasKeys sessions users =
    HasKey (λ (session : Session). session.token_digest) sessions
    × HasKey (λ (row : UserRow). row.user.id) users

-- There is a session of the token that is not over, and it is the user's.
pub record IsSessionOf (digest : ℕ) (now : Instant) (sessions : List Session) (users : List UserRow)
    (user : UserView) : Type 0 where
  pub session : Session
  pub stored : In sessions session
  pub made_for : session.token_digest ≡ digest
  pub running : now < session.expires_at
  pub row : UserRow
  pub known : In users row
  pub owned : row.user.id ≡ session.user_id
  pub same : row.user ≡ user

-- The cookie has the form of a token and belongs to a running session of the user, and a request
-- that changes something carries the token for forms of that session.
pub record IsAllowed (digest : String → ℕ) (csrf_for_token : String → String)
    (request : HttpRequest) (now : Instant) (sessions : List Session) (users : List UserRow)
    (user : UserView) : Type 0 where
  pub token : IsText IsTokenLetter 43 request.session_cookie
  pub session : IsSessionOf (digest request.session_cookie) now sessions users user
  pub form :
      (request.method ≡ Method.other)
      ⊎ (IsText IsHexDigit 64 request.csrf_token
          × (codes request.csrf_token ≡ codes (csrf_for_token request.session_cookie)))

-- What the join finds.
module _ (digest : String → ℕ) (token : String) (now : Instant) (sessions : List Session)
    (users : List UserRow) (user : UserView) where
  session_user-IsSessionOf :
      session_user digest token now sessions users ≡ ok user
      → IsSessionOf (digest token) now sessions users user
  unfolding session_user
  session_user-IsSessionOf e = elim (Option-cases (find_if (is_open (digest token) now) sessions)) [
    | inl none ↦ absurd (raise≢ok _ user (rw (session_user, none) at e))
    | inr (session, found) ↦
        elim (Option-cases (find_if (λ (row : UserRow). row.user.id == session.user_id) users)) [
          | inl none ↦ absurd (raise≢ok _ user (rw (session_user, found, none) at e))
          | inr (row, known) ↦
              let opened = find_if-test (is_open (digest token) now) sessions session found in
              record {
                session = session;
                stored = find_if-In (is_open (digest token) now) sessions session found;
                made_for = ground arith;
                running = ground arith;
                row = row;
                known = find_if-In (λ row. row.user.id == session.user_id) users row known;
                owned =
                    (==_iff row.user.id session.user_id).0
                      (find_if-test (λ row. row.user.id == session.user_id) users row known);
                same = ok_injective (rw (session_user, found, known) at e);
              }
        ]
  ]

  IsSessionOf-session_user :
      HasKeys sessions users
      → IsSessionOf (digest token) now sessions users user
      → session_user digest token now sessions users ≡ ok user
  unfolding session_user
  IsSessionOf-session_user keys h =
      rw
        (
          find_if-key (λ (session : Session). session.token_digest) (digest token)
              (is_open (digest token) now) (λ session e. ground arith) sessions h.session keys.0
              h.stored (opened h.session h.made_for h.running),
          session_user,
          find_if-key (λ (row : UserRow). row.user.id) h.session.user_id
              (λ row. row.user.id == h.session.user_id) (λ row e. ground arith) users h.row keys.1
              h.known ((==_iff h.row.user.id h.session.user_id).1 h.owned),
        )
        (ap ok h.same)
    where
      opened :
          (session : Session)
          → session.token_digest ≡ digest token
          → now < session.expires_at
          → is_open (digest token) now session ≡ true
      opened session e k = ground arith

form_parts :
    (a b c : Bool) → (a && (not b || not c)) ≡ false → (a ≡ false) ⊎ ((b ≡ true) × (c ≡ true))
form_parts false b c h = inl refl
form_parts true true true h = inr (refl, refl)
form_parts true true false h = cc
form_parts true false c h = cc

form_whole :
    (a b c : Bool) → (a ≡ false) ⊎ ((b ≡ true) × (c ≡ true)) → (a && (not b || not c)) ≡ false
form_whole a b c (inl h) = rw h refl
form_whole a b c (inr (h, k)) = ground arith

changes_iff : (method : Method) → (changes method ≡ false) ↔ (method ≡ Method.other)
unfolding changes
changes_iff Method.post = (λ e. cc, λ h. cc)
changes_iff Method.put = (λ e. cc, λ h. cc)
changes_iff Method.patch = (λ e. cc, λ h. cc)
changes_iff Method.delete = (λ e. cc, λ h. cc)
changes_iff Method.other = (λ e. refl, λ h. refl)

module _ (digest : String → ℕ) (csrf_for_token : String → String) (request : HttpRequest)
    (now : Instant) (sessions : List Session) (users : List UserRow) (user : UserView) where
  form_of :
      (token : String)
      → (changes request.method
          && (not (has_format is_hex_digit 64 request.csrf_token)
              || not (str_eq request.csrf_token (csrf_for_token token))))
        ≡ false
      → (request.method ≡ Method.other)
        ⊎ (IsText IsHexDigit 64 request.csrf_token
            × (codes request.csrf_token ≡ codes (csrf_for_token token)))
  form_of token e = elim (form_parts _ _ _ e) [
    | inl h ↦ inl ((changes_iff request.method).0 h)
    | inr (h, k) ↦ inr (
      (has_format_iff is_hex_digit IsHexDigit is_hex_digit_iff 64 request.csrf_token).0 h,
      (str_eq_iff request.csrf_token (csrf_for_token token)).0 k,
    )
  ]

  form_back :
      (request.method ≡ Method.other)
        ⊎ (IsText IsHexDigit 64 request.csrf_token
            × (codes request.csrf_token ≡ codes (csrf_for_token request.session_cookie)))
      → (changes request.method
          && (not (has_format is_hex_digit 64 request.csrf_token)
              || not (str_eq request.csrf_token (csrf_for_token request.session_cookie))))
        ≡ false
  form_back (inl h) = form_whole _ _ _ (inl ((changes_iff request.method).1 h))
  form_back (inr (h, k)) = form_whole _ _ _ (
      inr (
        (has_format_iff is_hex_digit IsHexDigit is_hex_digit_iff 64 request.csrf_token).1 h,
        (str_eq_iff request.csrf_token (csrf_for_token request.session_cookie)).1 k,
      ))

  current_user-IsAllowed :
      current_user digest csrf_for_token request now sessions users ≡ ok user
      → IsAllowed digest csrf_for_token request now sessions users user
  unfolding current_user session_token
  current_user-IsAllowed e =
      let (token, given, e1) = returned (session_token request) _ e in
      let (u, formed, same) =
        returned
          (raise_if (not (has_format is_token_letter 43 request.session_cookie))
            (error 401 authentication_required))
          (λ _. ok request.session_cookie) given in
      let cookie = ok_injective same in
      let (found, session, e2) = returned (session_user digest token now sessions users) _ e1 in
      let (v, passed, e3) =
        returned
          (raise_if
            (changes request.method
              && (not (has_format is_hex_digit 64 request.csrf_token)
                  || not (str_eq request.csrf_token (csrf_for_token token))))
            (error 403 csrf_rejected))
          (λ _. ok found) e2 in
      record {
        token =
            (has_format_iff is_token_letter IsTokenLetter is_token_letter_iff 43
                request.session_cookie).0
              (true_of_not _ (raise_if-eq-ok _ _ u formed));
        session =
            session_user-IsSessionOf digest request.session_cookie now sessions users user
              (ap (λ t. session_user digest t now sessions users) cookie ∙ session ∙ e3);
        form =
            subst
              (λ t.
                (request.method ≡ Method.other)
                ⊎ (IsText IsHexDigit 64 request.csrf_token
                    × (codes request.csrf_token ≡ codes (csrf_for_token t))))
              (sym cookie) (form_of token (raise_if-eq-ok _ _ v passed));
      }

  IsAllowed-current_user :
      HasKeys sessions users
      → IsAllowed digest csrf_for_token request now sessions users user
      → current_user digest csrf_for_token request now sessions users ≡ ok user
  unfolding current_user session_token
  IsAllowed-current_user keys h =
      rw
        (
          (has_format_iff is_token_letter IsTokenLetter is_token_letter_iff 43
                request.session_cookie).1
              h.token,
          IsSessionOf-session_user digest request.session_cookie now sessions users user keys
              h.session,
          form_back h.form,
        )
        refl

-- A handler gets a user exactly if the cookie is 43 letters of the alphabet of tokens, the table
-- has a session with the cookie's digest that is not over and is the user's, and, for a request of
-- a method that changes something, the token for forms is 64 hexadecimal digits and the one that
-- belongs to the cookie. The digests of the sessions and the identifiers of the users are keys.
pub current_user_iff :
    (digest : String → ℕ) (csrf_for_token : String → String) (request : HttpRequest) (now : Instant)
    (sessions : List Session) (users : List UserRow) (user : UserView)
    → HasKeys sessions users
    → (current_user digest csrf_for_token request now sessions users ≡ ok user)
      ↔ IsAllowed digest csrf_for_token request now sessions users user
current_user_iff digest csrf_for_token request now sessions users user keys = (
  current_user-IsAllowed digest csrf_for_token request now sessions users user,
  IsAllowed-current_user digest csrf_for_token request now sessions users user keys,
)
