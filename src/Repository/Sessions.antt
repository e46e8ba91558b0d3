-- ===== src/Repository/Sessions.antt =====
-- src/smartplanner/repository.py: accounts and sessions. The digest of a token, the lower case of an
-- address, the defaults of the table of preferences and the clock are parameters.
pub mod Access
use planer.Prelude.{
  ℕ, ◌+◌, ◌*◌, ◌≡◌, ◌<◌, ◌≤◌, refl, sym, ap, ◌∙◌, String, Bool, true, false, not, ◌&&◌, Option,
  none, some, List, [], ◌∷◌, ◌++◌, arith, inl, inr, any_of, any_of-false, filter_if, find_if,
  find_if-append, str_eq, ltb, leb, ◌==◌, Bool-cases, if◌then◌else◌, All, All-imp, All-filter_test,
}
use planer.Errors.{
  Result, ok, raise, error, raise_if, ◌>>=◌, ◌>>◌, email_unavailable, authentication_required,
}
use planer.Clock.{Instant, minute}
use planer.Models.Preferences.{PreferenceValues}
use planer.Repository.Preferences.{PreferenceRecord}

-- A row of the users; a view of it is without the hash.
pub record UserView : Type 0 where
  pub id : ℕ
  pub email : String
  pub timezone : String
  pub created_at : Instant

pub record UserRow : Type 0 where
  pub user : UserView
  pub password_hash : String

pub record Session : Type 0 where
  pub token_digest : ℕ
  pub user_id : ℕ
  pub expires_at : Instant

unfoldable pub register :
    (String → String)
    → PreferenceValues
    → String
    → String
    → String
    → ℕ
    → Instant
    → List UserRow
    → List PreferenceRecord
    → Result (UserView × (List UserRow × List PreferenceRecord))
unfolding any_of str_eq
register lower defaults email timezone password_hash id now users preferences = do
  raise_if (any_of (λ row. str_eq (lower row.user.email) (lower email)) users)
      (error 409 email_unavailable)
  let user : UserView = record { id = id; email = email; timezone = timezone; created_at = now }
  ok (
    user,
    (
      users ++ (record { user = user; password_hash = password_hash }) ∷ [],
      preferences
          ++ (record { user_id = id; values = defaults; version = 1; updated_at = now }) ∷ [],
    ),
  )

unfoldable pub account_for_login : (String → String) → String → List UserRow → Option UserRow
unfolding find_if str_eq
account_for_login lower email users = find_if (λ row. str_eq (lower row.user.email) email) users

abbrev pub hour : ℕ
hour = 60 * minute

-- `expires_at <= now()` of a session of the user
abbrev pub is_expired : ℕ → Instant → Session → Bool
is_expired user_id now session = session.user_id == user_id && leb session.expires_at now

unfoldable pub create_session :
    (String → ℕ) → String → ℕ → ℕ → Instant → List Session → List Session
unfolding filter_if
create_session digest token user_id hours now sessions =
    filter_if (λ session. not (is_expired user_id now session)) sessions
    ++ (record { token_digest = digest token; user_id = user_id; expires_at = now + hours * hour })
      ∷ []

-- `s.token_digest = ... AND s.expires_at > now()`
abbrev pub is_open : ℕ → Instant → Session → Bool
is_open digest now session = session.token_digest == digest && ltb now session.expires_at

-- The join finds the user of a session; a digest is the key of its table.
unfoldable pub session_user :
    (String → ℕ) → String → Instant → List Session → List UserRow → Result UserView
unfolding find_if
session_user digest token now sessions users =
    elim (find_if (is_open (digest token) now) sessions) [
      | none ↦ raise (error 401 authentication_required)
      | some session ↦ elim (find_if (λ (row : UserRow). row.user.id == session.user_id) users) [
        | none ↦ raise (error 401 authentication_required)
        | some row ↦ ok row.user
      ]
    ]

unfoldable pub logout : (String → ℕ) → String → List Session → List Session
unfolding filter_if
logout digest token sessions =
    filter_if (λ (session : Session). not (session.token_digest == digest token)) sessions
