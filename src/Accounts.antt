-- ===== src/Accounts.antt =====
-- src/smartplanner/accounts.py: `AuthLimiter`. Time is the monotonic clock in microseconds, which
-- is a parameter, and a client is a number; the lock makes a call of `check` one step. Passwords
-- and digests are the work of libraries.
pub mod Limits
mod Tests
use planer.Prelude.{
  ℕ, ◌+◌, Bool, true, false, not, ◌&&◌, ◌||◌, Option, none, some, List, [], ◌∷◌, length, filter_if,
  ltb, leb, ◌==◌, if◌then◌else◌,
}
use planer.Errors.{Result, raise, ok, error, raise_if, ◌>>=◌, ◌>>◌, auth_rate_limit}
use planer.Clock.{Instant, minute}

-- `client: (start, count)` of the dictionary
pub record Attempts : Type 0 where
  pub client : ℕ
  pub start : Instant
  pub count : ℕ

pub record AuthLimiter : Type 0 where
  pub limit : ℕ
  pub entries : List Attempts

abbrev pub max_clients : ℕ
max_clients = 4096

-- `value[0] > now - 60`
unfoldable pub is_recent : Instant → Attempts → Bool
is_recent now entry = ltb now (entry.start + minute)

unfoldable pub find_client : ℕ → List Attempts → Option Attempts
find_client client [] = none
find_client client (entry ∷ rest) =
    if entry.client == client then some entry else find_client client rest

-- `self.entries[client] = entry`, where the client has an entry
unfoldable pub set_client : Attempts → List Attempts → List Attempts
set_client new [] = []
set_client new (entry ∷ rest) =
    if entry.client == new.client then new ∷ rest else entry ∷ set_client new rest

-- The entries of the last minute are kept also where the call raises.
unfoldable pub check : ℕ → Instant → AuthLimiter → Result (Unit {0}) × AuthLimiter
unfolding is_recent find_client set_client filter_if
check client now limiter =
    let recent = filter_if (is_recent now) limiter.entries in
    elim (find_client client recent) [
      | none ↦
          if leb limiter.limit 0 || leb max_clients (length recent)
          then (raise (error 429 auth_rate_limit), record limiter { entries = recent })
          else (
            ok tt,
            record limiter {
              entries = record { client = client; start = now; count = 1 } ∷ recent;
            },
          )
      | some entry ↦
          if leb limiter.limit entry.count
          then (raise (error 429 auth_rate_limit), record limiter { entries = recent })
          else (
            ok tt,
            record limiter {
              entries = set_client (record entry { count = entry.count + 1 }) recent;
            },
          )
    ]
