-- ===== src/Accounts/Tests.antt =====
-- A limiter with one client, and the theorem about it there.
use planer.Prelude.{◌≡◌, refl, [], ◌∷◌, arith}
use planer.Errors.{raise, error, auth_rate_limit}
use planer.Accounts.{AuthLimiter, check}
use planer.Accounts.Limits.{IsBounded, check-IsBounded}

abbrev limiter : AuthLimiter
limiter = record { limit = 2; entries = record { client = 7; start = 100; count = 2 } ∷ [] }

refused : (check 7 500 limiter).0 ≡ raise (error 429 auth_rate_limit)
unfolding check
refused = refl

-- A minute later the client starts again.
let_through :
    (check 7 60_000_100 limiter).1
    ≡ record { limit = 2; entries = record { client = 7; start = 60_000_100; count = 1 } ∷ [] }
unfolding check
let_through = refl

limiter-IsBounded : IsBounded limiter
limiter-IsBounded = record { clients = omega arith; counts = (omega arith, tt) }

check-IsBounded_example : IsBounded (check 7 500 limiter).1
check-IsBounded_example = check-IsBounded 7 500 limiter limiter-IsBounded
