-- ===== src/Accounts/Limits.antt =====
-- `AuthLimiter.check` keeps the table small and the counts within the limit.
use planer.Prelude.{
  Option-cases, ℕ, ◌+◌, ◌≤◌, ◌≡◌, refl, inl, inr, Bool, ◌||◌, List, [], ◌∷◌, arith, length,
  filter_if, All, All-filter_if, leb, ◌==◌, Bool-cases,
}
use planer.Clock.{Instant}
use planer.Accounts.{Attempts, AuthLimiter, max_clients, is_recent, find_client, set_client, check}

-- At most 4096 clients, none with more attempts than the limit.
pub record IsBounded (limiter : AuthLimiter) : Type 0 where
  pub clients : length limiter.entries ≤ max_clients
  pub counts : All (λ (entry : Attempts). entry.count ≤ limiter.limit) limiter.entries

length-filter_if :
    {A : Type 0} (test : A → Bool) (xs : List A) → length (filter_if test xs) ≤ length xs
unfolding filter_if
length-filter_if test [] = omega arith
length-filter_if test (x ∷ xs) = ground (arith, length-filter_if test xs)

length-set_client :
    (new : Attempts) (entries : List Attempts) → length (set_client new entries) ≡ length entries
unfolding set_client
length-set_client new [] = refl
length-set_client new (entry ∷ rest) = ground (arith, length-set_client new rest)

All-set_client :
    (P : Attempts → Type 0) (new : Attempts) (entries : List Attempts)
    → P new
    → All P entries
    → All P (set_client new entries)
unfolding set_client
All-set_client P new [] p h = tt
All-set_client P new (entry ∷ rest) p h = elim (Bool-cases (entry.client == new.client)) [
  | inl e ↦ rw e (p, h.1)
  | inr e ↦ rw e (h.0, All-set_client P new rest p h.1)
]

-- Every call of `check`, whether it lets the client through or not, keeps at most 4096 clients in
-- the table, and no client has more attempts than the limit.
pub check-IsBounded :
    (client : ℕ) (now : Instant) (limiter : AuthLimiter)
    → IsBounded limiter
    → IsBounded (check client now limiter).1
unfolding check
check-IsBounded client now limiter h =
    let recent = filter_if (is_recent now) limiter.entries in
    let few : length recent ≤ max_clients =
      omega (arith, length-filter_if (is_recent now) limiter.entries, h.clients) in
    let low =
      All-filter_if (λ (entry : Attempts). entry.count ≤ limiter.limit) (is_recent now)
        limiter.entries h.counts in
    elim (Option-cases (find_client client recent)) [
      | inl e ↦ elim (Bool-cases (leb limiter.limit 0 || leb max_clients (length recent))) [
        | inl k ↦ rw (e, check, k) (record { clients = few; counts = low })
        | inr k ↦
            rw (e, check, k)
              (record { clients = ground (arith, k); counts = (ground (arith, k), low) })
      ]
      | inr (entry, e) ↦ elim (Bool-cases (leb limiter.limit entry.count)) [
        | inl k ↦ rw (e, check, k) (record { clients = few; counts = low })
        | inr k ↦
            rw (e, check, k)
              (record {
                clients = omega (
                  arith,
                  few,
                  length-set_client (record entry { count = entry.count + 1 }) recent,
                );
                counts =
                    All-set_client (λ (entry : Attempts). entry.count ≤ limiter.limit)
                      (record entry { count = entry.count + 1 }) recent (ground (arith, k)) low;
              })
      ]
    ]
