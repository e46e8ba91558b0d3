-- ===== src/Clock.antt =====
-- The part of Python's datetime and zoneinfo that the program uses.
-- An aware datetime is the number of microseconds since 0001-01-01T00:00Z; a date is its ordinal
-- (`date.toordinal`), so that `date + timedelta(days=n)` adds n. A `ZoneInfo` is a parameter.
use planer.Prelude.{
  ℕ, ◌+◌, ◌-◌, ◌*◌, ◌/◌, ◌%◌, ◌≤◌, ◌<◌, ◌≡◌, arith, leb, if◌then◌else◌, ℤ, pos, pos_part, sub_ℕ,
}

abbrev pub Instant : Type 0
Instant = ℕ

abbrev pub Date : Type 0
Date = ℕ

abbrev pub second : ℕ
second = 1_000_000

abbrev pub minute : ℕ
minute = 60_000_000

-- `midnight d` is `datetime.combine(d, time(), zone).astimezone(timezone.utc)`; `local_date t` and
-- `local_hour t` are the date and the hour of `t.astimezone(zone)`.
pub record Zone : Type 0 where
  pub midnight : Date → Instant
  pub local_date : Instant → Date
  pub local_hour : Instant → ℕ

-- zoneinfo's offsets are whole seconds, so a midnight has no microseconds.
pub record HasWholeSeconds (zone : Zone) : Type 0 where
  pub midnight_second : (d : Date) → zone.midnight d % second ≡ 0

-- `t.second`
abbrev pub second_of : Instant → ℕ
second_of t = t / second % 60

-- `int((a - b) / MINUTE)`, which truncates toward zero.
unfoldable pub int_minutes : Instant → Instant → ℤ
int_minutes a b = if leb b a then pos ((a - b) / minute) else sub_ℕ 0 ((b - a) / minute)

-- `max(0, ceil((a - b) / MINUTE))`
abbrev pub ceil_minutes : Instant → Instant → ℕ
ceil_minutes a b = (a - b + (minute - 1)) / minute

-- `max(0, floor((a - b) / MINUTE))`
abbrev pub floor_minutes : Instant → Instant → ℕ
floor_minutes a b = (a - b) / minute

-- Counting whole minutes from `b` is exact on the minute grid of `b`.
pub int_minutes-add : (b n : ℕ) → int_minutes (b + n * minute) b ≡ pos n
unfolding int_minutes
int_minutes-add b n = ground arith

-- Whole minutes and the grid of `b`, read both ways.
pub int_minutes_exact :
    (a b n : ℕ) → a % minute ≡ 0 → b % minute ≡ 0 → int_minutes a b ≡ pos n → a ≡ b + n * minute
unfolding int_minutes
int_minutes_exact a b n p q h = ground arith

pub int_minutes_le :
    (a b n : ℕ)
    → a % minute ≡ 0
    → b % minute ≡ 0
    → pos_part (int_minutes a b) ≤ n
    → a ≤ b + n * minute
unfolding int_minutes
int_minutes_le a b n p q h = ground arith

pub int_minutes_ge : (a b n : ℕ) → 0 < n → n ≤ pos_part (int_minutes a b) → b + n * minute ≤ a
unfolding int_minutes
int_minutes_ge a b n p h = ground arith
