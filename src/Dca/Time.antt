-- ===== src/Dca/Time.antt =====
-- contracts/dca/src/helpers/time.rs. Instants are seconds since the epoch, as the source cuts them
-- down to. chrono's calendar is an interface: its dates, the instants that they stand for, and
-- `with_day`, `with_month` and `with_year`, which give no date where there is none. What chrono and
-- `Timestamp` cannot represent is `none`, a panic of the source.
pub mod Months
pub mod Increments
pub mod Schedule
pub mod Monthly
use bounties.Prelude.{
  ℕ, zero, suc, ◌+◌, ◌-◌, ◌*◌, ◌/◌, ◌%◌, ◌<◌, ◌≤◌, ◌≡◌, Bool, true, false, not, ◌&&◌, ◌||◌, Option,
  none, some, ltb, leb, ◌==◌, if◌then◌else◌,
}
use bounties.Dca.Types.{
  TimeInterval, every_block, every_minute, half_hourly, hourly, half_daily, daily, weekly,
  fortnightly, monthly, custom,
}

-- `DateTime<Utc>`; the time of day is in seconds
pub record DateTime : Type 0 where
  pub year : ℕ
  pub month : ℕ
  pub day : ℕ
  pub time_of_day : ℕ

-- The length of a month, by the rule of the Gregorian calendar.
abbrev pub leap : ℕ → Bool
leap y = (y % 4 == 0) && (not (y % 100 == 0) || (y % 400 == 0))

abbrev pub days_in_month : ℕ → ℕ → ℕ
days_in_month y m =
    if m == 2
    then (if leap y then 29 else 28)
    else if (m == 4) || ((m == 6) || ((m == 9) || (m == 11)))
    then 30
    else 31

abbrev pub is_date : ℕ → ℕ → ℕ → Bool
is_date y m d = (leb 1 m && leb m 12) && (leb 1 d && leb d (days_in_month y m))

-- What an instant from the epoch on reads as: a date that exists, and a time of day.
abbrev pub is_valid : DateTime → Bool
is_valid d = leb 1970 d.year && (is_date d.year d.month d.day && ltb d.time_of_day 86400)

-- The last instant of chrono's last year, 262143, and the last second that a `Timestamp`, a u64 of
-- nanoseconds, holds.
abbrev pub max_instant : ℕ
max_instant = 8210298412799

abbrev pub max_timestamp : ℕ
max_timestamp = 18446744073

-- The instant of 2552-12-01T00:00:00, a round year before `max_timestamp`.
abbrev pub december_2552 : ℕ
december_2552 = 18395078400

pub record Calendar : Type 0 where
  -- `Utc.timestamp_opt(t, 0).unwrap()` and `timestamp()`
  pub to_date : ℕ → DateTime
  pub to_seconds : DateTime → ℕ
  pub with_day : DateTime → ℕ → Option DateTime
  pub with_month : DateTime → ℕ → Option DateTime
  pub with_year : DateTime → ℕ → Option DateTime
  pub to_seconds-to_date : (t : ℕ) → t ≤ max_instant → to_seconds (to_date t) ≡ t
  pub to_date-to_seconds :
      (d : DateTime) → is_valid d ≡ true → d.year ≤ 262143 → to_date (to_seconds d) ≡ d
  pub is_valid-to_date : (t : ℕ) → t ≤ max_instant → is_valid (to_date t) ≡ true
  -- a date in a later month is a later instant
  pub to_seconds_mono :
      (a b : DateTime)
      → is_valid a ≡ true
      → is_valid b ≡ true
      → b.year ≤ 262143
      → a.year * 12 + a.month < b.year * 12 + b.month
      → to_seconds a < to_seconds b
  pub to_date-year : (t : ℕ) → t < december_2552 → (to_date t).year ≤ 2552
  pub to_seconds-representable :
      (d : DateTime) → is_valid d ≡ true → d.year ≤ 2553 → to_seconds d ≤ max_timestamp
  pub with_day_lem :
      (d : DateTime) (n : ℕ)
      → with_day d n ≡ (if is_date d.year d.month n then some (record d { day = n }) else none)
  pub with_month_lem :
      (d : DateTime) (n : ℕ)
      → with_month d n ≡ (if is_date d.year n d.day then some (record d { month = n }) else none)
  pub with_year_lem :
      (d : DateTime) (n : ℕ)
      → with_year d n
        ≡ (if is_date n d.month d.day && leb n 262143 then some (record d { year = n }) else none)

unfoldable pub target_time_elapsed : ℕ → ℕ → Bool
target_time_elapsed current_time target_execution_time = leb target_execution_time current_time

unfoldable pub is_leap_year : ℕ → Bool
is_leap_year year = (year % 4 == 0) && (not (year % 100 == 0) || (year % 400 == 0))

unfoldable pub normalise_day : ℕ → ℕ → ℕ → ℕ
unfolding is_leap_year
normalise_day year month day =
    if leb day 28
    then day
    else if month == 2
    then 28 + (if is_leap_year year then 1 else 0)
    else if (day == 31) && ((month == 4) || ((month == 6) || ((month == 9) || (month == 11))))
    then 30
    else day

infixl 5 ◌>>=◌
abbrev pub ◌>>=◌ : {A B : Type 0} → Option A → (A → Option B) → Option B
none >>= f = none
some a >>= f = f a

-- The largest count of seconds that `Duration::seconds` takes, i64::MAX milliseconds.
abbrev pub max_duration : ℕ
max_duration = 9223372036854775

-- `x as i32` of a positive i64, at which the increments are used: the low 32 bits, of which those
-- from 2^31 on stand for a negative number; `start + duration * x as i32` as an unsigned instant.
unfoldable pub add_increments : ℕ → ℕ → ℕ → Option ℕ
add_increments start duration increments =
    let low = increments % 4294967296 in
    if ltb low 2147483648
    then some (start + duration * low)
    else if leb (duration * (4294967296 - low)) start
    then some (start - duration * (4294967296 - low))
    else none

-- `(current - start).num_seconds().checked_div(duration) + 1` increments after the start: the
-- quotient is truncated towards zero, and there is none by zero. A quotient of -q is followed by
-- 1 - q, whose low 32 bits are those of 2^32 + 1 less those of q.
unfoldable pub add_elapsed : ℕ → ℕ → ℕ → Option ℕ
unfolding add_increments
add_elapsed current start duration =
    if duration == 0
    then none
    else if leb start current
    then add_increments start duration ((current - start) / duration + 1)
    else add_increments start duration (4294967297 - (start - current) / duration % 4294967296)

-- `Timestamp::from_seconds`, whose nanoseconds are a u64.
abbrev pub from_seconds : ℕ → Option ℕ
from_seconds t = if leb t max_timestamp then some t else none

module _ (cal : Calendar) where
  -- The final `unwrap` chain of `shift_months`: `none` is its panic.
  unfoldable pub set_date : DateTime → ℕ → ℕ → ℕ → Option DateTime
  set_date date year month day =
      if leb day 28
      then (do a ← cal.with_day date day; b ← cal.with_month a month; cal.with_year b year)
      else (do
        a ← cal.with_day date 1
        b ← cal.with_month a month
        c ← cal.with_year b year
        cal.with_day c day)

  -- `months` is an i32 that is not negative, as at its only call, and is added to another: a sum
  -- past i32::MAX is a panic. A remainder of 0 is the December of the year before.
  unfoldable pub shift_months : DateTime → ℕ → Option DateTime
  shift_months date months =
      let year = date.year + (date.month + months) / 12 in
      let month = (date.month + months) % 12 in
      if leb 2147483648 (date.month + months)
      then none
      else if ltb month 1
      then set_date date (year - 1) 12 (normalise_day (year - 1) 12 date.day)
      else set_date date year month (normalise_day year month date.day)

  -- In seconds; `none` is a panic. A `Duration` past i64::MAX milliseconds is none. Custom seconds
  -- from 2^63 on, which `as i64` makes negative, are left out, as if they were refused too.
  unfoldable pub get_duration : ℕ → TimeInterval → Option ℕ
  get_duration previous every_block = some 1
  get_duration previous every_minute = some 60
  get_duration previous half_hourly = some 1800
  get_duration previous hourly = some 3600
  get_duration previous half_daily = some 43200
  get_duration previous daily = some 86400
  get_duration previous weekly = some 604800
  get_duration previous fortnightly = some 1209600
  get_duration previous monthly = do
    shifted ← shift_months (cal.to_date previous) 1
    some (cal.to_seconds shifted - previous)
  get_duration previous (custom seconds) = if leb seconds max_duration then some seconds else none

  unfoldable pub get_next_time : ℕ → TimeInterval → Option ℕ
  get_next_time previous interval = do
    duration ← get_duration previous interval
    if leb (previous + duration) max_instant then some (previous + duration) else none

  -- `while next <= current { next = get_next_time(next) }`, on fuel
  unfoldable pub advance : ℕ → ℕ → ℕ → Option ℕ
  advance zero current next = none
  advance (suc fuel) current next =
      let rest = (get_next_time next monthly >>= λ later. advance fuel current later) in
      if leb next current then rest else some next

  unfoldable pub get_next_target_time : ℕ → ℕ → TimeInterval → Option ℕ
  unfolding add_elapsed
  get_next_target_time current start monthly = do
    next ← get_next_time start monthly
    reached ← advance (suc current) current next
    from_seconds reached
  get_next_target_time current start interval = do
    _ ← get_next_time start interval
    duration ← get_duration start interval
    reached ← add_elapsed current start duration
    from_seconds reached

  -- The fold over `0..iterations`: the instant reached, and the sum of the durations.
  total_from : ℕ → ℕ → ℕ → TimeInterval → Option ℕ
  total_from zero start acc interval = some acc
  total_from (suc iterations) start acc interval = get_duration start interval >>= λ duration.
      let rest = total_from iterations (start + duration) (acc + duration) interval in
      if leb (start + duration) max_instant && leb (acc + duration) max_duration then rest else none

  unfoldable pub get_total_execution_duration : ℕ → ℕ → TimeInterval → Option ℕ
  unfolding total_from
  get_total_execution_duration block_time iterations interval =
      total_from iterations block_time 0 interval
