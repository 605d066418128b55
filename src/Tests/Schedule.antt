-- ===== src/Tests/Schedule.antt =====
-- The schedules of the DCA contract in a calendar.
use bounties.Prelude.{ℕ, ◌+◌, ◌*◌, ◌<◌, ◌≤◌, ◌≡◌, refl, some, arith, min, ◌⊎◌}
use bounties.Dca.Types.{weekly, daily, monthly}
use bounties.Dca.Time.{
  DateTime, days_in_month, shift_months, get_next_time, get_next_target_time,
  get_total_execution_duration, max_timestamp,
}
use bounties.Dca.Time.Months.{IsDate, shift_months_lem}
use bounties.Dca.Time.Schedule.{next_target_fixed, next_target_ahead, total_duration_fixed}
use bounties.Dca.Time.Monthly.{month_of, get_next_time_monthly, next_target_monthly}
use bounties.Tests.Gregorian.{gregorian}

next_target_fixed_example :
    (n : ℕ) × (get_next_target_time gregorian 1700000000 1690000000 weekly
      ≡ some (1690000000 + 604800 * n))
    × (1700000000 < 1690000000 + 604800 * n)
    × (1690000000 + 604800 * n ≤ 1700000000 + 604800)
next_target_fixed_example =
    next_target_fixed gregorian 1700000000 1690000000 604800 weekly refl (omega arith) (omega arith)
      (omega arith) (omega arith)

next_target_ahead_example :
    (n t : ℕ) × (get_next_target_time gregorian 1690000000 1700000000 daily ≡ some t)
    × (t + 86400 * n ≡ 1700000000 + 86400)
    × (1690000000 + 86400 ≤ t)
    × (t < 1690000000 + 86400 + 86400)
next_target_ahead_example =
    next_target_ahead gregorian 1690000000 1700000000 86400 daily refl (omega arith) (omega arith)
      (omega arith) (omega arith)

total_duration_example :
    get_total_execution_duration gregorian 1700000000 4 weekly ≡ some (4 * 604800)
total_duration_example =
    total_duration_fixed gregorian 1700000000 4 604800 weekly refl (omega arith)

next_target_monthly_example :
    (t p : ℕ) × (get_next_target_time gregorian 1700000000 1690000000 monthly ≡ some t)
    × (1700000000 < t)
    × (get_next_time gregorian p monthly ≡ some t)
    × (1690000000 ≤ p)
    × ((p ≡ 1690000000) ⊎ (p ≤ 1700000000))
next_target_monthly_example =
    next_target_monthly gregorian 1700000000 1690000000 (omega arith) (omega arith)

get_next_time_monthly_example :
    (u : ℕ) × (get_next_time gregorian 1700000000 monthly ≡ some u)
    × (1700000000 < u)
    × (month_of gregorian u ≡ month_of gregorian 1700000000 + 1)
    × ((gregorian.to_date u).day
        ≡ min
            (gregorian.to_date 1700000000).day
            (days_in_month (gregorian.to_date u).year (gregorian.to_date u).month))
    × (u ≤ max_timestamp)
get_next_time_monthly_example = get_next_time_monthly gregorian 1700000000 (omega arith)

abbrev january : DateTime
january = record { year = 2024; month = 1; day = 31; time_of_day = 43200 }

-- From the end of January to that of February.
shift_months_example :
    (d : DateTime) × (shift_months gregorian january 1 ≡ some d)
    × IsDate d
    × (d.year * 12 + d.month ≡ 2024 * 12 + 1 + 1)
    × (d.day ≡ min 31 (days_in_month d.year d.month))
    × (d.time_of_day ≡ 43200)
shift_months_example = shift_months_lem gregorian january 1 refl (omega arith) (omega arith)
