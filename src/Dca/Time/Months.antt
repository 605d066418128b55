-- ===== src/Dca/Time/Months.antt =====
-- `shift_months` of contracts/dca/src/helpers/time.rs finds a date in every month.
use bounties.Prelude.{
  ℕ, ◌+◌, ◌-◌, ◌*◌, ◌/◌, ◌%◌, ◌<◌, ◌≤◌, ◌≡◌, refl, true, false, some, arith, min, ltb, leb,
  Bool-cases, inl, inr,
}
use bounties.Dca.Time.{
  DateTime, Calendar, days_in_month, is_date, normalise_day, set_date, shift_months,
}

abbrev pub IsDate : DateTime → Type 0
IsDate d = is_date d.year d.month d.day ≡ true

leap_cases : (y m : ℕ) → (28 ≤ days_in_month y m) × (days_in_month y m ≤ 31)
leap_cases y m = ground arith

-- For a day of at most 31, normalise_day gives the smaller of the day and the Gregorian length of
-- the month.
pub normalise_day_lem : (y m d : ℕ) → d ≤ 31 → normalise_day y m d ≡ min d (days_in_month y m)
unfolding normalise_day
normalise_day_lem y m d h = ground arith

small_day : (y m n : ℕ) → 1 ≤ m → m ≤ 12 → 1 ≤ n → n ≤ 28 → is_date y m n ≡ true
small_day y m n a b c d = ground (arith, leap_cases y m)

pub date_month : (y m n : ℕ) → is_date y m n ≡ true → (1 ≤ m) × (m ≤ 12) × (1 ≤ n) × (n ≤ 31)
date_month y m n h = ground arith

module _ (cal : Calendar) where
  -- The steps of the chain, each to a date that exists.
  set_day :
      (a : DateTime) (n : ℕ)
      → is_date a.year a.month n ≡ true
      → cal.with_day a n ≡ some (record a { day = n })
  set_day a n h = rw (cal.with_day_lem a n) (rw h refl)

  set_month :
      (a : DateTime) (n : ℕ)
      → is_date a.year n a.day ≡ true
      → cal.with_month a n ≡ some (record a { month = n })
  set_month a n h = rw (cal.with_month_lem a n) (rw h refl)

  set_year :
      (a : DateTime) (n : ℕ)
      → is_date n a.month a.day ≡ true
      → n ≤ 262143
      → cal.with_year a n ≡ some (record a { year = n })
  set_year a n h le =
      let in_range : leb n 262143 ≡ true = ground arith in
      rw (cal.with_year_lem a n) (rw (h, in_range) refl)

  set_date_lem :
      (date : DateTime) (y m d : ℕ)
      → IsDate date
      → is_date y m d ≡ true
      → y ≤ 262143
      → set_date cal date y m d
        ≡ some (record { year = y; month = m; day = d; time_of_day = date.time_of_day })
  unfolding set_date
  set_date_lem date y m d v w le =
      let r = date_month date.year date.month date.day v in
      let q = date_month y m d w in
      elim (Bool-cases (leb d 28)) [
        | inl low ↦ rw (
          low,
          set_day date d (small_day date.year date.month d r.0 r.1 q.2 (ground arith)),
          set_month (record date { day = d }) m
              (small_day date.year m d q.0 q.1 q.2 (ground arith)),
          set_year (record date { day = d; month = m }) y w le,
        )
        | inr high ↦ rw (
          high,
          set_day date 1 (small_day date.year date.month 1 r.0 r.1 (omega arith) (omega arith)),
          set_month (record date { day = 1 }) m
              (small_day date.year m 1 q.0 q.1 (omega arith) (omega arith)),
          set_year (record date { day = 1; month = m }) y
              (small_day y m 1 q.0 q.1 (omega arith) (omega arith)) le,
          set_day (record date { day = 1; month = m; year = y }) d w,
        )
      ]

  normal_is_date :
      (y m d : ℕ) → 1 ≤ m → m ≤ 12 → 1 ≤ d → d ≤ 31 → is_date y m (normalise_day y m d) ≡ true
  normal_is_date y m d a b c h = rw (normalise_day_lem y m d h) (ground (arith, leap_cases y m))

  -- Shifting a date that exists by a number of months never panics when the month number and the
  -- months add up to an i32 and the shifted date is not after the year 262143. It gives a date
  -- that exists, that many months later, at the same time of day, on the same day of the month or
  -- on the last day of a shorter one.
  pub shift_months_lem :
      (date : DateTime) (months : ℕ)
      → IsDate date
      → date.month + months < 2147483648
      → date.year * 12 + date.month + months < 3145728
      → (d : DateTime) × (shift_months cal date months ≡ some d)
        × IsDate d
        × (d.year * 12 + d.month ≡ date.year * 12 + date.month + months)
        × (d.day ≡ min date.day (days_in_month d.year d.month))
        × (d.time_of_day ≡ date.time_of_day)
  unfolding shift_months
  shift_months_lem date months v small near =
      let fits : leb 2147483648 (date.month + months) ≡ false = ground arith in
      let r = date_month date.year date.month date.day v in
      elim (Bool-cases (ltb ((date.month + months) % 12) 1)) [
        | inl december ↦
            let y = date.year + (date.month + months) / 12 - 1 in
            let w = normal_is_date y 12 date.day (omega arith) (omega arith) r.2 r.3 in
            (
              record {
                year = y;
                month = 12;
                day = normalise_day y 12 date.day;
                time_of_day = date.time_of_day;
              },
              rw (fits, december)
                  (set_date_lem date y 12 (normalise_day y 12 date.day) v w (ground arith)),
              w,
              ground arith,
              normalise_day_lem y 12 date.day r.3,
              refl,
            )
        | inr earlier ↦
            let y = date.year + (date.month + months) / 12 in
            let m = (date.month + months) % 12 in
            let w = normal_is_date y m date.day (ground arith) (omega arith) r.2 r.3 in
            (
              record {
                year = y;
                month = m;
                day = normalise_day y m date.day;
                time_of_day = date.time_of_day;
              },
              rw (fits, earlier)
                  (set_date_lem date y m (normalise_day y m date.day) v w (ground arith)),
              w,
              omega arith,
              normalise_day_lem y m date.day r.3,
              refl,
            )
      ]
