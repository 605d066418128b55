-- ===== src/Tests/Gregorian.antt =====
-- A calendar that has the behaviour of chrono's that contracts/dca/src/helpers/time.rs relies on:
-- the months since 1970 one after the other, each with the seconds of its days.
use bounties.Prelude.{
  ℕ, zero, suc, ◌+◌, ◌-◌, ◌*◌, ◌/◌, ◌%◌, ◌<◌, ◌≤◌, ◌≡◌, refl, ap, ◌∙◌, true, none, some, arith, ltb,
  leb, ◌&&◌, if◌then◌else◌, Bool-cases, inl, inr,
}
use bounties.Dca.Time.{
  DateTime, Calendar, days_in_month, is_date, is_valid, december_2552, max_timestamp,
}

unfoldable days_of : ℕ → ℕ
days_of k = days_in_month (1970 + k / 12) (k % 12 + 1)

days_of_bounds : (k : ℕ) → (1 ≤ days_of k) × (days_of k ≤ 31)
unfolding days_of
days_of_bounds k = ground arith

abbrev month_length : ℕ → ℕ
month_length k = days_of k * 86400

abbrev start : ℕ → ℕ
start zero = 0
start (suc k) = start k + month_length k

-- The month of an instant, and the seconds into it.
locate : ℕ → ℕ → ℕ → ℕ × ℕ
locate zero k t = (k, t)
locate (suc fuel) k t =
    let rest = locate fuel (suc k) (t - month_length k) in
    if ltb t (month_length k) then (k, t) else rest

locate_lem :
    (fuel k t : ℕ)
    → t ≤ fuel
    → (start (locate fuel k t).0 + (locate fuel k t).1 ≡ start k + t)
      × ((locate fuel k t).1 < month_length (locate fuel k t).0)
unfolding locate
locate_lem zero k t h = (refl, omega (arith, days_of_bounds k))
locate_lem (suc fuel) k t h = elim (Bool-cases (ltb t (month_length k))) [
  | inl here ↦ (rw here refl, rw here (ground arith))
  | inr later ↦
      let long : month_length k ≤ t = ground arith in
      let (same, within) =
        locate_lem fuel (suc k) (t - month_length k) (omega (arith, days_of_bounds k)) in
      (rw later (same ∙ omega arith), rw later within)
]

start_lt : (k j : ℕ) → j < k → start j + month_length j ≤ start k
start_lt zero j h = omega arith
start_lt (suc k) j h = elim (Bool-cases (ltb j k)) [
  | inl lt ↦ omega (arith, start_lt k j (ground arith))
  | inr ge ↦ let eq : j ≡ k = ground arith in rw eq (omega arith)
]

unique :
    (j k r q : ℕ)
    → start j + r ≡ start k + q
    → r < month_length j
    → q < month_length k
    → (j ≡ k) × (r ≡ q)
unique j k r q e a b = elim (Bool-cases (ltb j k)) [
  | inl lt ↦ omega (arith, start_lt k j (ground arith))
  | inr ge ↦ elim (Bool-cases (ltb k j)) [
    | inl gt ↦ omega (arith, start_lt j k (ground arith))
    | inr le ↦ let eq : j ≡ k = ground arith in (eq, omega (arith, ap start eq))
  ]
]

abbrev date_of : ℕ × ℕ → DateTime
date_of (k, r) = record {
  year = 1970 + k / 12;
  month = k % 12 + 1;
  day = r / 86400 + 1;
  time_of_day = r % 86400;
}

to_date : ℕ → DateTime
to_date t = date_of (locate t 0 t)

abbrev month_index : DateTime → ℕ
month_index d = (d.year - 1970) * 12 + d.month - 1

abbrev offset : DateTime → ℕ
offset d = (d.day - 1) * 86400 + d.time_of_day

to_seconds : DateTime → ℕ
to_seconds d = start (month_index d) + offset d

valid_of : (k r : ℕ) → r < month_length k → is_valid (date_of (k, r)) ≡ true
unfolding days_of
valid_of k r h = ground arith

is_valid-to_date : (t : ℕ) → is_valid (to_date t) ≡ true
unfolding to_date
is_valid-to_date t = valid_of _ _ (locate_lem t 0 t (omega arith)).1

to_seconds_of : (k r t : ℕ) → start k + r ≡ t → to_seconds (date_of (k, r)) ≡ t
unfolding to_seconds
to_seconds_of k r t e =
    let month : (1970 + k / 12 - 1970) * 12 + (k % 12 + 1) - 1 ≡ k = omega arith in
    rw month (omega arith)

to_seconds-to_date : (t : ℕ) → to_seconds (to_date t) ≡ t
unfolding to_date
to_seconds-to_date t = to_seconds_of _ _ t (omega (arith, (locate_lem t 0 t (omega arith)).0))

record Fields (d : DateTime) : Type 0 where
  year : 1970 + month_index d / 12 ≡ d.year
  month : month_index d % 12 + 1 ≡ d.month
  day : offset d / 86400 + 1 ≡ d.day
  time : offset d % 86400 ≡ d.time_of_day
  within : offset d < month_length (month_index d)

fits_in :
    (d : DateTime) (k : ℕ)
    → is_valid d ≡ true
    → 1970 + k / 12 ≡ d.year
    → k % 12 + 1 ≡ d.month
    → offset d < month_length k
unfolding days_of
fits_in d k h y m = rw (y, m) (ground arith)

fields : (d : DateTime) → is_valid d ≡ true → Fields d
fields d h =
    let year : 1970 + month_index d / 12 ≡ d.year = ground arith in
    let month : month_index d % 12 + 1 ≡ d.month = ground arith in
    record {
      year = year;
      month = month;
      day = ground arith;
      time = ground arith;
      within = fits_in d (month_index d) h year month;
    }

same_date : (d : DateTime) → Fields d → date_of (month_index d, offset d) ≡ d
same_date d f = rw (f.year, f.month, f.day, f.time) refl

to_date-to_seconds : (d : DateTime) → is_valid d ≡ true → to_date (to_seconds d) ≡ d
unfolding to_date to_seconds
to_date-to_seconds d h =
    let f = fields d h in
    let t = start (month_index d) + offset d in
    let (same, within) = locate_lem t 0 t (omega arith) in
    let (k, r) = unique _ (month_index d) _ (offset d) (omega (arith, same)) within f.within in
    rw (k, r) (same_date d f)

to_seconds_mono :
    (a b : DateTime)
    → is_valid a ≡ true
    → is_valid b ≡ true
    → a.year * 12 + a.month < b.year * 12 + b.month
    → to_seconds a < to_seconds b
unfolding to_seconds
to_seconds_mono a b h g lt =
    let f = fields a h in
    let earlier : month_index a < month_index b = ground arith in
    omega (arith, start_lt (month_index b) (month_index a) earlier, f.within)

abbrev first_of : ℕ → ℕ → DateTime
first_of y m = record { year = y; month = m; day = 1; time_of_day = 0 }

december : to_seconds (first_of 2552 12) ≡ december_2552
unfolding to_seconds days_of
december = refl

january_2554 : to_seconds (first_of 2554 1) ≡ 18429292800
unfolding to_seconds days_of
january_2554 = refl

to_date-year : (t : ℕ) → t < december_2552 → (to_date t).year ≤ 2552
to_date-year t lt =
    let back = to_seconds-to_date t in
    let valid = is_valid-to_date t in
    let later = to_seconds_mono (first_of 2552 12) (to_date t) refl valid in
    elim (Bool-cases (leb (to_date t).year 2552)) [
      | inl small ↦ ground arith
      | inr large ↦ let far = later (ground arith) in omega (arith, december)
    ]

to_seconds-representable :
    (d : DateTime) → is_valid d ≡ true → d.year ≤ 2553 → to_seconds d ≤ max_timestamp
to_seconds-representable d h le =
    let month : d.month ≤ 12 = ground arith in
    let before = to_seconds_mono d (first_of 2554 1) h refl (omega arith) in
    omega (arith, january_2554)

pub gregorian : Calendar
gregorian = record {
  to_date = to_date;
  to_seconds = to_seconds;
  with_day = λ d n. if is_date d.year d.month n then some (record d { day = n }) else none;
  with_month = λ d n. if is_date d.year n d.day then some (record d { month = n }) else none;
  with_year =
      λ d n. if is_date n d.month d.day && leb n 262143 then some (record d { year = n }) else none;
  to_seconds-to_date = λ t _. to_seconds-to_date t;
  to_date-to_seconds = λ d h _. to_date-to_seconds d h;
  is_valid-to_date = λ t _. is_valid-to_date t;
  to_seconds_mono = λ a b g h _. to_seconds_mono a b g h;
  to_date-year = to_date-year;
  to_seconds-representable = to_seconds-representable;
  with_day_lem = λ d n. refl;
  with_month_lem = λ d n. refl;
  with_year_lem = λ d n. refl;
}
