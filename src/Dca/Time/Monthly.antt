-- ===== src/Dca/Time/Monthly.antt =====
-- The monthly loop of contracts/dca/src/helpers/time.rs ends, at an instant after the present.
use bounties.Prelude.{
  ℕ, zero, suc, ◌+◌, ◌-◌, ◌*◌, ◌<◌, ◌≤◌, ◌≡◌, refl, sym, ap, ◌∙◌, Option, none, some, if◌then◌else◌,
  arith, min, leb, Bool-cases, ◌⊎◌, inl, inr, true,
}
use bounties.Dca.Types.{monthly}
use bounties.Dca.Time.{
  DateTime, Calendar, is_valid, days_in_month, get_duration, get_next_time, advance,
  get_next_target_time, ◌>>=◌, december_2552, max_timestamp, from_seconds, max_instant,
}
use bounties.Dca.Time.Months.{IsDate, date_month, shift_months_lem}

-- The months from the year 0 to an instant.
abbrev pub month_of : Calendar → ℕ → ℕ
month_of cal t = (cal.to_date t).year * 12 + (cal.to_date t).month

is_valid-IsDate : (d : DateTime) → is_valid d ≡ true → IsDate d
is_valid-IsDate d h = ground arith

later_is_valid :
    (a d : DateTime)
    → is_valid a ≡ true
    → IsDate d
    → a.year * 12 + a.month ≤ d.year * 12 + d.month
    → d.time_of_day ≡ a.time_of_day
    → is_valid d ≡ true
later_is_valid a d h v le time = ground arith

sum_of_gap :
    (t u : ℕ)
    → t ≤ u
    → u ≤ max_timestamp
    → (if leb (t + (u - t)) max_instant then some (t + (u - t)) else none) ≡ some u
sum_of_gap t u le held = let whole : t + (u - t) ≡ u = omega arith in rw whole (ground arith)

-- The loop gives what lies ahead, whenever it ends.
pub advance_ahead :
    (cal : Calendar) (fuel current next t : ℕ)
    → advance cal fuel current next ≡ some t
    → current < t
unfolding advance
advance_ahead cal zero current next t h = cc
advance_ahead cal (suc fuel) current next t h = elim (Bool-cases (leb next current)) [
  | inl back ↦
      step (λ later e. advance_ahead cal fuel current later t e) (get_next_time cal next monthly)
        (rw back at h)
  | inr ahead ↦ ground arith
]
  where
    step :
        ((later : ℕ) → advance cal fuel current later ≡ some t → current < t)
        → (o : Option ℕ) → (o >>= λ later. advance cal fuel current later) ≡ some t
        → current < t
    step rest none e = cc
    step rest (some later) e = rest later e

module _ (cal : Calendar) where
  -- Before December 2552, the next monthly time always exists. It is later, lies in the following
  -- month, is on the same day of the month or on the last day of a shorter one, and is a time that
  -- a Timestamp holds.
  pub get_next_time_monthly :
      (t : ℕ)
      → t < december_2552
      → (u : ℕ) × (get_next_time cal t monthly ≡ some u)
        × (t < u)
        × (month_of cal u ≡ month_of cal t + 1)
        × ((cal.to_date u).day
            ≡ min (cal.to_date t).day (days_in_month (cal.to_date u).year (cal.to_date u).month))
        × (u ≤ max_timestamp)
  unfolding get_next_time get_duration
  get_next_time_monthly t early =
      let a = cal.to_date t in
      let valid_a = cal.is_valid-to_date t (omega arith) in
      let date = is_valid-IsDate a valid_a in
      let year = cal.to_date-year t early in
      let (_, twelve, _, _) = date_month a.year a.month a.day date in
      let (d, shifted, valid, month, day, time) =
        shift_months_lem cal a 1 date (omega arith) (omega arith) in
      let (one, _, _, _) = date_month d.year d.month d.day valid in
      let near : d.year ≤ 2553 = omega arith in
      let ok_later = later_is_valid a d valid_a valid (omega (arith, month)) time in
      let back = cal.to_date-to_seconds d ok_later (omega arith) in
      let self = cal.to_seconds-to_date t (omega arith) in
      let later = cal.to_seconds_mono a d valid_a ok_later (omega arith) (omega arith) in
      let held = cal.to_seconds-representable d ok_later near in
      (
        cal.to_seconds d,
        rw shifted (sum_of_gap t (cal.to_seconds d) (omega arith) held),
        omega arith,
        rw back month,
        rw back day,
        held,
      )

  -- Where the loop stops: at the first instant after the present.
  record Stops (current next t : ℕ) : Type 0 where
    ahead : current < t
    first :
        (t ≡ next) ⊎ ((p : ℕ) × (p ≤ current) × (next ≤ p) × (get_next_time cal p monthly ≡ some t))

  Stops-back :
      (current next later t : ℕ)
      → next ≤ current
      → next < later
      → get_next_time cal next monthly ≡ some later
      → Stops current later t
      → Stops current next t
  Stops-back current next later t le lt e s = record { ahead = s.ahead; first = back s.first }
    where
      back :
          (t ≡ later)
            ⊎ ((p : ℕ) × (p ≤ current) × (later ≤ p) × (get_next_time cal p monthly ≡ some t))
          → (t ≡ next)
            ⊎ ((p : ℕ) × (p ≤ current) × (next ≤ p) × (get_next_time cal p monthly ≡ some t))
      back (inl q) = inr (next, le, omega arith, e ∙ ap (λ (n : ℕ). some n) (sym q))
      back (inr (p, a, b, c)) = inr (p, a, omega arith, c)

  advance_total :
      (fuel current next : ℕ)
      → current < next + fuel
      → current < december_2552
      → next ≤ max_timestamp
      → (t : ℕ) × (advance cal (suc fuel) current next ≡ some t)
        × Stops current next t
        × (t ≤ max_timestamp)
  unfolding advance
  advance_total zero current next h early held =
      (next, ground arith, record { ahead = omega arith; first = inl refl }, held)
  advance_total (suc fuel) current next h early held = elim (Bool-cases (leb next current)) [
    | inl back ↦
        let near : next ≤ current = ground arith in
        let (later, e, lt, _, _, fits) = get_next_time_monthly next (omega arith) in
        let (t, f, s, le) = advance_total fuel current later (omega arith) early fits in
        (t, rw (back, e) f, Stops-back current next later t near lt e s, le)
    | inr ahead ↦ (next, rw ahead refl, record { ahead = ground arith; first = inl refl }, held)
  ]

  -- For a present and a start before December 2552, the loop of get_next_target_time for monthly
  -- intervals ends without a panic. The instant it gives lies after the present, and is one month
  -- after the start, or after an instant that is neither before the start nor after the present.
  pub next_target_monthly :
      (current start : ℕ)
      → current < december_2552
      → start < december_2552
      → (t p : ℕ) × (get_next_target_time cal current start monthly ≡ some t)
        × (current < t)
        × (get_next_time cal p monthly ≡ some t)
        × (start ≤ p)
        × ((p ≡ start) ⊎ (p ≤ current))
  unfolding get_next_target_time
  next_target_monthly current start early from =
      let (next, e, lt, _, _, fits) = get_next_time_monthly start from in
      let (t, f, s, held) = advance_total current current next (omega arith) early fits in
      let whole : from_seconds t ≡ some t = ground arith in
      let done : get_next_target_time cal current start monthly ≡ some t = rw (e, f) whole in
      let (p, a, b, c) = previous next t e lt s.first in (t, p, done, s.ahead, a, b, c)
    where
      previous :
          (next t : ℕ)
          → get_next_time cal start monthly ≡ some next
          → start < next
          → (t ≡ next)
            ⊎ ((p : ℕ) × (p ≤ current) × (next ≤ p) × (get_next_time cal p monthly ≡ some t))
          → (p : ℕ) × (get_next_time cal p monthly ≡ some t)
            × (start ≤ p)
            × ((p ≡ start) ⊎ (p ≤ current))
      previous next t e lt (inl q) =
          (start, e ∙ ap (λ (n : ℕ). some n) (sym q), omega arith, inl refl)
      previous next t e lt (inr (p, a, b, c)) = (p, c, omega arith, inr a)

  -- Whatever the present and the start, what is given lies after the present.
  pub monthly_ahead :
      (current start t : ℕ) → get_next_target_time cal current start monthly ≡ some t → current < t
  unfolding get_next_target_time
  monthly_ahead current start t h = first (get_next_time cal start monthly) h
    where
      second : (o : Option ℕ) → (o >>= λ n. from_seconds n) ≡ some t → o ≡ some t
      second none e = cc
      second (some n) e = ground arith

      first :
          (o : Option ℕ)
          → (o >>= λ n. advance cal (suc current) current n >>= λ reached. from_seconds reached)
            ≡ some t
          → current < t
      first none e = cc
      first (some n) e =
          advance_ahead cal (suc current) current n t
            (second (advance cal (suc current) current n) e)
