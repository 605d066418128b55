-- ===== src/Dca/Time/Schedule.antt =====
-- The next execution of contracts/dca/src/helpers/time.rs lies ahead, on the grid of its interval.
use bounties.Prelude.{
  ℕ, zero, suc, ◌+◌, ◌-◌, ◌*◌, ◌/◌, ◌<◌, ◌≤◌, ◌≡◌, refl, sym, ap, ◌∙◌, Bool, true, false, Option,
  none, some, arith, leb, Bool-cases, inl, inr, if◌then◌else◌,
}
use bounties.Dca.Types.{
  TimeInterval, every_block, every_minute, half_hourly, hourly, half_daily, daily, weekly,
  fortnightly, monthly, custom,
}
use bounties.Dca.Time.{
  Calendar, ◌>>=◌, max_instant, max_timestamp, max_duration, from_seconds, get_duration,
  get_next_time, add_elapsed, get_next_target_time, total_from, get_total_execution_duration,
}
use bounties.Dca.Time.Increments.{quotient_bounds, add_elapsed_lem, few_ahead, any_ahead, turned}

-- The seconds of an interval of fixed length.
abbrev pub fixed_length : TimeInterval → Option ℕ
fixed_length every_block = some 1
fixed_length every_minute = some 60
fixed_length half_hourly = some 1800
fixed_length hourly = some 3600
fixed_length half_daily = some 43200
fixed_length daily = some 86400
fixed_length weekly = some 604800
fixed_length fortnightly = some 1209600
fixed_length monthly = none
fixed_length (custom seconds) = if leb seconds 9223372036854775 then some seconds else none

module _ (cal : Calendar) where
  get_duration_fixed :
      (start d : ℕ) (i : TimeInterval) → fixed_length i ≡ some d → get_duration cal start i ≡ some d
  unfolding get_duration
  get_duration_fixed start d monthly h = cc
  get_duration_fixed start d _ h = h

  next_time_fixed :
      (start d : ℕ) (i : TimeInterval)
      → fixed_length i ≡ some d
      → get_next_time cal start i ≡ (if leb (start + d) max_instant then some (start + d) else none)
  unfolding get_next_time
  next_time_fixed start d i f = rw (get_duration_fixed start d i f) refl

  next_fixed :
      (current start d : ℕ) (i : TimeInterval)
      → fixed_length i ≡ some d
      → get_next_target_time cal current start i ≡ (
          (if leb (start + d) max_instant then some (start + d) else none) >>= λ _.
          add_elapsed current start d >>= λ reached. from_seconds reached)
  unfolding get_next_target_time
  next_fixed current start d monthly h = cc
  next_fixed current start d i h =
      rw (next_time_fixed start d i h, get_duration_fixed start d i h) refl

  next_from :
      (current start d t : ℕ) (i : TimeInterval)
      → fixed_length i ≡ some d
      → add_elapsed current start d ≡ some t
      → start + d ≤ max_timestamp
      → t ≤ max_timestamp
      → get_next_target_time cal current start i ≡ some t
  next_from current start d t i f e first last =
      let in_range : leb (start + d) max_instant ≡ true = ground arith in
      let whole : from_seconds t ≡ some t = ground arith in
      next_fixed current start d i f ∙ rw (in_range, e) whole

  -- For an interval of fixed positive length and a start that is not after the present, and less
  -- than 2147483647 seconds before it, get_next_target_time gives a whole number of intervals
  -- after the start, later than the present and at most one interval later, when an interval after
  -- the present is still a time that a Timestamp holds.
  pub next_target_fixed :
      (current start d : ℕ) (i : TimeInterval)
      → fixed_length i ≡ some d
      → 0 < d
      → start ≤ current
      → current - start < 2147483647
      → current + d ≤ max_timestamp
      → (n : ℕ) × (get_next_target_time cal current start i ≡ some (start + d * n))
        × (current < start + d * n)
        × (start + d * n ≤ current + d)
  next_target_fixed current start d i f pos h small held =
      let n = (current - start) / d + 1 in
      let q = quotient_bounds (current - start) d pos in
      let near : (current - start) / d ≤ current - start = grind arith in
      let later : current < start + d * n = grind arith in
      let within : start + d * n ≤ current + d = grind arith in
      (
        n,
        next_from current start d (start + d * n) i f
            (add_elapsed_lem current start d pos h (omega arith)) (omega arith) (omega arith),
        later,
        within,
      )

  -- For an interval of fixed positive length and a start after the present, and at most 2147483647
  -- seconds after it, get_next_target_time gives an instant a whole number of intervals before the
  -- first interval's end, at least one and less than two intervals from the present, when the
  -- first interval's end is a time that a Timestamp holds.
  pub next_target_ahead :
      (current start d : ℕ) (i : TimeInterval)
      → fixed_length i ≡ some d
      → 0 < d
      → current < start
      → start - current < 2147483648
      → start + d ≤ max_timestamp
      → (n t : ℕ) × (get_next_target_time cal current start i ≡ some t)
        × (t + d * n ≡ start + d)
        × (current + d ≤ t)
        × (t < current + d + d)
  next_target_ahead current start d i f pos h small held =
      let n = (start - current) / d in
      let q = quotient_bounds (start - current) d pos in
      let near : n ≤ start - current = grind arith in
      (
        n,
        start + d - d * n,
        next_from current start d (start + d - d * n) i f
            (turned current start d h pos ∙ few_ahead start d n (omega arith) (omega arith)) held
            (omega arith),
        omega arith,
        omega arith,
        omega arith,
      )

  -- Whatever a fixed interval gives lies after the present.
  pub fixed_is_ahead :
      (current start d t : ℕ) (i : TimeInterval)
      → fixed_length i ≡ some d
      → 0 < d
      → current < start + 2147483647
      → get_next_target_time cal current start i ≡ some t
      → current < t
  fixed_is_ahead current start d t i f pos recent h =
      let q = quotient_bounds (current - start) d pos in
      let p = quotient_bounds (start - current) d pos in
      let near : (current - start) / d ≤ current - start = grind arith in
      let reached =
        inverted (leb (start + d) max_instant) (add_elapsed current start d)
          (sym (next_fixed current start d i f) ∙ h) in
      elim (Bool-cases (leb start current)) [
        | inl behind ↦
            let e = add_elapsed_lem current start d pos (ground arith) (ground arith) in
            let same : some t ≡ some (start + d * ((current - start) / d + 1)) = sym reached ∙ e in
            let later : current < start + d * ((current - start) / d + 1) = grind arith in
            ground arith
        | inr ahead ↦
            any_ahead current start d ((start - current) / d) t pos (ground arith) (p.0)
              (sym (turned current start d (ground arith) pos) ∙ reached)
      ]
    where
      inverted :
          (fits : Bool) (o : Option ℕ)
          → ((if fits then some (start + d) else none) >>= λ _.
              o >>= λ reached. from_seconds reached)
            ≡ some t
          → o ≡ some t
      inverted false o e = cc
      inverted true none e = cc
      inverted true (some n) e = ground arith

  total_from_fixed :
      (n start acc d : ℕ) (i : TimeInterval)
      → fixed_length i ≡ some d
      → start + n * d ≤ max_instant
      → acc + n * d ≤ max_instant
      → total_from cal n start acc i ≡ some (acc + n * d)
  unfolding total_from
  total_from_fixed zero start acc d i f a b = ground arith
  total_from_fixed (suc n) start acc d i f a b =
      let more : suc n * d ≡ d + n * d = grind arith in
      let rest = total_from_fixed n (start + d) (acc + d) d i f (omega arith) (omega arith) in
      let one : leb (start + d) max_instant ≡ true = ground arith in
      let two : leb (acc + d) max_duration ≡ true = ground arith in
      rw (get_duration_fixed start d i f)
        (rw (one, two) (rest ∙ ap (λ (k : ℕ). some k) (omega arith)))

  -- For an interval of fixed length, the loop of get_total_execution_duration gives the number of
  -- executions times the length, when the last execution is not after chrono's last year.
  pub total_duration_fixed :
      (block_time n d : ℕ) (i : TimeInterval)
      → fixed_length i ≡ some d
      → block_time + n * d ≤ max_instant
      → get_total_execution_duration cal block_time n i ≡ some (n * d)
  unfolding get_total_execution_duration
  total_duration_fixed block_time n d i f last =
      total_from_fixed n block_time 0 d i f last (omega arith) ∙ ground arith
