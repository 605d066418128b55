-- ===== src/Dca/Time/Increments.antt =====
-- The increments of `get_next_target_time` in contracts/dca/src/helpers/time.rs, which are cut down to
-- an i32.
use bounties.Prelude.{
  ℕ, zero, suc, ◌+◌, ◌-◌, ◌*◌, ◌/◌, ◌%◌, ◌<◌, ◌≤◌, ◌≡◌, ap, true, false, none, some, arith, ltb,
  leb, Bool-cases, inl, inr, if◌then◌else◌,
}
use bounties.Dca.Time.{add_increments, add_elapsed}

pub quotient_bounds : (x d : ℕ) → 0 < d → (d * (x / d) ≤ x) × (x < d * (x / d) + d)
quotient_bounds x d h = (grind arith, grind arith)

pub add_elapsed_lem :
    (current start d : ℕ)
    → 0 < d
    → start ≤ current
    → (current - start) / d + 1 < 2147483648
    → add_elapsed current start d ≡ some (start + d * ((current - start) / d + 1))
unfolding add_elapsed
add_elapsed_lem current start d pos h small = ground arith

-- The increments before the start: for a quotient of q, the low bits of 1 - q.
pub few_ahead :
    (start d q : ℕ)
    → q < 2147483648
    → d * q ≤ start
    → add_increments start d (4294967297 - q % 4294967296) ≡ some (start + d - d * q)
unfolding add_increments
few_ahead start d zero small le = ground arith
few_ahead start d (suc zero) small le = ground arith
few_ahead start d (suc (suc q)) small le =
    let whole : suc (suc q) % 4294967296 ≡ suc (suc q) = ground arith in
    let low : (4294967297 - suc (suc q)) % 4294967296 ≡ 4294967295 - q = ground arith in
    let back : 4294967296 - (4294967295 - q) ≡ suc q = omega arith in
    let part : d * suc q + d ≡ d * suc (suc q) = grind arith in
    let high : ltb (4294967295 - q) 2147483648 ≡ false = ground arith in
    let fits : leb (d * suc q) start ≡ true = ground arith in
    rw (whole, low, high, back, fits) (ap (λ (n : ℕ). some n) (omega arith))

-- However far ahead the start is, the instant given lies after the present: the wrapped number of
-- increments is never less than 1 - q.
pub any_ahead :
    (current start d q t : ℕ)
    → 0 < d
    → current < start
    → d * q ≤ start - current
    → add_increments start d (4294967297 - q % 4294967296) ≡ some t
    → current < t
unfolding add_increments
any_ahead current start d q t pos lt le h =
    let less : q % 4294967296 ≤ q = grind arith in
    let part : d * (q % 4294967296) ≤ d * q = grind arith in
    cut (q % 4294967296) (grind arith) (omega arith) h
  where
    cut :
        (r : ℕ)
        → r < 4294967296
        → d * r ≤ start - current
        → (let low = (4294967297 - r) % 4294967296 in
            if ltb low 2147483648
            then some (start + d * low)
            else if leb (d * (4294967296 - low)) start
            then some (start - d * (4294967296 - low))
            else none)
          ≡ some t
        → current < t
    cut zero small few e = ground arith
    cut (suc r) small few e =
        elim (Bool-cases (ltb ((4294967297 - suc r) % 4294967296) 2147483648)) [
          | inl positive ↦ let more : start ≤ t = ground arith in omega arith
          | inr negative ↦
              let back : 4294967296 - (4294967297 - suc r) % 4294967296 ≡ r = ground arith in
              let part : d * r + d ≡ d * suc r = grind arith in
              let one : start - d * r ≡ t = ground (arith, back) in omega arith
        ]

pub turned :
    (current start d : ℕ)
    → current < start
    → 0 < d
    → add_elapsed current start d
      ≡ add_increments start d (4294967297 - (start - current) / d % 4294967296)
unfolding add_elapsed
turned current start d lt pos = ground arith
