-- ===== src/Dca/Fees/Performance.antt =====
-- The performance fee of contracts/dca/src/helpers/fees.rs: it is taken from the escrow, and is at
-- most a fifth of what the bounty gained on the standard strategy.
use native.Mathlib.Nat.{mul-le-mul_left}
use bounties.Prelude.{ℕ, ◌-◌, ◌*◌, ◌≤◌, ◌≡◌, refl, Option, none, some, arith, min}
use bounties.Shared.Result.{panic, Result, ok, or_err, ◌>>=◌, >>=-eq-ok}
use bounties.Shared.Arith.{Arith}
use bounties.Shared.Coin.{Coin, or_zero}
use bounties.Shared.Coin.Laws.{or_zero-sub}
use bounties.Dca.Types.{
  Bounty, PerformanceAssessmentStrategy, compare_to_standard_dca, performance_fee_rate,
}
use bounties.Dca.Disbursement.Parts.{share}
use bounties.Dca.Fees.{total_value, get_performance_fee}
use bounties.Dca.Fees.Totals.{from_ratio-le}

or_err-eq-ok : (o : Option ℕ) (a : ℕ) → or_err o panic ≡ ok a → o ≡ some a
or_err-eq-ok none a h = cc
or_err-eq-ok (some b) a h = ground arith

-- The rounding of the three products only lowers the fee.
fifth_of_gain :
    (gain price inverse added n fee : ℕ)
    → price * inverse ≤ 1000000000000000000 * 1000000000000000000
    → 1000000000000000000 * added ≤ gain * inverse
    → 5 * n ≤ added
    → fee ≤ n
    → 5 * (price * fee) ≤ gain * 1000000000000000000
fifth_of_gain gain price inverse added n fee a b c d =
    let e : gain * (price * inverse) ≤ gain * (1000000000000000000 * 1000000000000000000) =
      mul-le-mul_left gain a in
    let f : price * (1000000000000000000 * added) ≤ price * (gain * inverse) =
      mul-le-mul_left price b in
    let g : price * (5 * fee) ≤ price * added = mul-le-mul_left price (omega arith) in omega arith

module _ ⦃m : Arith⦄ where
  multiply_share : (a b r : ℕ) → m.multiply_ratio a b 1000000000000000000 ≡ some r → r ≡ share a b
  multiply_share a b r h =
      ground (arith, m.multiply_ratio_lem a b 1000000000000000000 (omega arith))

  fee_le_escrow :
      (b : Bounty) (price : ℕ) (fee : Coin) (o : Option PerformanceAssessmentStrategy)
      → b.performance_assessment_strategy ≡ o
      → get_performance_fee b price ≡ ok fee
      → (fee.amount ≤ b.escrowed_amount.amount) × (fee.denom ≡ b.target_denom)
  unfolding get_performance_fee
  fee_le_escrow b price fee none e h = ground arith
  fee_le_escrow b price fee (some (compare_to_standard_dca swapped received)) e h = ground arith

  -- Whenever get_performance_fee succeeds, the fee is at most the escrow of the bounty, and is in
  -- its target denomination.
  pub performance_fee_le_escrow :
      (b : Bounty) (price : ℕ) (fee : Coin)
      → get_performance_fee b price ≡ ok fee
      → (fee.amount ≤ b.escrowed_amount.amount) × (fee.denom ≡ b.target_denom)
  performance_fee_le_escrow b price fee h =
      fee_le_escrow b price fee b.performance_assessment_strategy refl h

  abbrev fifth_fee : Bounty → ℕ → Result Coin
  fifth_fee b added =
      or_err (m.multiply_ratio added 200000000000000000 1000000000000000000) panic >>= λ n.
      ok (record { amount = min b.escrowed_amount.amount n; denom = b.target_denom })

  abbrev added_fee : Bounty → ℕ → ℕ → Result Coin
  added_fee b gain inverse =
      or_err (m.multiply_ratio gain inverse 1000000000000000000) panic >>= λ added.
      fifth_fee b added

  -- For a bounty that is compared to the standard strategy, the performance fee, valued at the
  -- price it was computed at, is at most a fifth of what the bounty is worth more than the
  -- standard strategy at that price, and so nothing where it is not worth more.
  pub performance_fee_le_gain :
      (b : Bounty) (swapped received : Coin) (price gained standard : ℕ) (fee : Coin)
      → b.performance_assessment_strategy ≡ some (compare_to_standard_dca swapped received)
      → total_value b.deposited_amount.amount b.swapped_amount.amount b.received_amount.amount price
        ≡ ok gained
      → total_value b.deposited_amount.amount swapped.amount received.amount price ≡ ok standard
      → get_performance_fee b price ≡ ok fee
      → 5 * (price * fee.amount) ≤ (gained - standard) * 1000000000000000000
  unfolding get_performance_fee performance_fee_rate
  performance_fee_le_gain b swapped received price gained standard fee e g s h =
      let (inverse, e1, h1) =
        >>=-eq-ok (or_err (m.from_ratio 1000000000000000000 price) panic)
          (λ inverse. added_fee b (or_zero (m.sub gained standard)) inverse) (rw (e, g, s) at h) in
      let (added, e2, h2) =
        >>=-eq-ok
          (or_err (m.multiply_ratio (or_zero (m.sub gained standard)) inverse 1000000000000000000)
            panic)
          (λ added. fifth_fee b added) h1 in
      let (n, e3, h3) =
        >>=-eq-ok (or_err (m.multiply_ratio added 200000000000000000 1000000000000000000) panic)
          (λ n. ok (record { amount = min b.escrowed_amount.amount n; denom = b.target_denom }))
          h2 in
      let first = from_ratio-le 1000000000000000000 price inverse (or_err-eq-ok _ inverse e1) in
      let second = multiply_share _ inverse added (or_err-eq-ok _ added e2) in
      let third = multiply_share added 200000000000000000 n (or_err-eq-ok _ n e3) in
      let gain = or_zero-sub gained standard in
      let least : fee.amount ≤ n = ground arith in
      fifth_of_gain (gained - standard) price inverse added n fee.amount first
        (rw (← gain) (omega arith)) (omega arith) least
