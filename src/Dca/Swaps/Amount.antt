-- ===== src/Dca/Swaps/Amount.antt =====
-- Bounds on what contracts/dca/src/helpers/vault.rs swaps of a bounty.
use native.Mathlib.Nat.{mul-le-mul_left}
use bounties.Prelude.{ℕ, ◌*◌, ◌/◌, ◌<◌, ◌≤◌, ◌≡◌, refl, Bool, true, Option, some, arith, min}
use bounties.Shared.Result.{panic, ok, or_err, >>=-eq-ok}
use bounties.Shared.Arith.{Arith}
use bounties.Shared.Coin.{Coin}
use bounties.Shared.Chain.{Env}
use bounties.Dca.Types.{Bounty, SwapAdjustmentStrategy, weighted_scale, get_swap_denom}
use bounties.Dca.Store.{Store, get_config}
use bounties.Dca.Exchange.{Exchange, abs_diff}
use bounties.Dca.Swaps.{scaled_factor, weighted_factor, swap_factor, get_swap_amount}

module _ ⦃m : Arith⦄ where
  scaled_factor_lem :
      (price belief scaled : ℕ) (increase_only : Bool)
      → (increase_only ≡ true
          → 1000000000000000000 ≤ scaled_factor price belief scaled increase_only)
        × (price < belief → scaled_factor price belief scaled increase_only ≤ 1000000000000000000)
        × (belief ≤ price → 1000000000000000000 ≤ scaled_factor price belief scaled increase_only)
  unfolding scaled_factor
  scaled_factor_lem price belief scaled increase_only = (
    λ h. ground (arith, m.sub_lem 1000000000000000000 scaled, m.add_lem 1000000000000000000 scaled),
    λ h. ground (arith, m.sub_lem 1000000000000000000 scaled),
    λ h. ground (arith, m.add_lem 1000000000000000000 scaled),
  )

  -- With `increase_only` the factor is at least one; without, it falls where the price is above
  -- the base price, and never above one there.
  pub weighted_factor_lem :
      (swap_amount base multiplier belief factor : ℕ) (increase_only : Bool)
      → 0 < base
      → weighted_factor swap_amount base multiplier increase_only belief ≡ ok factor
      → (increase_only ≡ true → 1000000000000000000 ≤ factor)
        × (swap_amount * 1000000000000000000 / base < belief → factor ≤ 1000000000000000000)
        × (belief ≤ swap_amount * 1000000000000000000 / base → 1000000000000000000 ≤ factor)
  unfolding weighted_factor
  weighted_factor_lem n base multiplier belief factor increase_only pos h =
      let (price, e1, h1) = >>=-eq-ok (or_err (m.from_ratio n base) panic) _ h in
      let (delta, e2, h2) =
        >>=-eq-ok (or_err (m.from_ratio (abs_diff price belief) price) panic) _ h1 in
      let (scaled, e3, h3) =
        >>=-eq-ok (or_err (m.multiply_ratio delta multiplier 1000000000000000000) panic) _ h2 in
      let base_price : price ≡ n * 1000000000000000000 / base =
        ground (arith, m.from_ratio_lem n base pos) in
      let same : scaled_factor price belief scaled increase_only ≡ factor = ground arith in
      rw (← base_price, ← same) (scaled_factor_lem price belief scaled increase_only)

  min_le : (a b : ℕ) → min a b ≤ b
  min_le a b = omega arith

  -- A swap is never more than the balance, is in its denomination, and is the smaller of the
  -- balance and of the swap amount times the factor of the strategy, rounded down.
  pub get_swap_amount_lem :
      (x : Exchange) (hash : SwapAdjustmentStrategy → ℕ) (s : Store) (env : Env) (b : Bounty)
      (swap : Coin)
      → get_swap_amount x hash s env b ≡ ok swap
      → (swap.amount ≤ b.balance.amount)
        × (swap.denom ≡ b.balance.denom)
        × ((factor : ℕ) × (swap_factor x hash s env b b.swap_adjustment_strategy ≡ ok factor)
            × (swap.amount ≡ min (b.swap_amount * factor / 1000000000000000000) b.balance.amount))
  unfolding get_swap_amount get_swap_denom
  get_swap_amount_lem x hash s env b swap h =
      let (factor, e1, h1) =
        >>=-eq-ok (swap_factor x hash s env b b.swap_adjustment_strategy) _ h in
      let (adjusted, e2, h2) =
        >>=-eq-ok (or_err (m.multiply_ratio b.swap_amount factor 1000000000000000000) panic) _ h1 in
      let whole : adjusted ≡ b.swap_amount * factor / 1000000000000000000 =
        ground
          (arith, m.multiply_ratio_lem b.swap_amount factor 1000000000000000000 (omega arith)) in
      let amount : swap.amount ≡ min adjusted b.balance.amount = ground arith in
      let bound : min adjusted b.balance.amount ≤ b.balance.amount =
        min_le adjusted b.balance.amount in
      (omega (arith, amount, bound), ground arith, (factor, e1, rw (← whole) amount))

  grown :
      (n factor balance : ℕ) → 1000000000000000000 ≤ factor → n ≤ n * factor / 1000000000000000000
  grown n factor balance h =
      let bound : n * 1000000000000000000 ≤ n * factor = mul-le-mul_left n h in omega arith

  -- A scale that only increases swaps at least the swap amount, or the whole balance.
  pub increase_only_lem :
      (x : Exchange) (hash : SwapAdjustmentStrategy → ℕ) (s : Store) (env : Env) (b : Bounty)
      (swap : Coin) (base multiplier : ℕ)
      → b.swap_adjustment_strategy ≡ some (weighted_scale base multiplier true)
      → 0 < base
      → get_swap_amount x hash s env b ≡ ok swap
      → (min b.swap_amount b.balance.amount ≤ swap.amount) × (swap.amount ≤ b.balance.amount)
  unfolding swap_factor
  increase_only_lem x hash s env b swap base multiplier strategy pos h =
      let (le, _, (factor, e, amount)) = get_swap_amount_lem x hash s env b swap h in
      let scaled = factor_of b.swap_adjustment_strategy factor strategy e in
      let more = grown b.swap_amount factor b.balance.amount scaled in
      (omega (arith, amount, more), le)
    where
      factor_of :
          (strategy : Option SwapAdjustmentStrategy) (factor : ℕ)
          → strategy ≡ some (weighted_scale base multiplier true)
          → swap_factor x hash s env b strategy ≡ ok factor
          → 1000000000000000000 ≤ factor
      factor_of strategy factor q e =
          let weighted : swap_factor x hash s env b (some (weighted_scale base multiplier true))
              ≡ ok factor =
            rw q at e in
          let (config, _, h1) = >>=-eq-ok (get_config s) _ weighted in
          let (price, _, h2) =
            >>=-eq-ok
              (x.get_twap_to_now config.exchange_contract_address (get_swap_denom b) b.target_denom
                config.twap_period b.route)
              _ h1 in
          (weighted_factor_lem b.swap_amount base multiplier price factor true pos h2).0 refl
