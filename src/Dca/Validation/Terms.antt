-- ===== src/Dca/Validation/Terms.antt =====
-- The terms of a bounty that contracts/dca/src/helpers/validation.rs accepts.
use bounties.Prelude.{
  ℕ, ◌≤◌, ◌≡◌, refl, Bool, true, false, not, List, arith, any, length, sum_of, ltb, ◌==◌,
}
use bounties.Shared.Result.{ContractError, ok, fail_if, >>=-eq-ok}
use bounties.Shared.Arith.{Arith}
use bounties.Dca.Types.{Destination, TimeInterval, custom}
use bounties.Dca.Validation.Values.{
  assert_destinations_limit_is_not_breached, assert_time_interval_is_valid,
  assert_slippage_tolerance_is_less_than_or_equal_to_one,
  assert_no_destination_allocations_are_zero, assert_destination_allocations_add_up_to_one, add_up,
}
use bounties.Dca.Config.Valid.{add_up_lem}

-- At most ten destinations that share exactly one, none of them nothing.
pub record IsShared (destinations : List Destination) : Type 0 where
  pub few : length destinations ≤ 10
  pub none_empty : any (λ (d : Destination). d.allocation == 0) destinations ≡ false
  pub whole : sum_of (λ (d : Destination). d.allocation) destinations ≡ 1000000000000000000

-- A custom interval is of a minute at least.
abbrev pub IsLong : TimeInterval → Type 0
IsLong (custom seconds) = 60 ≤ seconds
IsLong _ = Unit

pub record IsValidTerms (destinations : List Destination) (tolerance : ℕ) (interval : TimeInterval)
    : Type 0 where
  pub shared : IsShared destinations
  pub tolerable : tolerance ≤ 1000000000000000000
  pub long : IsLong interval

pub passed : (b : Bool) (e : ContractError) (p : Unit) → fail_if b e ≡ ok p → b ≡ false
passed true e p h = cc
passed false e p h = refl

pub limit_lem :
    (destinations : List Destination) (p : Unit)
    → assert_destinations_limit_is_not_breached destinations ≡ ok p
    → length destinations ≤ 10
unfolding assert_destinations_limit_is_not_breached
limit_lem destinations p h = let few = passed (ltb 10 (length destinations)) _ p h in ground arith

pub none_empty_lem :
    (destinations : List Destination) (p : Unit)
    → assert_no_destination_allocations_are_zero destinations ≡ ok p
    → any (λ (d : Destination). d.allocation == 0) destinations ≡ false
unfolding assert_no_destination_allocations_are_zero
none_empty_lem destinations p h =
    passed (any (λ (d : Destination). d.allocation == 0) destinations) _ p h

pub whole_lem :
    ⦃m : Arith⦄ (destinations : List Destination) (p : Unit)
    → assert_destination_allocations_add_up_to_one destinations ≡ ok p
    → sum_of (λ (d : Destination). d.allocation) destinations ≡ 1000000000000000000
unfolding assert_destination_allocations_add_up_to_one
whole_lem destinations p h =
    let (n, e, g) = >>=-eq-ok (add_up (λ (d : Destination). d.allocation) 0 destinations) _ h in
    let total = add_up_lem (λ (d : Destination). d.allocation) 0 n destinations e in
    let equal = passed (not (n == 1000000000000000000)) _ p g in
    let one : n ≡ 1000000000000000000 = ground arith in omega (arith, total, one)

pub tolerance_lem :
    (tolerance : ℕ) (p : Unit)
    → assert_slippage_tolerance_is_less_than_or_equal_to_one tolerance ≡ ok p
    → tolerance ≤ 1000000000000000000
unfolding assert_slippage_tolerance_is_less_than_or_equal_to_one
tolerance_lem tolerance p h =
    let low = passed (ltb 1000000000000000000 tolerance) _ p h in ground arith

pub interval_lem :
    (interval : TimeInterval) (p : Unit)
    → assert_time_interval_is_valid interval ≡ ok p
    → IsLong interval
unfolding assert_time_interval_is_valid
interval_lem (custom seconds) p h = let long = passed (ltb seconds 60) _ p h in ground arith
interval_lem _ p h = tt
