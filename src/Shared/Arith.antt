-- ===== src/Shared/Arith.antt =====
-- The arithmetic of cosmwasm_std that the contracts call, as an interface: `Uint128` is a number
-- below 2^128, and a `Decimal` is its `atomics`, a `Uint128` in units of 10^-18. `none` is the
-- error of a checked operation, and the panic of an operator.
use bounties.Prelude.{
  ℕ, ◌+◌, ◌-◌, ◌*◌, ◌/◌, ◌<◌, ◌≡◌, refl, Option, none, some, arith, ltb, leb, if◌then◌else◌,
}

abbrev pub uint128_limit : ℕ
uint128_limit = 340282366920938463463374607431768211456

-- `Decimal::one().atomics()`
abbrev pub decimal_fractional : ℕ
decimal_fractional = 1000000000000000000

-- `Decimal::percent`
abbrev pub percent : ℕ → ℕ
percent n = n * 10000000000000000

-- A result that is stored in 128 bits, or the overflow.
abbrev pub fits : ℕ → Option ℕ
fits n = if ltb n uint128_limit then some n else none

pub record Arith : Type 0 where
  -- `Uint128::checked_add`, `+`; `Decimal` adds its atomics in the same way
  pub add : ℕ → ℕ → Option ℕ
  -- `Uint128::checked_sub`, `-`
  pub sub : ℕ → ℕ → Option ℕ
  -- `Uint128::checked_multiply_ratio(numerator, denominator)`, rounded down; `Uint128 * Decimal`
  -- and `Decimal * Decimal` are its instances with the denominator 10^18
  pub multiply_ratio : ℕ → ℕ → ℕ → Option ℕ
  -- `Decimal::checked_from_ratio`, `Decimal / Decimal`
  pub from_ratio : ℕ → ℕ → Option ℕ
  pub add_lem : (a b : ℕ) → add a b ≡ fits (a + b)
  pub sub_lem : (a b : ℕ) → sub a b ≡ (if leb b a then some (a - b) else none)
  pub multiply_ratio_lem : (a n d : ℕ) → 0 < d → multiply_ratio a n d ≡ fits (a * n / d)
  pub from_ratio_lem : (n d : ℕ) → 0 < d → from_ratio n d ≡ fits (n * 1000000000000000000 / d)
  pub from_ratio_zero : (n : ℕ) → from_ratio n 0 ≡ none

pub from_ratio_pos :
    (n d : ℕ)
    → 0 < d
    → (if leb d 0 then none else fits (n * 1000000000000000000 / d))
      ≡ fits (n * 1000000000000000000 / d)
from_ratio_pos n d h = ground arith

-- An implementation that has the documented behaviour, on which tests run.
instance abbrev pub exact : Arith
exact = record {
  add = λ a b. fits (a + b);
  sub = λ a b. if leb b a then some (a - b) else none;
  multiply_ratio = λ a n d. fits (a * n / d);
  from_ratio = λ n d. if leb d 0 then none else fits (n * 1000000000000000000 / d);
  add_lem = λ a b. refl;
  sub_lem = λ a b. refl;
  multiply_ratio_lem = λ a n d h. refl;
  from_ratio_lem = from_ratio_pos;
  from_ratio_zero = λ n. refl;
}
