-- ===== src/Shared/Coin.antt =====
-- packages/shared/src/coin.rs: a `Coin` is an amount, a `Uint128`, of a denomination.
pub mod Laws
use bounties.Prelude.{
  ℕ, zero, String, Bool, Option, none, some, List, [], ◌∷◌, not, ◌==◌, str_eq, if◌then◌else◌,
}
use bounties.Shared.Result.{
  Argument, StdError, ContractError, Result, ok, err, text, fail_if, or_err, ◌>>=◌, ◌>>◌,
}
use bounties.Shared.Arith.{Arith}

pub record Coin : Type 0 where
  pub amount : ℕ
  pub denom : String

abbrev no_funds : ContractError
no_funds = ContractError.std (StdError.generic_err "No funds sent" [])

unfoldable pub one_from : List Coin → Result Coin
one_from [] = err no_funds
one_from (coin ∷ []) = if coin.amount == 0 then err no_funds else ok coin
one_from (_ ∷ _ ∷ _) =
    err (ContractError.std (StdError.generic_err "Sent more than one denomination" []))

unfoldable pub empty_of : Coin → Coin
empty_of this = record this { amount = 0 }

-- The error of `add` and of `subtract` on two denominations.
abbrev pub denoms_differ : String → Coin → Coin → ContractError
denoms_differ template this other =
    ContractError.std (StdError.generic_err template (text this.denom ∷ text other.denom ∷ []))

abbrev pub overflow : ContractError
overflow = ContractError.std StdError.overflow

-- `checked_sub(…).unwrap_or(Uint128::zero())`
abbrev pub or_zero : Option ℕ → ℕ
or_zero none = 0
or_zero (some n) = n

module _ ⦃m : Arith⦄ where
  unfoldable pub add : Coin → Coin → Result Coin
  add this other = do
    fail_if (not (str_eq this.denom other.denom))
        (denoms_differ "Cannot add coins of different denominations: {} and {}" this other)
    total ← or_err (m.add this.amount other.amount) overflow
    ok (record { amount = total; denom = this.denom })

  unfoldable pub subtract : Coin → Coin → Result Coin
  subtract from other = do
    fail_if (not (str_eq from.denom other.denom))
        (denoms_differ "Cannot subtract coins of different denominations: {} and {}" from other)
    ok (record { amount = or_zero (m.sub from.amount other.amount); denom = from.denom })

  -- `coin.amount + amount` panics on overflow
  unfoldable pub add_to : Coin → ℕ → Result Coin
  add_to coin amount = do
    total ← or_err (m.add coin.amount amount) ContractError.panic
    ok (record { amount = total; denom = coin.denom })

  unfoldable pub subtract_from : Coin → ℕ → Coin
  subtract_from coin amount = record {
    amount = or_zero (m.sub coin.amount amount);
    denom = coin.denom;
  }
