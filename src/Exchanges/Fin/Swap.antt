-- ===== src/Exchanges/Fin/Swap.antt =====
-- contracts/exchanges/fin/src/handlers/swap.rs: a swap on the pair's contract, and the reply that hands
-- what it brought to the sender.
pub mod Returned
use bounties.Prelude.{
  ℕ, String, Bool, true, false, Option, none, some, List, [], ◌∷◌, ltb, ◌==◌, if◌then◌else◌,
}
use bounties.Shared.Result.{
  ContractError, text, coin, invalid_funds, failed_swap, StdError, Result, ok, err, fail_if, or_err,
  ◌>>=◌, ◌>>◌,
}
use bounties.Shared.Arith.{Arith}
use bounties.Shared.Coin.{Coin, subtract}
use bounties.Shared.Chain.{
  Addr, Api, Balances, Body, Env, MessageInfo, Response, bank_send, wasm_execute, reply_on_success,
  sub_msg,
}
use bounties.Shared.Cw20.{query_balance}
use bounties.Exchanges.Fin.Pairs.{Pair, Pairs, find_pair}

-- `SwapCache` of state/cache.rs
pub record ReturnCache : Type 0 where
  pub sender : Addr
  pub minimum_receive_amount : Coin
  pub target_denom_balance : Coin

abbrev pub after_swap : ℕ
after_swap = 1

-- The guards on the funds: exactly one coin, and not of the amount zero.
unfoldable pub one_coin : List Coin → Result Coin
one_coin (c ∷ []) =
    if c.amount == 0 then err (invalid_funds "Must provide a non-zero amount to swap") else ok c
one_coin _ = err (invalid_funds "Must provide exactly one coin to swap")

module _ (api : Api) (q : Balances) (env : Env) where
  unfoldable pub swap_handler : Pairs → MessageInfo → Coin → Result (Response × ReturnCache)
  swap_handler pairs info minimum_receive_amount = do
    funds ← one_coin info.funds
    pair ← find_pair pairs (funds.denom, minimum_receive_amount.denom)
    balance ← query_balance api q minimum_receive_amount.denom env.contract
    ok (
      record {
        attributes =
            ("swap", text "true")
            ∷ ("sender", text info.sender)
            ∷ ("swap_amount", coin funds.amount funds.denom)
            ∷ (
              "minimum_receive_amount",
              coin minimum_receive_amount.amount minimum_receive_amount.denom,
            )
            ∷ [];
        messages =
            reply_on_success (wasm_execute pair.address Body.pair_swap info.funds) after_swap ∷ [];
      },
      record {
        sender = info.sender;
        minimum_receive_amount = minimum_receive_amount;
        target_denom_balance = balance;
      },
    )

module _ ⦃m : Arith⦄ (q : Balances) (env : Env) where
  -- The balance is asked of the bank, for every denomination.
  unfoldable pub return_swapped_funds : Option ReturnCache → Result Response
  return_swapped_funds stored = do
    cache ← or_err stored (ContractError.std (StdError.not_found "SwapCache"))
    updated ← q.bank_balance env.contract cache.minimum_receive_amount.denom
    return_amount ← subtract updated cache.target_denom_balance
    fail_if (ltb return_amount.amount cache.minimum_receive_amount.amount) (
        failed_swap (
          coin return_amount.amount return_amount.denom
          ∷ coin cache.minimum_receive_amount.amount cache.minimum_receive_amount.denom
          ∷ []))
    ok (record {
      attributes = ("return_amount", coin return_amount.amount return_amount.denom) ∷ [];
      messages = sub_msg (bank_send cache.sender (return_amount ∷ [])) ∷ [];
    })
