-- ===== src/Shared/Cw20.antt =====
-- packages/shared/src/cw20.rs and balance.rs: a denomination of more than ten characters that is a
-- valid address names a cw20 token, and any other a coin of the bank module.
pub mod Laws
use Prim.Native.String.{len}
use bounties.Prelude.{ℕ, String, List, [], ◌∷◌, ltb, if◌then◌else◌}
use bounties.Shared.Result.{StdError, ContractError, Result, ok, err, ◌>>=◌}
use bounties.Shared.Coin.{Coin, one_from}
use bounties.Shared.Chain.{
  Addr, Binary, Api, Balances, MessageInfo, Body, CosmosMsg, bank_send, wasm_execute,
}

pub record Cw20ReceiveMsg : Type 0 where
  pub sender : String
  pub amount : ℕ
  pub msg : Binary

-- `str::len` counts bytes
unfoldable pub cw20_token_address : Api → String → Result Addr
cw20_token_address api denom =
    if ltb 10 (len denom)
    then api.addr_validate denom
    else err (ContractError.std (StdError.parse_err "Addr" "Not a cw20 contract address"))

-- The token that sent the message stands for the funds.
unfoldable pub from_cw20_receive_msg : Api → MessageInfo → Cw20ReceiveMsg → Result MessageInfo
from_cw20_receive_msg api info receive_msg = do
  sender ← api.addr_validate receive_msg.sender
  denom ← api.addr_validate info.sender
  ok (record {
    sender = sender;
    funds = record { amount = receive_msg.amount; denom = denom } ∷ [];
  })

bank_msg_for : Api → Addr → List Coin → Coin → Result Addr → Result CosmosMsg
bank_msg_for api recipient amount token (ok token_address) = do
  to ← api.addr_validate recipient
  ok (wasm_execute token_address (Body.transfer to token.amount) [])
bank_msg_for api recipient amount token (err _) = ok (bank_send recipient amount)

unfoldable pub into_bank_msg : Api → Addr → List Coin → Result CosmosMsg
unfolding bank_msg_for cw20_token_address one_from
into_bank_msg api recipient amount = do
  token ← one_from amount
  bank_msg_for api recipient amount token (cw20_token_address api token.denom)

execute_msg_for : Addr → Binary → Coin → Result Addr → CosmosMsg
execute_msg_for contract msg amount (ok token_address) =
    wasm_execute token_address (Body.send contract amount.amount msg) []
execute_msg_for contract msg amount (err _) = wasm_execute contract (Body.raw msg) (amount ∷ [])

unfoldable pub into_execute_msg : Api → Addr → Binary → Coin → Result CosmosMsg
unfolding execute_msg_for cw20_token_address
into_execute_msg api contract msg amount =
    ok (execute_msg_for contract msg amount (cw20_token_address api amount.denom))

balance_for : Balances → String → Addr → Result Addr → Result Coin
balance_for q denom address (ok token_address) = do
  balance ← q.token_balance token_address address
  ok (record { amount = balance; denom = token_address })
balance_for q denom address (err _) = q.bank_balance address denom

unfoldable pub query_balance : Api → Balances → String → Addr → Result Coin
unfolding balance_for cw20_token_address
query_balance api q denom address = balance_for q denom address (cw20_token_address api denom)
