-- ===== src/Shared/Chain.antt =====
-- What a contract is given by the chain, and what it hands back: the call's environment, the
-- `Api` and the `QuerierWrapper` of cosmwasm_std as interfaces, and the messages of a `Response`.
-- A message body that the sources encode by `to_json_binary` is kept as the value encoded.
use bounties.Prelude.{ℕ, String, Option, List, ◌≡◌}
use bounties.Shared.Result.{Argument, Result}
use bounties.Shared.Coin.{Coin}

abbrev pub Addr : Type 0
Addr = String

abbrev pub Binary : Type 0
Binary = List ℕ

-- The part of `Env` and `MessageInfo` that the handlers read; `time` is in seconds.
pub record Env : Type 0 where
  pub time : ℕ
  pub height : ℕ
  pub contract : Addr

pub record MessageInfo : Type 0 where
  pub sender : Addr
  pub funds : List Coin

-- `Api::addr_validate`: an address that is valid is returned as it is.
pub record Api : Type 0 where
  pub addr_validate : String → Result Addr
  pub validate_self : (a b : String) → addr_validate a ≡ Result.ok b → b ≡ a

-- The balances that the chain reports at the moment of a call.
pub record Balances : Type 0 where
  -- `BankQuery::Balance { address, denom }`
  pub bank_balance : Addr → String → Result Coin
  -- `Cw20QueryMsg::Balance { address }`, asked of a token contract
  pub token_balance : Addr → Addr → Result ℕ

-- The bodies of `WasmMsg::Execute`.
pub data Body : Type 0 where
  raw : Binary → Body
  -- the cw20 token's `Transfer { recipient, amount }` and `Send { contract, amount, msg }`
  transfer : Addr → ℕ → Body
  send : Addr → ℕ → Binary → Body
  -- the DCA contract's `ExecuteMsg`
  disburse_escrow : ℕ → Body
  execute_trigger : ℕ → Option Binary → Body
  -- packages/exchange/src/msg.rs
  swap : Coin → Option Binary → Body
  submit_order : ℕ → String → Body
  retract_order : ℕ → String × String → Body
  withdraw_order : ℕ → String × String → Body
  -- the order book of a FIN pair
  pair_swap : Body
  pair_submit_order : ℕ → Body
  pair_retract_order : ℕ → Body
  pair_withdraw_orders : List ℕ → Body

pub data CosmosMsg : Type 0 where
  bank_send : Addr → List Coin → CosmosMsg
  wasm_execute : Addr → Body → List Coin → CosmosMsg
  -- `/cosmos.distribution.v1beta1.MsgFundCommunityPool`: the amount and the depositor
  fund_community_pool : List Coin → Addr → CosmosMsg

pub data ReplyOn : Type 0 where
  always error success never : ReplyOn

pub record SubMsg : Type 0 where
  pub msg : CosmosMsg
  pub id : ℕ
  pub reply_on : ReplyOn

-- `SubMsg::new`
abbrev pub sub_msg : CosmosMsg → SubMsg
sub_msg msg = record { msg = msg; id = 0; reply_on = ReplyOn.never }

abbrev pub reply_always : CosmosMsg → ℕ → SubMsg
reply_always msg id = record { msg = msg; id = id; reply_on = ReplyOn.always }

abbrev pub reply_on_success : CosmosMsg → ℕ → SubMsg
reply_on_success msg id = record { msg = msg; id = id; reply_on = ReplyOn.success }

abbrev pub reply_on_error : CosmosMsg → ℕ → SubMsg
reply_on_error msg id = record { msg = msg; id = id; reply_on = ReplyOn.error }

abbrev pub Attribute : Type 0
Attribute = String × Argument

pub record Response : Type 0 where
  pub attributes : List Attribute
  pub messages : List SubMsg

-- `SubMsgResult`; the payload of either case is not read by the handlers.
pub data SubMsgResult : Type 0 where
  succeeded failed : SubMsgResult
