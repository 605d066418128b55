-- ===== src/Shared/Cw20/Laws.antt =====
-- The money that a message of packages/shared/src/cw20.rs moves, whichever kind of denomination.
use bounties.Prelude.{String, ◌≡◌, ◌≢◌, refl, List, [], ◌∷◌, arith}
use bounties.Shared.Result.{Result, ok, err, >>=-eq-ok}
use bounties.Shared.Coin.{Coin, one_from}
use bounties.Shared.Chain.{
  Addr, Binary, Api, Body, CosmosMsg, bank_send, wasm_execute, fund_community_pool,
}
use bounties.Shared.Cw20.{
  cw20_token_address, into_bank_msg, into_execute_msg, bank_msg_for, execute_msg_for,
}

-- Who is paid by a message, and what: the coins of the bank, or those of a token's contract.
abbrev pub payee : CosmosMsg → Addr
payee (bank_send to _) = to
payee (wasm_execute token (Body.transfer to _) _) = to
payee (wasm_execute token (Body.send contract _ _) _) = contract
payee (wasm_execute contract _ _) = contract
payee (fund_community_pool _ _) = "community_pool"

abbrev pub paid : CosmosMsg → List Coin
paid (bank_send _ coins) = coins
paid (wasm_execute token (Body.transfer _ n) _) = record { amount = n; denom = token } ∷ []
paid (wasm_execute token (Body.send _ n _) _) = record { amount = n; denom = token } ∷ []
paid (wasm_execute _ _ funds) = funds
paid (fund_community_pool coins _) = coins

pub cw20_token_address_self :
    (api : Api) (denom a : String) → cw20_token_address api denom ≡ ok a → a ≡ denom
unfolding cw20_token_address
cw20_token_address_self api denom a h = ground (arith, api.validate_self denom a)

bank_msg_for_pays :
    (api : Api) (to : Addr) (c : Coin) (r : Result Addr) (msg : CosmosMsg)
    → ((a : Addr) → r ≡ ok a → a ≡ c.denom)
    → bank_msg_for api to (c ∷ []) c r ≡ ok msg
    → (payee msg ≡ to) × (paid msg ≡ c ∷ [])
unfolding bank_msg_for
bank_msg_for_pays api to c (ok a) msg self h =
    let (t, valid, e) =
      >>=-eq-ok (api.addr_validate to) (λ t. ok (wasm_execute a (Body.transfer t c.amount) [])) h in
    ground (arith, self a refl, api.validate_self to t)
bank_msg_for_pays api to c (err e) msg self h = ground arith

pub one_from_one : (c t : Coin) → one_from (c ∷ []) ≡ ok t → (t ≡ c) × (c.amount ≢ 0)
unfolding one_from
one_from_one c t h = (ground arith, ground arith)

-- A message that into_bank_msg makes for one coin pays exactly that coin to the recipient, by a
-- bank transfer or by the cw20 token that the denomination names.
pub into_bank_msg_pays :
    (api : Api) (to : Addr) (c : Coin) (msg : CosmosMsg)
    → into_bank_msg api to (c ∷ []) ≡ ok msg
    → (payee msg ≡ to) × (paid msg ≡ c ∷ [])
unfolding into_bank_msg
into_bank_msg_pays api to c msg h = ground (
  arith,
  bank_msg_for_pays api to c (cw20_token_address api c.denom) msg
      (λ a. cw20_token_address_self api c.denom a),
)

execute_msg_for_pays :
    (contract : Addr) (body : Binary) (c : Coin) (r : Result Addr)
    → ((a : Addr) → r ≡ ok a → a ≡ c.denom)
    → let msg = execute_msg_for contract body c r in (payee msg ≡ contract) × (paid msg ≡ c ∷ [])
unfolding execute_msg_for
execute_msg_for_pays contract body c (ok a) self = ground (arith, self a refl)
execute_msg_for_pays contract body c (err e) self = (refl, refl)

pub into_execute_msg_pays :
    (api : Api) (contract : Addr) (body : Binary) (c : Coin) (msg : CosmosMsg)
    → into_execute_msg api contract body c ≡ ok msg
    → (payee msg ≡ contract) × (paid msg ≡ c ∷ [])
unfolding into_execute_msg
into_execute_msg_pays api contract body c msg h = ground (
  arith,
  execute_msg_for_pays contract body c (cw20_token_address api c.denom)
      (λ a. cw20_token_address_self api c.denom a),
)

bank_msg_for_total :
    (api : Api) (to a : Addr) (c : Coin) (r : Result Addr)
    → api.addr_validate to ≡ ok a
    → (msg : CosmosMsg) × (bank_msg_for api to (c ∷ []) c r ≡ ok msg)
unfolding bank_msg_for
bank_msg_for_total api to a c (ok token) valid =
    (wasm_execute token (Body.transfer a c.amount) [], rw valid)
bank_msg_for_total api to a c (err e) valid = (bank_send to (c ∷ []), refl)

-- To a valid address every amount but zero can be sent.
pub into_bank_msg_total :
    (api : Api) (to a : Addr) (c : Coin)
    → api.addr_validate to ≡ ok a
    → c.amount ≢ 0
    → (msg : CosmosMsg) × (into_bank_msg api to (c ∷ []) ≡ ok msg)
unfolding into_bank_msg
into_bank_msg_total api to a c valid pos =
    let (msg, e) = bank_msg_for_total api to a c (cw20_token_address api c.denom) valid in
    (msg, ground arith)

pub into_execute_msg_total :
    (api : Api) (contract : Addr) (body : Binary) (c : Coin)
    → (msg : CosmosMsg) × (into_execute_msg api contract body c ≡ ok msg)
unfolding into_execute_msg
into_execute_msg_total api contract body c =
    (execute_msg_for contract body c (cw20_token_address api c.denom), refl)
