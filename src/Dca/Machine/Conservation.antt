-- ===== src/Dca/Machine/Conservation.antt =====
-- Payments in every store that contracts/dca/src/contract.rs can come to.
use bounties.Prelude.{ℕ, ◌<◌, ◌≤◌, ◌≡◌, String, Option}
use bounties.Shared.Result.{ok}
use bounties.Shared.Arith.{Arith}
use bounties.Shared.Coin.{Coin}
use bounties.Shared.Chain.{Addr, Api, Binary, Body, Env, MessageInfo, Response}
use bounties.Dca.Types.{Bounty, SwapAdjustmentStrategy}
use bounties.Dca.Store.{Store, get_bounty}
use bounties.Dca.Time.{Calendar}
use bounties.Dca.Validation.Addresses.{Callback}
use bounties.Dca.Fees.Totals.{sent}
use bounties.Dca.DisburseEscrow.{TwapQuery, disburse_escrow_handler}
use bounties.Dca.DisburseEscrow.Emptied.{disburse_escrow_lem}
use bounties.Dca.Update.{Value}
use bounties.Dca.Machine.{Reachable}
use bounties.Dca.Machine.Steps.{entry_lem}
use bounties.Dca.Machine.Ledger.{Reachable-IsSound, loaded_lem}

module _ ⦃m : Arith⦄ (cal : Calendar) (api : Api) (hash : SwapAdjustmentStrategy → ℕ)
    (to_json_binary : Body → Binary) (from_json : Binary → Option Callback)
    (format : Value → String) (destination : Bounty → Addr) where
  -- In every store that the contract can come to, a disbursement of the escrow sends at most the
  -- escrow of the bounty.
  pub Reachable-conserves_escrow :
      (twap : TwapQuery) (env : Env) (s : Store) (info : MessageInfo) (b : Bounty) (r : Response)
      (s' : Store)
      → Reachable cal api hash to_json_binary from_json format destination s
      → get_bounty s b.id ≡ ok b
      → 0 < b.escrowed_amount.amount
      → disburse_escrow_handler api twap env s info b.id ≡ ok (r, s')
      → sent r.messages ≤ b.escrowed_amount.amount
  Reachable-conserves_escrow twap env s info b r s' reached found pos h =
      let sound =
        Reachable-IsSound cal api hash to_json_binary from_json format destination s reached in
      let (_, valid) = entry_lem s b.id b sound.ledger found in
      let (_, _, le, _, _) =
        disburse_escrow_lem api twap env s info b sound.config r s' found pos
          (loaded_lem s sound.config sound.loaded) sound.valid.whole valid.shared.whole h in
      le
