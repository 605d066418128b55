-- ===== src/Lib.antt =====
-- The contracts of a bounty and dollar-cost-averaging service on CosmWasm.
--
-- The DCA contract (contracts/dca) keeps bounties: an owner deposits coins, which are swapped part by
-- part on an exchange contract (contracts/exchanges), and what a swap brings is divided into fees, an
-- escrow and payments to the destinations of the bounty. An escrow is paid out at the end, less a
-- performance fee. Both kinds of contract use packages/shared for coins and messages.
--
-- Files:
--   Prelude: the names of the libraries, and lists.
--   Shared.Result: error.rs of the contracts; a call gives `ok` or `err`, and a panic is an `err`, for
--     both undo the transaction.
--   Shared.Arith: the checked arithmetic of cosmwasm_std as an interface. `Uint128` is a number below
--     2^128, a `Decimal` its atomics.
--   Shared.Coin, Shared.Cw20: packages/shared/src/coin.rs, cw20.rs and balance.rs.
--   Shared.Chain: the chain's interfaces and messages. Shared.Storage: a map of cw_storage_plus.
--   Dca.Types: contracts/dca/src/types. Dca.Store: contracts/dca/src/state, as one record that the
--     handlers take and give back.
--   Dca.Time: contracts/dca/src/helpers/time.rs. chrono is an interface; Tests.Gregorian fills it.
--   Dca.Validation: contracts/dca/src/helpers/validation.rs.
--   Dca.Disbursement: contracts/dca/src/helpers/disbursement.rs and math.rs.
--   Dca.Fees: contracts/dca/src/helpers/fees.rs.
--   Dca.DisburseFunds, Dca.DisburseEscrow, Dca.FailedAutomation, Dca.Deposit, Dca.Config: the
--     handlers disburse_funds.rs, disburse_escrow.rs, handle_failed_automation.rs, deposit.rs,
--     instantiate.rs, migrate.rs and update_config.rs of contracts/dca/src/handlers.
--   Dca.Exchange: the exchange contract as the DCA contract asks it, an interface, and
--     contracts/dca/src/helpers/price.rs. Dca.SwapAdjustments: state/swap_adjustments.rs and
--     types/swap_adjustment_strategy.rs, whose lines are commented out while they are still called.
--   Dca.Swaps, Dca.Simulation: contracts/dca/src/helpers/vault.rs, with the prices and dates of
--     types/vault.rs.
--   Dca.Create, Dca.Update, Dca.Cancel, Dca.Execute: the handlers create_vault.rs, update_vault.rs
--     (with update_swap_adjustment_handler.rs), cancel_vault.rs and execute_trigger.rs.
--   Dca.Machine: contracts/dca/src/contract.rs as a state machine over all of these handlers.
--   Exchanges.Fin: contracts/exchanges/fin/src, its pairs (types/pair.rs, state/pairs.rs,
--     handlers/create_pairs.rs) and swaps (handlers/swap.rs).
--   Tests: runs on one bounty and one calendar; Tests.Lifecycle runs the contract from its
--     instantiation to the payment of an escrow.
--
-- The repository is between two spellings, Vault and Bounty, of one structure, and does not compile as
-- it is: Dca.Types has the fields and cases that the handlers read and write, and a variable or field
-- that a handler reads without a declaration is an argument of its model. So a stored bounty keeps
-- swapped_amount and both strategies, whose lines are commented out in contracts/dca/src/state/vaults.rs.
--
-- Bounds: an instant is in seconds; what chrono (the years to 262143, the durations to i64::MAX
-- milliseconds) and `Timestamp` (a u64 of nanoseconds, the seconds to 18446744073) cannot hold is a
-- panic. The monthly loop runs on the fuel `suc current`, which is enough, for every month adds at
-- least a second. Months are shifted by numbers that are not negative, as the code does.
--
-- Not modelled: the exchange contracts but FIN, and the limit orders and prices of FIN (the DCA
-- contract's view of an exchange is the interface of Dca.Exchange); the indexed queries; delegation,
-- which changes nothing; and the decoding of messages.
pub mod Prelude
pub mod Shared
pub mod Dca
pub mod Exchanges
pub mod Tests
