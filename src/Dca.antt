-- ===== src/Dca.antt =====
-- contracts/dca/src, the contract that keeps the bounties.
pub mod Types
pub mod Time
pub mod Store
pub mod Exchange
pub mod SwapAdjustments
pub mod Swaps
pub mod Validation
pub mod Disbursement
pub mod Fees
pub mod Simulation
pub mod Config
pub mod DisburseFunds
pub mod DisburseEscrow
pub mod Execute
pub mod Deposit
pub mod FailedAutomation
pub mod Create
pub mod Cancel
pub mod Update
pub mod Machine
