-- ===== src/Dca/Validation.antt =====
-- contracts/dca/src/helpers/validation.rs: the checks that the handlers make, in the source's order.
pub mod Access
pub mod Values
pub mod Addresses
pub mod Strategies
pub mod Terms
