-- ===== src/Tests.antt =====
-- Runs of the development on concrete inputs.
mod Gregorian
mod Fixtures
mod Money
mod Deposits
mod Exchange
mod Escrow
mod Schedule
mod Settings
mod Lifecycle
mod Reached
mod Prices
