-- ===== src/Exchanges.antt =====
-- The exchange contracts of contracts/exchanges.
pub mod Fin
