-- ===== src/Exchanges/Fin.antt =====
-- contracts/exchanges/fin: swaps on the pair contracts of FIN.
pub mod Pairs
pub mod Swap
