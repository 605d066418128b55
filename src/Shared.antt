-- ===== src/Shared.antt =====
-- packages/shared/src, with what all contracts build on.
pub mod Result
pub mod Arith
pub mod Coin
pub mod Storage
pub mod Chain
pub mod Cw20
