-- ===== src/Exchanges/Fin/Swap/Returned.antt =====
-- What a swap through contracts/exchanges/fin hands to its sender.
use bounties.Shared.Arith.{Arith}
use bounties.Shared.Coin.{Coin}
use bounties.Exchanges.Fin.Pairs.{Pairs}
