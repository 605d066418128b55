-- ===== src/Tests/Deposits.antt =====
-- A deposit into a bounty.
use bounties.Prelude.{◌≡◌, refl, true, false, some, [], ◌∷◌}
use bounties.Shared.Result.{is_ok}
use bounties.Shared.Arith.{exact}
use bounties.Shared.Coin.{Coin, add}
use bounties.Shared.Chain.{MessageInfo, Response}
use bounties.Shared.Storage.{may_load}
use bounties.Dca.Types.{Bounty, is_cancelled, is_inactive, is_active}
use bounties.Dca.Store.{Store, get_config, get_bounty, bounty_from, get_trigger, bounty_data}
use bounties.Dca.Validation.Access.{
  assert_contract_is_not_paused, assert_bounty_is_not_cancelled,
  assert_deposited_denom_matches_send_denom,
}
use bounties.Dca.Deposit.{only_asset, adjusted_strategy, with_deposit, restart, deposit_handler}
use bounties.Dca.Deposit.Added.{HasDeposit, deposit_lem}
use bounties.Tests.Fixtures.{api, env, coins, bounty, store, from_ok, from_ok_lem}
use bounties.Tests.Gregorian.{gregorian}

abbrev anyone : MessageInfo
anyone = record { sender = "friend"; funds = coins 70 "ukuji" ∷ [] }

deposit_ok : is_ok (deposit_handler gregorian api env store anyone "owner" 1) ≡ true
unfolding deposit_handler assert_contract_is_not_paused get_config only_asset get_bounty bounty_from
    get_trigger may_load assert_bounty_is_not_cancelled is_cancelled
    assert_deposited_denom_matches_send_denom with_deposit add adjusted_strategy restart is_inactive
    is_active
deposit_ok = refl

abbrev deposited : Response × Store
deposited = from_ok (deposit_handler gregorian api env store anyone "owner" 1) deposit_ok

deposit_example :
    (c : Coin) × (b : Bounty) × (anyone.funds ≡ c ∷ [])
    × (bounty.owner ≡ bounty.owner)
    × (is_cancelled bounty ≡ false)
    × (c.denom ≡ bounty.balance.denom)
    × HasDeposit bounty c b
    × (may_load 1 deposited.1.bounties ≡ some (bounty_data b))
    × (deposited.0.messages ≡ [])
unfolding get_bounty bounty_from get_trigger may_load
deposit_example =
    deposit_lem gregorian api env store anyone "owner" bounty deposited.0 deposited.1 refl
      (from_ok_lem (deposit_handler gregorian api env store anyone "owner" 1) deposit_ok)
