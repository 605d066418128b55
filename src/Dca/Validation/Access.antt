-- ===== src/Dca/Validation/Access.antt =====
-- The checks of contracts/dca/src/helpers/validation.rs on who calls, and on the state of the
-- contract and of a bounty.
use bounties.Prelude.{ℕ, String, Bool, List, [], ◌∷◌, not, ◌&&◌, any, ltb, str_eq}
use bounties.Shared.Result.{text, Check, custom_error, unauthorized, fail_if, ◌>>=◌}
use bounties.Shared.Chain.{Addr, Env}
use bounties.Dca.Types.{Bounty, is_cancelled}
use bounties.Dca.Store.{Store, get_config}

unfoldable pub assert_contract_is_not_paused : Store → Check
unfolding get_config
assert_contract_is_not_paused s = do
  config ← get_config s
  fail_if config.paused (custom_error "contract is paused" [])

unfoldable pub assert_sender_is_admin : Store → Addr → Check
unfolding get_config
assert_sender_is_admin s sender = do
  config ← get_config s
  fail_if (not (str_eq sender config.admin)) unauthorized

-- `executors.contains(sender)`
unfoldable pub contains : List Addr → Addr → Bool
contains addresses sender = any (λ a. str_eq a sender) addresses

unfoldable pub assert_sender_is_executor : Store → Env → Addr → Check
unfolding get_config
assert_sender_is_executor s env sender = do
  config ← get_config s
  fail_if
      (not (contains config.executors sender)
        && (not (str_eq sender config.admin) && not (str_eq sender env.contract)))
      unauthorized

-- `asset_sender_is_vault_owner`
unfoldable pub assert_sender_is_bounty_owner : Addr → Addr → Check
assert_sender_is_bounty_owner owner sender = fail_if (not (str_eq sender owner)) unauthorized

-- `assert_sender_is_admin_or_vault_owner`
unfoldable pub assert_sender_is_admin_or_bounty_owner : Store → Addr → Addr → Check
unfolding get_config
assert_sender_is_admin_or_bounty_owner s owner sender = do
  config ← get_config s
  fail_if (not (str_eq sender config.admin) && not (str_eq sender owner)) unauthorized

unfoldable pub assert_sender_is_contract_or_admin : Store → Addr → Env → Check
unfolding get_config
assert_sender_is_contract_or_admin s sender env = do
  config ← get_config s
  fail_if (not (str_eq sender config.admin) && not (str_eq sender env.contract)) unauthorized

-- `assert_vault_is_not_cancelled`
unfoldable pub assert_bounty_is_not_cancelled : Bounty → Check
unfolding is_cancelled
assert_bounty_is_not_cancelled b =
    fail_if (is_cancelled b) (custom_error "vault is already cancelled" [])

unfoldable pub assert_deposited_denom_matches_send_denom : String → String → Check
assert_deposited_denom_matches_send_denom deposit_denom send_denom =
    fail_if (not (str_eq deposit_denom send_denom)) (
      custom_error "received asset with denom {}, but needed {}"
        (text deposit_denom ∷ text send_denom ∷ []))

unfoldable pub assert_target_time_is_in_past : ℕ → ℕ → Check
assert_target_time_is_in_past current_time target_time =
    fail_if (ltb current_time target_time)
      (custom_error "trigger execution time has not yet elapsed" [])

-- `assert_target_start_time_is_in_future` has the same body.
unfoldable pub assert_target_start_time_is_not_in_the_past : ℕ → ℕ → Check
assert_target_start_time_is_not_in_the_past current_time target_start_time =
    fail_if (ltb target_start_time current_time)
      (custom_error "target_start_time_utc_seconds must be some time in the future" [])
