-- ===== src/Tests/Fixtures.antt =====
-- A chain, a store and a bounty on which the handlers run.
use bounties.Prelude.{
  ℕ, ◌≡◌, refl, String, Bool, true, false, none, some, [], ◌∷◌, arith, str_eq, if◌then◌else◌,
}
use bounties.Shared.Result.{unauthorized, Result, ok, err, is_ok}
use bounties.Shared.Coin.{Coin}
use bounties.Shared.Chain.{Api, Balances, Env}
use bounties.Dca.Types.{Bounty, BountyStatus, Config, compare_to_standard_dca, daily}
use bounties.Dca.Store.{Store}

-- Every string but two denominations is an address.
abbrev pub is_denom : String → Bool
is_denom a = if str_eq a "ukuji" then true else str_eq a "uusk"

abbrev validate : String → Result String
validate a = if is_denom a then err unauthorized else ok a

pub validate_same : (a b : String) → validate a ≡ ok b → b ≡ a
validate_same a b h = ground arith

abbrev pub api : Api
api = record { addr_validate = validate; validate_self = validate_same }

abbrev pub env : Env
env = record { time = 2000; height = 7; contract = "dca" }

abbrev pub coins : ℕ → String → Coin
coins amount denom = record { amount = amount; denom = denom }

-- The contract holds 900 ukuji and 2100 uusk.
abbrev pub balances : Balances
balances = record {
  bank_balance = λ a denom. ok (coins (if str_eq denom "ukuji" then 900 else 2100) denom);
  token_balance = λ token a. ok 0;
}

abbrev pub config : Config
config = record {
  admin = "admin";
  executors = "executor" ∷ [];
  fee_collectors =
      record { address = "treasury"; allocation = 750000000000000000 }
      ∷ record { address = "community_pool"; allocation = 250000000000000000 }
      ∷ [];
  default_swap_fee_percent = 10000000000000000;
  weighted_scale_swap_fee_percent = 20000000000000000;
  automation_fee_percent = 5000000000000000;
  default_page_limit = 30;
  paused = false;
  risk_weighted_average_escrow_level = 50000000000000000;
  twap_period = 60;
  default_slippage_tolerance = 20000000000000000;
  exchange_contract_address = "fin";
}

abbrev pub bounty : Bounty
bounty = record {
  id = 1;
  created_at = 1000;
  started_at = some 1000;
  owner = "owner";
  label = none;
  destinations =
      record { allocation = 600000000000000000; address = "alice"; msg = none }
      ∷ record { allocation = 400000000000000000; address = "vault"; msg = some (1 ∷ []) }
      ∷ [];
  status = BountyStatus.active;
  balance = coins 500 "ukuji";
  target_denom = "uusk";
  swap_amount = 100;
  route = none;
  slippage_tolerance = 20000000000000000;
  minimum_receive_amount = none;
  time_interval = daily;
  escrow_level = 50000000000000000;
  deposited_amount = coins 1000 "ukuji";
  swapped_amount = coins 500 "ukuji";
  received_amount = coins 4000 "uusk";
  escrowed_amount = coins 200 "uusk";
  performance_assessment_strategy =
      some (compare_to_standard_dca (coins 500 "ukuji") (coins 2000 "uusk"));
  swap_adjustment_strategy = none;
  trigger = none;
}

abbrev pub store : Store
store = record {
  config = some config;
  bounty_counter = some 1;
  bounties = (1, bounty) ∷ [];
  triggers = [];
  disburse_escrow_tasks = (1, 1500) ∷ [];
  event_counter = none;
  events = [];
  bounty_id_cache = some 1;
  swap_adjustments = [];
  swap_cache = some (record {
    swap_denom_balance = coins 1000 "ukuji";
    receive_denom_balance = coins 1000 "uusk";
  });
  post_execution_action_cache = [];
}

-- The value of a call that is accepted.
unfoldable pub from_ok {ℓ} : {A : Type ℓ} (r : Result A) → is_ok r ≡ true → A
from_ok (ok a) h = a
from_ok (err e) h = cc

pub from_ok_lem {ℓ} : {A : Type ℓ} (r : Result A) (h : is_ok r ≡ true) → r ≡ ok (from_ok r h)
unfolding from_ok
from_ok_lem (ok a) h = refl
from_ok_lem (err e) h = cc
