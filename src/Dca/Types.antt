-- ===== src/Dca/Types.antt =====
-- The data of the DCA contract: contracts/dca/src/types and state/cache.rs.
-- The repository is between two spellings, `Vault` and `Bounty`, of one structure; `Bounty` here has
-- the fields of `types/vault.rs` and those that the handlers and `state/vaults.rs` read and write
-- without the structure declaring them (`swap_amount`, `swapped_amount`, the two strategies).
-- So with `ExecutionSkippedReason`, whose case for a swap amount of zero is commented out, with
-- `Config` (the fee levels of swaps and `twap_period`), and with the trigger by price.
use bounties.Prelude.{ℕ, String, Bool, Option, List, ltb, true, false, none, some, not, ◌&&◌}
use bounties.Shared.Coin.{Coin}
use bounties.Shared.Chain.{Addr, Binary, SubMsg}

pub data BountyStatus : Type 0 where
  scheduled active inactive cancelled : BountyStatus

pub record Destination : Type 0 where
  pub allocation : ℕ
  pub address : Addr
  pub msg : Option Binary

pub data TimeInterval : Type 0 where
  every_block every_minute half_hourly hourly half_daily daily weekly fortnightly : TimeInterval
  monthly : TimeInterval
  custom : ℕ → TimeInterval

-- The fields of `EscrowReject` and of `EscrowAccept`.
pub record EscrowDecision : Type 0 where
  pub target_time : ℕ
  pub bounty_id : ℕ
  pub label : Option String
  pub bounty_description : Option String
  pub status : Option BountyStatus
  pub destinations : List Destination
  pub target_denom : String
  pub route : Option Binary
  pub slippage_tolerance : Option ℕ

pub data TriggerConfiguration : Type 0 where
  time : ℕ → TriggerConfiguration
  escrow_reject escrow_accept : EscrowDecision → TriggerConfiguration
  -- the target price and the index of the limit order
  price : ℕ → ℕ → TriggerConfiguration

pub record Trigger : Type 0 where
  pub bounty_id : ℕ
  pub configuration : TriggerConfiguration

pub data PositionType : Type 0 where
  enter exit : PositionType

pub data SwapAdjustmentStrategy : Type 0 where
  risk_weighted_average : ℕ → PositionType → SwapAdjustmentStrategy
  -- base_receive_amount, multiplier and increase_only
  weighted_scale : ℕ → ℕ → Bool → SwapAdjustmentStrategy

pub data PerformanceAssessmentStrategy : Type 0 where
  -- swapped_amount and received_amount
  compare_to_standard_dca : Coin → Coin → PerformanceAssessmentStrategy

pub record FeeCollector : Type 0 where
  pub address : String
  pub allocation : ℕ

pub record Config : Type 0 where
  pub admin : Addr
  pub executors : List Addr
  pub fee_collectors : List FeeCollector
  pub default_swap_fee_percent : ℕ
  pub weighted_scale_swap_fee_percent : ℕ
  pub automation_fee_percent : ℕ
  pub default_page_limit : ℕ
  pub paused : Bool
  pub risk_weighted_average_escrow_level : ℕ
  pub twap_period : ℕ
  pub default_slippage_tolerance : ℕ
  pub exchange_contract_address : Addr

pub record Bounty : Type 0 where
  pub id : ℕ
  pub created_at : ℕ
  pub started_at : Option ℕ
  pub owner : Addr
  pub label : Option String
  pub destinations : List Destination
  pub status : BountyStatus
  pub balance : Coin
  pub target_denom : String
  pub swap_amount : ℕ
  pub route : Option Binary
  pub slippage_tolerance : ℕ
  pub minimum_receive_amount : Option ℕ
  pub time_interval : TimeInterval
  pub escrow_level : ℕ
  pub deposited_amount : Coin
  pub swapped_amount : Coin
  pub received_amount : Coin
  pub escrowed_amount : Coin
  pub performance_assessment_strategy : Option PerformanceAssessmentStrategy
  pub swap_adjustment_strategy : Option SwapAdjustmentStrategy
  pub trigger : Option TriggerConfiguration

pub data ExecutionSkippedReason : Type 0 where
  slippage_tolerance_exceeded slippage_query_error swap_amount_adjusted_to_zero :
      ExecutionSkippedReason
  price_threshold_exceeded : ℕ → ExecutionSkippedReason
  unknown_error : String → ExecutionSkippedReason

pub record Update : Type 0 where
  pub field : String
  pub old_value : String
  pub new_value : String

pub data EventData : Type 0 where
  bounty_funds_deposited : Coin → EventData
  bounty_execution_triggered : String → String → ℕ → EventData
  -- sent, received and fee
  bounty_execution_completed : Coin → Coin → Coin → EventData
  simulated_bounty_execution_completed : Coin → Coin → Coin → EventData
  bounty_execution_skipped : ExecutionSkippedReason → EventData
  simulated_bounty_execution_skipped : ExecutionSkippedReason → EventData
  bounty_cancelled : EventData
  -- amount_disbursed and performance_fee
  bounty_escrow_disbursed : Coin → Coin → EventData
  bounty_post_execution_action_failed : SubMsg → List Coin → EventData
  bounty_updated : List Update → EventData

pub record Event : Type 0 where
  pub id : ℕ
  pub resource_id : ℕ
  pub timestamp : ℕ
  pub block_height : ℕ
  pub payload : EventData

-- `SwapCache`, read by handlers/disburse_funds.rs
pub record SwapCache : Type 0 where
  pub swap_denom_balance : Coin
  pub receive_denom_balance : Coin

pub record PostExecutionActionCacheEntry : Type 0 where
  pub msg : SubMsg
  pub funds : List Coin

unfoldable pub is_active : Bounty → Bool
is_active b = elim b.status [ BountyStatus.active ↦ true | _ ↦ false ]

unfoldable pub is_scheduled : Bounty → Bool
is_scheduled b = elim b.status [ BountyStatus.scheduled ↦ true | _ ↦ false ]

unfoldable pub is_inactive : Bounty → Bool
is_inactive b = elim b.status [ BountyStatus.inactive ↦ true | _ ↦ false ]

unfoldable pub is_cancelled : Bounty → Bool
is_cancelled b = elim b.status [ BountyStatus.cancelled ↦ true | _ ↦ false ]

unfoldable pub get_swap_denom : Bounty → String
get_swap_denom b = b.balance.denom

-- types/performance_assessment_strategy.rs
unfoldable pub should_continue : PerformanceAssessmentStrategy → Bounty → Bool
should_continue (compare_to_standard_dca swapped_amount received_amount) b =
    ltb swapped_amount.amount b.deposited_amount.amount

unfoldable pub performance_fee_rate : PerformanceAssessmentStrategy → ℕ
performance_fee_rate (compare_to_standard_dca _ _) = 200000000000000000

unfoldable pub should_not_continue : Bounty → Bool
unfolding is_inactive should_continue
should_not_continue b =
    is_inactive b
    && elim b.performance_assessment_strategy [ none ↦ true | some s ↦ not (should_continue s b) ]
