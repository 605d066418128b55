-- ===== src/Dca/Disbursement.antt =====
-- contracts/dca/src/helpers/math.rs and disbursement.rs: an amount is divided over the destinations
-- of a bounty, and the messages that carry the parts are kept in a cache until they are replied to.
pub mod Parts
pub mod Order
pub mod Messages
use bounties.Prelude.{ℕ, String, Option, none, some, List, [], ◌∷◌, map, ltb, if◌then◌else◌}
use bounties.Shared.Result.{panic, Result, ok, err, or_err, ◌>>=◌}
use bounties.Shared.Arith.{Arith, decimal_fractional}
use bounties.Shared.Coin.{Coin}
use bounties.Shared.Chain.{Addr, Binary, Api, CosmosMsg, SubMsg, reply_always}
use bounties.Shared.Cw20.{into_bank_msg, into_execute_msg}
use bounties.Shared.Storage.{save}
use bounties.Dca.Types.{Bounty, Destination, PostExecutionActionCacheEntry}
use bounties.Dca.Store.{Store}

abbrev pub after_failed_automation_reply_id : ℕ
after_failed_automation_reply_id = 3

-- `expect` on a fallible call.
unfoldable pub expect : {A : Type 0} → Result A → Result A
expect (ok a) = ok a
expect (err _) = err panic

abbrev pub prepend :
    Option PostExecutionActionCacheEntry
    → List PostExecutionActionCacheEntry
    → List PostExecutionActionCacheEntry
prepend none entries = entries
prepend (some e) entries = e ∷ entries

module _ (api : Api) where
  -- The message for one destination. `map_or` builds its first argument, the bank message, also
  -- where the destination has a message of its own.
  unfoldable pub destination_msg : Destination → Coin → Result CosmosMsg
  destination_msg destination amount = do
    bank ← expect (into_bank_msg api destination.address (amount ∷ []))
    elim destination.msg [
      | none ↦ ok bank
      | some msg ↦ expect (into_execute_msg api destination.address msg amount)
    ]

  -- A part that is rounded down to nothing is not sent.
  unfoldable pub entry_for : Destination → Coin → Result (Option PostExecutionActionCacheEntry)
  entry_for destination amount =
      if ltb 0 amount.amount
      then (do
        msg ← destination_msg destination amount
        ok (
            some (record {
              msg = reply_always msg after_failed_automation_reply_id;
              funds = amount ∷ [];
            })))
      else ok none

module _ ⦃m : Arith⦄ where
  -- `none` is a `CheckedMultiplyRatioError`
  unfoldable pub checked_mul : ℕ → ℕ → Option ℕ
  checked_mul a b = m.multiply_ratio a b decimal_fractional

  module _ (api : Api) where
    unfoldable pub destination_entry :
        String → ℕ → Destination → Result (Option PostExecutionActionCacheEntry)
    destination_entry target_denom amount_to_disburse destination = do
      amount ← or_err (checked_mul amount_to_disburse destination.allocation) panic
      entry_for api destination (record { amount = amount; denom = target_denom })

    unfoldable pub destination_entries :
        String → ℕ → List Destination → Result (List PostExecutionActionCacheEntry)
    destination_entries target_denom amount_to_disburse [] = ok []
    destination_entries target_denom amount_to_disburse (d ∷ rest) =
        destination_entry target_denom amount_to_disburse d >>= λ entry.
        destination_entries target_denom amount_to_disburse rest >>= λ entries.
        ok (prepend entry entries)

    unfoldable pub get_disbursement_messages : Store → Bounty → ℕ → Result (List SubMsg × Store)
    get_disbursement_messages s bounty amount_to_disburse = do
      entries ← destination_entries bounty.target_denom amount_to_disburse bounty.destinations
      ok (
        map (λ (e : PostExecutionActionCacheEntry). e.msg) entries,
        record s {
          post_execution_action_cache = save bounty.id entries s.post_execution_action_cache;
        },
      )
