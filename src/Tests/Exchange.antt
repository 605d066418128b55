-- ===== src/Tests/Exchange.antt =====
-- A swap through the FIN contract, and the replies to a disbursement.
use bounties.Prelude.{◌≢◌, String, ℕ, ◌+◌, ◌≡◌, refl, true, some, List, [], ◌∷◌, arith, length}
use bounties.Shared.Result.{ok, is_ok}
use bounties.Shared.Arith.{exact}
use bounties.Shared.Coin.{Coin, subtract, one_from}
use bounties.Shared.Cw20.{query_balance, into_bank_msg}
use bounties.Shared.Chain.{
  Balances, MessageInfo, Response, SubMsg, succeeded, failed, bank_send, reply_always,
}
use bounties.Shared.Storage.{may_load, save}
use bounties.Dca.Types.{PostExecutionActionCacheEntry}
use bounties.Dca.Store.{Store, get_bounty, bounty_from, get_trigger, create_event}
use bounties.Dca.FailedAutomation.{
  Cache, destination_number, replied, handle_failed_automation_handler,
}
use bounties.Dca.FailedAutomation.Refunds.{AllRefunds, handle_replies, handle_replies_lem}
use bounties.Exchanges.Fin.Pairs.{Pair, Pairs, key_from, load, save_pair, find_pair}
use bounties.Exchanges.Fin.Pairs.Laws.{find_pair-save_pair}
use bounties.Exchanges.Fin.Swap.{ReturnCache, one_coin, swap_handler, return_swapped_funds}
use bounties.Tests.Fixtures.{api, env, coins, balances, bounty, store, from_ok, from_ok_lem}

abbrev pair : Pair
pair = record {
  base_denom = "ukuji";
  quote_denom = "uusk";
  address = "book";
  decimal_delta = 0;
  price_precision = 3;
}

abbrev pairs : Pairs
pairs = ("ukuji-uusk", pair) ∷ []

abbrev sender : MessageInfo
sender = record { sender = "dca"; funds = coins 100 "ukuji" ∷ [] }

-- 2100 uusk before, 3000 after
abbrev later : Balances
later = record { bank_balance = λ a denom. ok (coins 3000 denom); token_balance = λ token a. ok 0 }

swap_ok : is_ok (swap_handler api balances env pairs sender (coins 800 "uusk")) ≡ true
unfolding swap_handler one_coin find_pair load key_from query_balance
swap_ok = refl

abbrev swapping : Response × ReturnCache
swapping = from_ok (swap_handler api balances env pairs sender (coins 800 "uusk")) swap_ok

returned_ok : is_ok (return_swapped_funds later env (some swapping.1)) ≡ true
unfolding return_swapped_funds subtract swap_handler one_coin find_pair load key_from query_balance
    from_ok
returned_ok = refl

abbrev returning : Response
returning = from_ok (return_swapped_funds later env (some swapping.1)) returned_ok

find_pair-save_pair_example :
    (find_pair (save_pair pairs pair) ("ukuji", "uusk") ≡ ok pair)
    × (find_pair (save_pair pairs pair) ("uusk", "ukuji") ≡ ok pair)
    × ((ds : String × String)
        → key_from ds ≢ key_from ("ukuji", "uusk")
        → find_pair (save_pair pairs pair) ds ≡ find_pair pairs ds)
find_pair-save_pair_example = find_pair-save_pair pairs pair

abbrev payment : ℕ → PostExecutionActionCacheEntry
payment n = record {
  msg = reply_always (bank_send "alice" (coins n "uusk" ∷ [])) 3;
  funds = coins n "uusk" ∷ [];
}

abbrev cache : Cache
cache = payment 60 ∷ payment 40 ∷ []

abbrev disbursed : Store
disbursed = record store { post_execution_action_cache = (1, cache) ∷ [] }

replies_ok : is_ok (handle_replies api env disbursed (failed ∷ succeeded ∷ [])) ≡ true
unfolding handle_replies handle_failed_automation_handler get_bounty bounty_from get_trigger
    may_load destination_number replied into_bank_msg one_from create_event save
replies_ok = refl

abbrev replies : List SubMsg × Store
replies = from_ok (handle_replies api env disbursed (failed ∷ succeeded ∷ [])) replies_ok

handle_replies_example :
    (left : Cache) × AllRefunds bounty cache (failed ∷ succeeded ∷ []) replies.0 left
    × (may_load 1 replies.1.post_execution_action_cache ≡ some left)
    × (length left + 2 ≡ 2)
    × (replies.1.bounties ≡ disbursed.bounties)
unfolding get_bounty bounty_from get_trigger may_load
handle_replies_example =
    handle_replies_lem api env disbursed 1 bounty cache (failed ∷ succeeded ∷ []) replies.0
      replies.1 refl refl refl ((coins 60 "uusk", refl), ((coins 40 "uusk", refl), tt))
      (omega arith)
      (from_ok_lem (handle_replies api env disbursed (failed ∷ succeeded ∷ [])) replies_ok)
