-- ===== src/Dca/FailedAutomation/Refunds.antt =====
-- The replies to the messages of a disbursement use up its cache, and refund what failed.
use bounties.Prelude.{
  ℕ, ◌+◌, ◌≤◌, ◌≡◌, refl, ap, ◌∙◌, some, List, [], ◌∷◌, ◌++◌, All, arith, length,
}
use bounties.Shared.Result.{Result, ok, or_err, ◌>>=◌, >>=-eq-ok, go_on}
use bounties.Shared.Coin.{Coin}
use bounties.Shared.Chain.{
  Api, Env, CosmosMsg, Response, SubMsgResult, succeeded, failed, sub_msg, SubMsg,
}
use bounties.Shared.Cw20.{into_bank_msg}
use bounties.Shared.Cw20.Laws.{payee, paid, into_bank_msg_pays}
use bounties.Shared.Storage.{may_load, save}
use bounties.Shared.Storage.Laws.{may_load-save}
use bounties.Dca.Types.{Bounty, PostExecutionActionCacheEntry}
use bounties.Dca.Store.{Store, get_bounty, bounty_from, get_trigger, create_event, not_found}
use bounties.Dca.FailedAutomation.{
  Cache, destination_number, replied, handle_failed_automation_handler,
}

-- What the reply to a payment sends: nothing after a success, the funds to the owner after a failure.
pub data Refunds (b : Bounty) (c : Coin) : SubMsgResult → List SubMsg → Type 0 where
  kept : Refunds b c succeeded []
  refunded :
      (msg : CosmosMsg)
      → payee msg ≡ b.owner
      → paid msg ≡ c ∷ []
      → Refunds b c failed (sub_msg msg ∷ [])

-- The replies to the first entries of a cache, what they send, and the entries that are left.
pub data AllRefunds (b : Bounty) : Cache → List SubMsgResult → List SubMsg → Cache → Type 0 where
  done : (cache : Cache) → AllRefunds b cache [] [] cache
  next :
      (entry : PostExecutionActionCacheEntry) (c : Coin) (rest left : Cache) (r : SubMsgResult)
      (replies : List SubMsgResult) (first msgs : List SubMsg)
      → entry.funds ≡ c ∷ []
      → Refunds b c r first
      → AllRefunds b rest replies msgs left
      → AllRefunds b (entry ∷ rest) (r ∷ replies) (first ++ msgs) left

abbrev pub HasOneCoin : PostExecutionActionCacheEntry → Type 0
HasOneCoin entry = (c : Coin) × (entry.funds ≡ c ∷ [])

-- What a reply leaves as it was.
record Kept (s s' : Store) : Type 0 where
  bounties : s'.bounties ≡ s.bounties
  triggers : s'.triggers ≡ s.triggers
  bounty_id : s'.bounty_id_cache ≡ s.bounty_id_cache

module _ (api : Api) (env : Env) where
  -- The chain hands over the replies one after the other.
  unfoldable pub handle_replies : Store → List SubMsgResult → Result (List SubMsg × Store)
  handle_replies s [] = ok ([], s)
  handle_replies s (r ∷ replies) = handle_failed_automation_handler api env s r >>= λ first.
      handle_replies first.1 replies >>= λ later. ok (first.0.messages ++ later.0, later.1)

  replied_lem :
      (s : Store) (id : ℕ) (b : Bounty) (entry : PostExecutionActionCacheEntry) (c : Coin) (n : ℕ)
      (reply : SubMsgResult) (resp : Response) (s' : Store)
      → entry.funds ≡ c ∷ []
      → replied api env s id b entry n reply ≡ ok (resp, s')
      → Refunds b c reply resp.messages
        × (s'.post_execution_action_cache ≡ s.post_execution_action_cache)
        × Kept s s'
  unfolding replied create_event
  replied_lem s id b entry c n succeeded resp s' one h =
      let none_sent : resp.messages ≡ [] = ground arith in
      (
        rw none_sent Refunds.kept,
        ground arith,
        record { bounties = ground arith; triggers = ground arith; bounty_id = ground arith },
      )
  replied_lem s id b entry c n failed resp s' one h =
      let (msg, e, g) = >>=-eq-ok (into_bank_msg api b.owner entry.funds) _ h in
      let pays = into_bank_msg_pays api b.owner c msg (rw one at e) in
      let sent : resp.messages ≡ sub_msg msg ∷ [] = ground arith in
      (
        rw sent (Refunds.refunded msg pays.0 pays.1),
        ground arith,
        record { bounties = ground arith; triggers = ground arith; bounty_id = ground arith },
      )

  same_bounty :
      (s s' : Store) (id : ℕ) (b : Bounty)
      → Kept s s'
      → get_bounty s id ≡ ok b
      → get_bounty s' id ≡ ok b
  unfolding get_bounty bounty_from get_trigger
  same_bounty s s' id b k h = rw (k.bounties, k.triggers) h

  -- The first entry of the cache is used up, and refunded to the owner if its message failed.
  reply_lem :
      (s : Store) (id : ℕ) (b : Bounty) (entry : PostExecutionActionCacheEntry) (rest : Cache)
      (c : Coin) (reply : SubMsgResult) (resp : Response) (s' : Store)
      → s.bounty_id_cache ≡ some id
      → get_bounty s id ≡ ok b
      → may_load id s.post_execution_action_cache ≡ some (entry ∷ rest)
      → entry.funds ≡ c ∷ []
      → handle_failed_automation_handler api env s reply ≡ ok (resp, s')
      → Refunds b c reply resp.messages
        × (may_load id s'.post_execution_action_cache ≡ some rest)
        × Kept s s'
  unfolding handle_failed_automation_handler
  reply_lem s id b entry rest c reply resp s' cached got entries one h =
      let h1 = go_on (or_err s.bounty_id_cache (not_found "Uint128")) _ id (rw cached refl) h in
      let h2 = go_on (get_bounty s id) _ b got h1 in
      let h3 =
        go_on
          (or_err (may_load id s.post_execution_action_cache)
            (not_found "VecDeque<PostExecutionActionCacheEntry>"))
          _ (entry ∷ rest) (rw entries refl) h2 in
      let (n, _, h4) = >>=-eq-ok (destination_number b rest) _ h3 in
      let popped : Store = record s {
        post_execution_action_cache = save id rest s.post_execution_action_cache;
      } in
      let (refund, cache, unchanged) = replied_lem popped id b entry c n reply resp s' one h4 in
      (
        refund,
        rw (cache, may_load-save) (ground arith),
        record {
          bounties = unchanged.bounties;
          triggers = unchanged.triggers;
          bounty_id = unchanged.bounty_id;
        },
      )

  -- For a bounty whose id and cache of messages are stored, each entry with the funds of one coin:
  -- when replies to at most as many messages as the cache has entries are handled one after the
  -- other, they use up the entries in the order of the messages. A success sends nothing, and a
  -- failure pays exactly the entry's coin to the owner of the bounty. The entries without a reply
  -- are left, and no bounty changes.
  pub handle_replies_lem :
      (s : Store) (id : ℕ) (b : Bounty) (cache : Cache) (replies : List SubMsgResult)
      (msgs : List SubMsg) (s' : Store)
      → s.bounty_id_cache ≡ some id
      → get_bounty s id ≡ ok b
      → may_load id s.post_execution_action_cache ≡ some cache
      → All HasOneCoin cache
      → length replies ≤ length cache
      → handle_replies s replies ≡ ok (msgs, s')
      → (left : Cache) × AllRefunds b cache replies msgs left
        × (may_load id s'.post_execution_action_cache ≡ some left)
        × (length left + length replies ≡ length cache)
        × (s'.bounties ≡ s.bounties)
  unfolding handle_replies
  handle_replies_lem s id b cache [] msgs s' cached got entries ones few h =
      let sent : msgs ≡ [] = ground arith in
      let same : s' ≡ s = ground arith in
      (
        cache,
        rw sent (AllRefunds.done cache),
        rw same entries,
        omega arith,
        ap (λ (x : Store). x.bounties) same,
      )
  handle_replies_lem s id b [] (r ∷ replies) msgs s' cached got entries ones few h = ground arith
  handle_replies_lem s id b (entry ∷ rest) (r ∷ replies) msgs s' cached got entries ones few h =
      let (first, e1, h1) = >>=-eq-ok (handle_failed_automation_handler api env s r) _ h in
      let (later, e2, h2) = >>=-eq-ok (handle_replies first.1 replies) _ h1 in
      let (refund, cache, unchanged) =
        reply_lem s id b entry rest ones.0.0 r first.0 first.1 cached got entries ones.0.1 e1 in
      let (left, all, last, count, same) =
        handle_replies_lem first.1 id b rest replies later.0 later.1 (unchanged.bounty_id ∙ cached)
          (same_bounty s first.1 id b unchanged got) cache ones.1 (omega (arith, few)) e2 in
      let sent : msgs ≡ first.0.messages ++ later.0 = ground arith in
      let end : s' ≡ later.1 = ground arith in
      (
        left,
        rw sent (
            AllRefunds.next entry ones.0.0 rest left r replies first.0.messages later.0 ones.0.1
              refund all),
        rw end last,
        omega (arith, count),
        ap (λ (x : Store). x.bounties) end ∙ (same ∙ unchanged.bounties),
      )
