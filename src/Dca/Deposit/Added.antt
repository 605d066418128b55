-- ===== src/Dca/Deposit/Added.antt =====
-- What contracts/dca/src/handlers/deposit.rs does to a bounty.
use bounties.Prelude.{
  ℕ, ◌+◌, ◌≡◌, ap, ◌∙◌, String, Bool, false, not, Option, none, some, List, [], ◌∷◌, ◌&&◌, arith,
  str_eq, eq_iff, if◌then◌else◌, Bool-cases, inl, inr,
}
use bounties.Shared.Result.{ContractError, panic, ok, or_err, fail_if, >>=-eq-ok, go_on}
use bounties.Shared.Arith.{Arith}
use bounties.Shared.Coin.{Coin, add}
use bounties.Shared.Chain.{Addr, Api, Env, MessageInfo, Response}
use bounties.Shared.Storage.{may_load}
use bounties.Shared.Storage.Laws.{may_load-save}
use bounties.Dca.Types.{
  Bounty, BountyStatus, SwapAdjustmentStrategy, bounty_funds_deposited, is_active, is_inactive,
  is_cancelled,
}
use bounties.Dca.Store.{Store, get_bounty, update_bounty, bounty_data, create_event, save_trigger}
use bounties.Dca.Time.{Calendar, get_next_target_time}
use bounties.Dca.Validation.Access.{
  assert_contract_is_not_paused, assert_bounty_is_not_cancelled,
  assert_deposited_denom_matches_send_denom,
}
use bounties.Dca.Deposit.{
  only_asset, adjusted_strategy, is_none, with_deposit, restart, accepted, deposit_handler,
}

-- The accounts and the status of a bounty after a deposit.
pub record HasDeposit (b : Bounty) (c : Coin) (b' : Bounty) : Type 0 where
  pub balance : b'.balance.amount ≡ b.balance.amount + c.amount
  pub deposited : b'.deposited_amount.amount ≡ b.deposited_amount.amount + c.amount
  pub status : b'.status ≡ (if is_inactive b then BountyStatus.active else b.status)
  pub same_id : b'.id ≡ b.id
  pub same_owner : b'.owner ≡ b.owner

pub only_asset_lem : (funds : List Coin) (c : Coin) → only_asset funds ≡ ok c → funds ≡ c ∷ []
unfolding only_asset
only_asset_lem [] c h = cc
only_asset_lem (a ∷ []) c h = ground arith
only_asset_lem (a ∷ b ∷ rest) c h = cc

owns : (a b : Addr) (e : ContractError) → fail_if (not (str_eq a b)) e ≡ ok tt → a ≡ b
owns a b e h = ground (arith, eq_iff a b)

not_cancelled : (b : Bounty) → assert_bounty_is_not_cancelled b ≡ ok tt → is_cancelled b ≡ false
unfolding assert_bounty_is_not_cancelled
not_cancelled b h = ground arith

same_denom : (a b : String) → assert_deposited_denom_matches_send_denom a b ≡ ok tt → a ≡ b
unfolding assert_deposited_denom_matches_send_denom
same_denom a b h = ground (arith, eq_iff a b)

settled :
    (b : Bounty) (c : Coin) (b' : Bounty) (balance deposited : Coin)
    (strategy : Option SwapAdjustmentStrategy)
    → balance.amount ≡ b.balance.amount + c.amount
    → deposited.amount ≡ b.deposited_amount.amount + c.amount
    → ok (record b {
      balance = balance;
      deposited_amount = deposited;
      status = if is_inactive b then BountyStatus.active else b.status;
      swap_adjustment_strategy = strategy;
    })
      ≡ ok b'
    → HasDeposit b c b'
settled b c b' balance deposited strategy e f h = record {
  balance = ground arith;
  deposited = ground arith;
  status = ground arith;
  same_id = ground arith;
  same_owner = ground arith;
}

stored_deposit :
    (s : Store) (env : Env) (b b' : Bounty) (mid : Store) (c : Coin)
    → b'.id ≡ b.id
    → mid.bounties
      ≡ (create_event (update_bounty s b') env b'.id (bounty_funds_deposited c)).bounties
    → may_load b.id mid.bounties ≡ some (bounty_data b')
unfolding create_event update_bounty
stored_deposit s env b b' mid c same e = rw (e, may_load-save) (ground (arith, same))

deposited_response :
    (b' : Bounty) (c : Coin) (mid : Store) (resp : Response) (s' : Store)
    → accepted b' c mid ≡ ok (resp, s')
    → (s' ≡ mid) × (resp.messages ≡ [])
deposited_response b' c mid resp s' h = (ground arith, ground arith)

module _ (cal : Calendar) where
  pub restart_keeps :
      (env : Env) (s : Store) (id : ℕ) (b : Bounty) (was : Bool) (s' : Store)
      → restart cal env s id b was ≡ ok s'
      → (s'.bounties ≡ s.bounties) × (s'.config ≡ s.config)
  unfolding restart save_trigger
  restart_keeps env s id b was s' h =
      elim (Bool-cases (is_active b && (was && is_none b.trigger))) [
        | inl again ↦
            let (target, _, g) =
              >>=-eq-ok
                (or_err
                  (get_next_target_time cal env.time
                    (elim b.started_at [ none ↦ env.time | some t ↦ t ]) b.time_interval)
                  panic)
                _ (rw again at h) in
            (ground arith, ground arith)
        | inr going ↦ let same : ok s ≡ ok s' = rw going at h in (ground arith, ground arith)
      ]

  module _ ⦃m : Arith⦄ (api : Api) (env : Env) where
    add_amount : (a c d : Coin) → add a c ≡ ok d → d.amount ≡ a.amount + c.amount
    unfolding add
    add_amount a c d h = ground (arith, m.add_lem a.amount c.amount)

    with_deposit_lem :
        (b : Bounty) (c : Coin) (b' : Bounty)
        → with_deposit cal api env b c ≡ ok b'
        → HasDeposit b c b'
    unfolding with_deposit
    with_deposit_lem b c b' h =
        let (balance, e1, h1) = >>=-eq-ok (add b.balance c) _ h in
        let (deposited, e2, h2) = >>=-eq-ok (add b.deposited_amount c) _ h1 in
        let (strategy, _, h3) =
          >>=-eq-ok (adjusted_strategy cal env.time balance b b.swap_adjustment_strategy) _ h2 in
        let total = add_amount b.balance c balance e1 in
        let whole = add_amount b.deposited_amount c deposited e2 in
        settled b c b' balance deposited strategy total whole h3

    -- A call of deposit_handler that succeeds on a stored bounty brings exactly one coin, in the
    -- denomination of the balance, names the owner of the bounty, and finds it not cancelled. The
    -- balance and the deposited amount of the stored bounty grow by exactly the coin, it is active
    -- if it was inactive and keeps its status otherwise, and nothing is sent.
    pub deposit_lem :
        (s : Store) (info : MessageInfo) (address : Addr) (b : Bounty) (resp : Response)
        (s' : Store)
        → get_bounty s b.id ≡ ok b
        → deposit_handler cal api env s info address b.id ≡ ok (resp, s')
        → (c : Coin) × (b' : Bounty) × (info.funds ≡ c ∷ [])
          × (address ≡ b.owner)
          × (is_cancelled b ≡ false)
          × (c.denom ≡ b.balance.denom)
          × HasDeposit b c b'
          × (may_load b.id s'.bounties ≡ some (bounty_data b'))
          × (resp.messages ≡ [])
    unfolding deposit_handler
    deposit_lem s info address b resp s' got h =
        let (_, _, h0) = >>=-eq-ok (assert_contract_is_not_paused s) _ h in
        let (_, _, h1) = >>=-eq-ok (api.addr_validate address) _ h0 in
        let (c, one, h2) = >>=-eq-ok (only_asset info.funds) _ h1 in
        let h3 = go_on (get_bounty s b.id) _ b got h2 in
        let (_, owner, h4) = >>=-eq-ok (fail_if (not (str_eq address b.owner)) _) _ h3 in
        let (_, live, h5) = >>=-eq-ok (assert_bounty_is_not_cancelled b) _ h4 in
        let (_, denom, h6) =
          >>=-eq-ok (assert_deposited_denom_matches_send_denom c.denom b.balance.denom) _ h5 in
        let (b', made, h7) = >>=-eq-ok (with_deposit cal api env b c) _ h6 in
        let (mid, restarted, h8) =
          >>=-eq-ok
            (restart cal env
              (create_event (update_bounty s b') env b'.id (bounty_funds_deposited c)) b.id b'
              (is_inactive b))
            _ h7 in
        let has = with_deposit_lem b c b' made in
        let (kept, _) = restart_keeps env _ b.id b' (is_inactive b) mid restarted in
        let stored = stored_deposit s env b b' mid c has.same_id kept in
        let (done, sent) = deposited_response b' c mid resp s' h8 in
        (
          c,
          b',
          only_asset_lem info.funds c one,
          owns address b.owner _ owner,
          not_cancelled b live,
          same_denom c.denom b.balance.denom denom,
          has,
          ap (λ (x : Store). may_load b.id x.bounties) done ∙ stored,
          sent,
        )
