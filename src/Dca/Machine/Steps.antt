-- ===== src/Dca/Machine/Steps.antt =====
-- Each handler of contracts/dca/src/handlers keeps the bounties under their own numbers, with valid
-- terms.
use bounties.Prelude.{ℕ, ◌≡◌, ◌⊎◌, inl, inr, ap, sym, ◌∙◌, not, arith, str_eq}
use bounties.Shared.Result.{ok, fail_if, >>=-eq-ok, ok-eq}
use bounties.Shared.Arith.{Arith}
use bounties.Shared.Coin.{Coin, add}
use bounties.Shared.Storage.{Storage, save}
use bounties.Shared.Chain.{Addr, Api, Balances, Binary, Body, Env, MessageInfo, Response}
use bounties.Dca.Types.{Bounty, SwapAdjustmentStrategy, bounty_funds_deposited, is_inactive}
use bounties.Dca.Store.{Store, get_bounty, bounty_from, bounty_data, update_bounty, create_event}
use bounties.Dca.Time.{Calendar}
use bounties.Dca.Validation.Access.{
  assert_contract_is_not_paused, assert_bounty_is_not_cancelled,
  assert_deposited_denom_matches_send_denom,
}
use bounties.Dca.Exchange.{Exchange}
use bounties.Dca.Execute.{finished}
use bounties.Dca.Execute.Handler.{IsTriggered}
use bounties.Dca.Execute.Again.{get_bounty_lem}
use bounties.Dca.Deposit.{
  only_asset, adjusted_strategy, with_deposit, restart, accepted, deposit_response, deposit_handler,
}
use bounties.Dca.Deposit.Added.{restart_keeps}
use bounties.Dca.Update.Terms.{IsUpdated}
use bounties.Dca.Cancel.Refund.{IsCancelled, without_balance}
use bounties.Dca.Machine.Stems.{
  IsEntry, IsLedger, IsLedger-save, IsLedger-same, HasSameTerms, IsEntry-cong,
}

pub entry_lem :
    (s : Store) (id : ℕ) (b : Bounty) → IsLedger s.bounties → get_bounty s id ≡ ok b → IsEntry id b
unfolding bounty_from
entry_lem s id b ledger h =
    let (found, e, same) = get_bounty_lem s id b h in
    IsEntry-cong id found b
      (record {
        id = ap (λ (c : Bounty). c.id) same;
        destinations = ap (λ (c : Bounty). c.destinations) same;
        tolerance = ap (λ (c : Bounty). c.slippage_tolerance) same;
        interval = ap (λ (c : Bounty). c.time_interval) same;
      })
      (ledger id found e)

pub saved_entry :
    (m m' : Storage Bounty) (k j : ℕ) (c : Bounty)
    → IsLedger m
    → j ≡ k
    → IsEntry k c
    → m' ≡ save j (bounty_data c) m
    → IsLedger m'
unfolding bounty_data
saved_entry m m' k j c ledger key entry e =
    IsLedger-save m m' k (bounty_data c) ledger entry
      (e ∙ ap (λ (i : ℕ). save i (bounty_data c) m) key)

maybe_saved :
    (m m' : Storage Bounty) (k : ℕ) (c : Bounty)
    → IsLedger m
    → IsEntry k c
    → (m' ≡ m) ⊎ (m' ≡ save c.id (bounty_data c) m)
    → IsLedger m'
maybe_saved m m' k c ledger entry (inl e) = IsLedger-same m m' ledger e
maybe_saved m m' k c ledger entry (inr e) = saved_entry m m' k c.id c ledger entry.0 entry e

pub updated-IsLedger :
    (s : Store) (id : ℕ) (sender : Addr) (s' : Store)
    → IsUpdated s id sender s'
    → IsLedger s.bounties
    → IsLedger s'.bounties
updated-IsLedger s id sender s' u ledger =
    let (own, valid) = entry_lem s id u.old ledger u.found in
    saved_entry s.bounties s'.bounties id u.old.id u.new ledger own
      (ap (λ (c : Bounty). c.id) u.same ∙ own, u.valid valid) u.stored

pub cancelled-IsLedger :
    (destination : Bounty → Addr) (s : Store) (sender : Addr) (id : ℕ) (r : Response) (s' : Store)
    → IsCancelled destination s sender id r s'
    → IsLedger s.bounties
    → IsLedger s'.bounties
cancelled-IsLedger destination s sender id r s' u ledger =
    let (own, valid) = entry_lem s id u.bounty ledger u.found in
    saved_entry s.bounties s'.bounties id u.bounty.id (without_balance u.bounty) ledger own
      (own, valid) u.stored

module _ ⦃m : Arith⦄ (cal : Calendar) (api : Api) (q : Balances) (x : Exchange)
    (hash : SwapAdjustmentStrategy → ℕ) (to_json_binary : Body → Binary) (env : Env) where
  pub executed-IsLedger :
      (s : Store) (id : ℕ) (r : Response) (s' : Store)
      → IsTriggered cal api q x hash to_json_binary env s id r s'
      → IsLedger s.bounties
      → IsLedger s'.bounties × (s'.config ≡ s.config)
  unfolding finished
  executed-IsLedger s id r s' done ledger =
      let ran = done.executed in
      let begun = done.begun in
      let entry = entry_lem s id done.bounty ledger done.found in
      let first =
        IsEntry-cong id done.bounty done.started
          (record {
            id = ap (λ (c : Bounty). c.id) begun.same;
            destinations = ap (λ (c : Bounty). c.destinations) begun.same;
            tolerance = ap (λ (c : Bounty). c.slippage_tolerance) begun.same;
            interval = ap (λ (c : Bounty). c.time_interval) begun.same;
          })
          entry in
      let second =
        IsEntry-cong id done.started ran.after
          (record {
            id = ap (λ (c : Bounty). c.id) ran.simulated.same;
            destinations = ap (λ (c : Bounty). c.destinations) ran.simulated.same;
            tolerance = ap (λ (c : Bounty). c.slippage_tolerance) ran.simulated.same;
            interval = ap (λ (c : Bounty). c.time_interval) ran.simulated.same;
          })
          first in
      let one =
        maybe_saved s.bounties done.between.bounties id done.started ledger first begun.stored in
      let two =
        maybe_saved done.between.bounties ran.between.bounties id ran.after one second
          ran.simulated.stored in
      elim ran.outcome [
        | inl on ↦ (
          IsLedger-same ran.between.bounties s'.bounties two (on.kept.bounties ∙ on.next.bounties),
          on.kept.config ∙ on.next.config ∙ ran.simulated.config ∙ begun.config,
        )
        | inr over ↦ (
          IsLedger-same ran.between.bounties s'.bounties two
              (ap (λ (p : Response × Store). p.1.bounties) over.response),
          ap (λ (p : Response × Store). p.1.config) over.response
              ∙ ran.simulated.config
              ∙ begun.config,
        )
      ]

module _ ⦃m : Arith⦄ (cal : Calendar) (api : Api) (env : Env) where
  with_deposit-HasSameTerms :
      (b : Bounty) (c : Coin) (b' : Bounty)
      → with_deposit cal api env b c ≡ ok b'
      → HasSameTerms b b'
  unfolding with_deposit
  with_deposit-HasSameTerms b c b' h =
      let (balance, _, h1) = >>=-eq-ok (add b.balance c) _ h in
      let (deposited, _, h2) = >>=-eq-ok (add b.deposited_amount c) _ h1 in
      let (strategy, _, h3) =
        >>=-eq-ok (adjusted_strategy cal env.time balance b b.swap_adjustment_strategy) _ h2 in
      record {
        id = ground arith;
        destinations = ground arith;
        tolerance = ground arith;
        interval = ground arith;
      }

  pub deposited-IsLedger :
      (s : Store) (info : MessageInfo) (address : Addr) (id : ℕ) (r : Response) (s' : Store)
      → deposit_handler cal api env s info address id ≡ ok (r, s')
      → IsLedger s.bounties
      → IsLedger s'.bounties × (s'.config ≡ s.config)
  unfolding deposit_handler create_event update_bounty
  deposited-IsLedger s info address id r s' h ledger =
      let (_, _, h0) = >>=-eq-ok (assert_contract_is_not_paused s) _ h in
      let (_, _, h1) = >>=-eq-ok (api.addr_validate address) _ h0 in
      let (c, _, h2) = >>=-eq-ok (only_asset info.funds) _ h1 in
      let (b, found, h3) = >>=-eq-ok (get_bounty s id) _ h2 in
      let (_, _, h4) = >>=-eq-ok (fail_if (not (str_eq address b.owner)) _) _ h3 in
      let (_, _, h5) = >>=-eq-ok (assert_bounty_is_not_cancelled b) _ h4 in
      let (_, _, h6) =
        >>=-eq-ok (assert_deposited_denom_matches_send_denom c.denom b.balance.denom) _ h5 in
      let (b', made, h7) = >>=-eq-ok (with_deposit cal api env b c) _ h6 in
      let (mid, restarted, h8) =
        >>=-eq-ok
          (restart cal env (create_event (update_bounty s b') env b'.id (bounty_funds_deposited c))
            id b' (is_inactive b))
          _ h7 in
      stored b b' c mid (entry_lem s id b ledger found) (with_deposit-HasSameTerms b c b' made)
        (restart_keeps cal env _ id b' (is_inactive b) mid restarted) h8
    where
      stored :
          (b b' : Bounty) (c : Coin) (mid : Store)
          → IsEntry id b
          → HasSameTerms b b'
          → (mid.bounties ≡ save b'.id (bounty_data b') s.bounties) × (mid.config ≡ s.config)
          → accepted b' c mid ≡ ok (r, s')
          → IsLedger s'.bounties × (s'.config ≡ s.config)
      stored b b' c mid entry same (kept, config) g =
          let end : mid ≡ s' =
            ap (λ (p : Response × Store). p.1) (ok-eq (deposit_response b' c mid) (r, s') g) in
          (
            saved_entry s.bounties s'.bounties id b'.id b' ledger (same.id ∙ entry.0)
                (IsEntry-cong id b b' same entry) (ap (λ (t : Store). t.bounties) (sym end) ∙ kept),
            ap (λ (t : Store). t.config) (sym end) ∙ config,
          )
