-- ===== src/Dca/Create/Stored.antt =====
-- What contracts/dca/src/handlers/create_vault.rs stores for a new bounty.
use bounties.Prelude.{
  ℕ, ◌+◌, ◌≤◌, ◌≡◌, ◌⊎◌, inl, inr, refl, ap, Option, none, some, [], ◌∷◌, ◌==◌, if◌then◌else◌,
}
use bounties.Shared.Result.{ok, >>=-eq-ok, or_err-eq-ok}
use bounties.Shared.Arith.{Arith}
use bounties.Shared.Coin.{Coin}
use bounties.Shared.Storage.{save, may_load}
use bounties.Shared.Chain.{Api, Binary, Env, MessageInfo, Response}
use bounties.Dca.Types.{Bounty, Config, TriggerConfiguration, bounty_funds_deposited}
use bounties.Dca.Store.{Store, get_config, next_counter, save_bounty, update_bounty, create_event}
use bounties.Dca.Validation.Access.{assert_contract_is_not_paused}
use bounties.Dca.Validation.Addresses.{Callback, assert_address_is_valid}
use bounties.Dca.Validation.Terms.{IsValidTerms}
use bounties.Dca.Exchange.{Exchange}
use bounties.Dca.Deposit.{only_asset}
use bounties.Dca.Deposit.Added.{only_asset_lem}
use bounties.Dca.Execute.Handler.{IsRunning, running_lem}
use bounties.Dca.Create.{
  CreateBounty, or_default, or_owner, builder, event_amount, attach_trigger, check_destinations,
  check_terms, save_created, create_bounty_handler,
}
use bounties.Dca.Create.Terms.{IsChecked, check_terms_lem, shared_lem, or_owner_few, default_lem}
use bounties.Dca.Create.Attached.{
  with_amount, attach_trigger_lem, loaded_lem, same_default, IsStartedByTime, IsOrdered,
  IsOrdered-cong, same_exchange,
}

-- A new bounty.
pub record IsCreated (env : Env) (s : Store) (info : MessageInfo) (msg : CreateBounty)
    (r : Response) (s' : Store) : Type 0 where
  pub running : IsRunning s
  pub funds : Coin
  pub only : info.funds ≡ funds ∷ []
  pub checked : IsChecked env msg
  pub bounty : Bounty
  pub numbered : bounty.id ≡ next_counter s.bounty_counter
  pub counted : s'.bounty_counter ≡ some bounty.id
  pub config : s'.config ≡ s.config
  pub owner : bounty.owner ≡ msg.owner
  pub valid :
      running.config.default_slippage_tolerance ≤ 1000000000000000000
      → IsValidTerms bounty.destinations bounty.slippage_tolerance bounty.time_interval
  pub whole : bounty.deposited_amount ≡ bounty.balance
  pub stored :
      (k : ℕ)
      → may_load k s'.bounties ≡ (if k == bounty.id then some bounty else may_load k s.bounties)
  pub started :
      ((msg.target_receive_amount ≡ none)
        × (bounty.balance ≡ funds)
        × (s'.triggers
            ≡ save bounty.id
                (record {
                  bounty_id = bounty.id;
                  configuration =
                      TriggerConfiguration.time
                        (or_default msg.target_start_time_utc_seconds env.time);
                })
                s.triggers)
        × IsStartedByTime env bounty msg.target_start_time_utc_seconds r)
      ⊎ ((price : ℕ) × (msg.target_receive_amount ≡ some price)
          × (msg.target_start_time_utc_seconds ≡ none)
          × (bounty.balance.amount + 2 ≡ funds.amount)
          × (bounty.balance.denom ≡ funds.denom)
          × (s'.triggers ≡ s.triggers)
          × IsOrdered running.config.exchange_contract_address bounty.target_denom funds.denom
              msg.swap_amount price r)

module _ ⦃m : Arith⦄ (api : Api) (x : Exchange) (from_json : Binary → Option Callback)
    (env : Env) where
  pub create_bounty_lem :
      (s : Store) (info : MessageInfo) (msg : CreateBounty) (r : Response) (s' : Store)
      → create_bounty_handler api x from_json env s info msg ≡ ok (r, s')
      → IsCreated env s info msg r s'
  unfolding create_bounty_handler save_created save_bounty update_bounty create_event get_config
      builder
  create_bounty_lem s info msg r s' h =
      let (p1, e1, h1) = >>=-eq-ok (assert_contract_is_not_paused s) _ h in
      let (_, _, h2) = >>=-eq-ok (assert_address_is_valid api msg.owner "owner") _ h1 in
      let (funds, e3, h3) = >>=-eq-ok (only_asset info.funds) _ h2 in
      let (p4, e4, h4) = >>=-eq-ok (check_terms api x from_json env s msg funds) _ h3 in
      let (p5, e5, h5) =
        >>=-eq-ok (check_destinations api x from_json env (or_owner msg.owner msg.destinations)) _
          h4 in
      let (config, e6, h6) = >>=-eq-ok (get_config s) _ h5 in
      let (deposited, _, h7) = >>=-eq-ok (event_amount funds msg.target_receive_amount) _ h6 in
      created_as (running_lem s p1 e1) funds config deposited (only_asset_lem info.funds funds e3)
        (check_terms_lem api x from_json env s msg funds p4 e4) p5 e5
        (or_err-eq-ok s.config _ config e6) h7
    where
      created_as :
          (running : IsRunning s) (funds : Coin) (config : Config) (deposited : Coin)
          → info.funds ≡ funds ∷ []
          → IsChecked env msg
          → (p : Unit)
          → check_destinations api x from_json env (or_owner msg.owner msg.destinations) ≡ ok p
          → s.config ≡ some config
          → attach_trigger env config
              (create_event
                (record (save_bounty s
                  (builder env config msg (or_owner msg.owner msg.destinations) funds)).1 {
                    bounty_id_cache = some (next_counter s.bounty_counter);
                  })
                env
                (next_counter s.bounty_counter)
                (bounty_funds_deposited deposited))
              (save_bounty s (builder env config msg (or_owner msg.owner msg.destinations) funds)).0
              msg.swap_amount
              msg.target_start_time_utc_seconds
              msg.target_receive_amount
            ≡ ok (r, s')
          → IsCreated env s info msg r s'
      created_as running funds config deposited only checked p shared loaded g =
          let n = next_counter s.bounty_counter in
          let b = builder env config msg (or_owner msg.owner msg.destinations) funds in
          let numbered : Bounty = record b { id = n; trigger = none } in
          let t =
            attach_trigger_lem env config _ numbered msg.swap_amount
              msg.target_start_time_utc_seconds msg.target_receive_amount r s' refl g in
          record {
            running = running;
            funds = funds;
            only = only;
            checked = checked;
            bounty = with_amount numbered t.amount;
            numbered = refl;
            counted = t.counter;
            config = t.same_config;
            owner = refl;
            valid = λ low. record {
              shared =
                  shared_lem api x from_json env (or_owner msg.owner msg.destinations) p
                    (or_owner_few msg.owner msg.destinations checked.few) shared;
              tolerable =
                  default_lem msg.slippage_tolerance config.default_slippage_tolerance
                    checked.tolerable (same_default running config loaded low);
              long = checked.long;
            };
            whole = refl;
            stored = λ k. elim t.started [
              | inl (_, e, same, _, _) ↦
                  loaded_lem k n s.bounties s'.bounties numbered (with_amount numbered t.amount)
                    (inl (same, ap (λ (a : Coin). with_amount numbered a) e))
              | inr (_, _, _, _, _, same, _, _) ↦
                  loaded_lem k n s.bounties s'.bounties numbered (with_amount numbered t.amount)
                    (inr same)
            ];
            started = elim t.started [
              | inl (e, whole, _, saved, sends) ↦ inl (e, whole, saved, sends)
              | inr (price, e, f, amount, denom, _, kept, sends) ↦ inr (
                price,
                e,
                f,
                amount,
                denom,
                kept,
                IsOrdered-cong config.exchange_contract_address
                    running.config.exchange_contract_address msg.target_denom funds.denom
                    funds.denom msg.swap_amount price r (same_exchange running config loaded) refl
                    sends,
              )
            ];
          }
