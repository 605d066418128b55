-- ===== src/Dca/Machine/Ledger.antt =====
-- What holds in every store that contracts/dca/src/contract.rs can come to.
use bounties.Prelude.{ℕ, ◌≡◌, refl, sym, ◌∙◌, String, Option, some, [], arith}
use bounties.Shared.Result.{ok, >>=-eq-ok, or_err-eq-ok}
use bounties.Shared.Arith.{Arith}
use bounties.Shared.Chain.{Addr, Api, Binary, Body, Response}
use bounties.Shared.Storage.{may_load}
use bounties.Dca.Types.{Bounty, Config, SwapAdjustmentStrategy}
use bounties.Dca.Store.{Store, get_config, update_config}
use bounties.Dca.Time.{Calendar}
use bounties.Dca.Validation.Addresses.{Callback}
use bounties.Dca.Config.{check_config, instantiate_handler}
use bounties.Dca.Config.Valid.{IsValidConfig, instantiate_lem, migrate_lem, update_config_lem}
use bounties.Dca.Create.Stored.{create_bounty_lem}
use bounties.Dca.Execute.Handler.{execute_trigger_lem}
use bounties.Dca.Update.{Value}
use bounties.Dca.Update.Terms.{update_bounty_lem}
use bounties.Dca.Cancel.Refund.{cancel_bounty_lem}
use bounties.Dca.Machine.{fresh, Step, Reachable}
use bounties.Dca.Machine.Stems.{IsLedger, IsLedger-same}
use bounties.Dca.Machine.Steps.{
  updated-IsLedger, cancelled-IsLedger, executed-IsLedger, deposited-IsLedger,
}
use bounties.Dca.Machine.Payments.{disburse_funds-KeepsLedger, disburse_escrow-KeepsLedger}
use bounties.Dca.Machine.Replies.{automation-KeepsLedger, adjusted-KeepsLedger, created-IsLedger}

-- A configuration within all limits; every bounty under its own number, with at most ten
-- destinations that share exactly one, a slippage tolerance of at most one and no custom interval
-- below a minute.
pub record IsSound (api : Api) (s : Store) : Type 0 where
  pub config : Config
  pub loaded : s.config ≡ some config
  pub valid : IsValidConfig api config
  pub ledger : IsLedger s.bounties

with_config :
    (api : Api) (s s' : Store)
    → IsSound api s
    → IsLedger s'.bounties
    → s'.config ≡ s.config
    → IsSound api s'
with_config api s s' sound ledger config = record {
  config = sound.config;
  loaded = config ∙ sound.loaded;
  valid = sound.valid;
  ledger = ledger;
}

pub config_lem : (s : Store) (config : Config) → get_config s ≡ ok config → s.config ≡ some config
unfolding get_config
config_lem s config h = or_err-eq-ok s.config _ config h

pub loaded_lem : (s : Store) (config : Config) → s.config ≡ some config → get_config s ≡ ok config
unfolding get_config
loaded_lem s config h = rw h refl

empty-IsLedger : IsLedger []
unfolding may_load
empty-IsLedger k b h = cc

nothing_stored :
    ⦃m : Arith⦄ (api : Api) (config : Config) (r : Response) (s : Store)
    → instantiate_handler api fresh config ≡ ok (r, s)
    → s.bounties ≡ fresh.bounties
unfolding instantiate_handler update_config
nothing_stored api config r s h =
    let (_, _, h1) = >>=-eq-ok (api.addr_validate config.admin) _ h in
    let (_, _, h2) = >>=-eq-ok (check_config api config) _ h1 in ground arith

module _ ⦃m : Arith⦄ (cal : Calendar) (api : Api) (hash : SwapAdjustmentStrategy → ℕ)
    (to_json_binary : Body → Binary) (from_json : Binary → Option Callback)
    (format : Value → String) (destination : Bounty → Addr) where
  -- Every accepted message and reply keeps the configuration and the bounties sound.
  pub Step-IsSound :
      (s : Store) (r : Response) (s' : Store)
      → IsSound api s
      → Step cal api hash to_json_binary from_json format destination s r s'
      → IsSound api s'
  Step-IsSound s r s' sound (Step.created env x info msg _ _ _ h) =
      let done = create_bounty_lem api x from_json env s info msg r s' h in
      let same : some done.running.config ≡ some sound.config =
        sym done.running.loaded ∙ sound.loaded in
      let equal : done.running.config ≡ sound.config = cc in
      with_config api s s' sound
        (created-IsLedger env s info msg r s' done (done.valid (rw equal sound.valid.slippage))
          sound.ledger)
        done.config
  Step-IsSound s r s' sound (Step.updated env info id msg _ _ _ h) =
      let done = update_bounty_lem format cal api env s info id msg r s' h in
      with_config api s s' sound (updated-IsLedger s id info.sender s' done sound.ledger)
        done.config
  Step-IsSound s r s' sound (Step.cancelled env info id _ _ _ h) =
      let done = cancel_bounty_lem cal destination env s info id r s' h in
      with_config api s s' sound
        (cancelled-IsLedger destination s info.sender id r s' done sound.ledger) done.kept
  Step-IsSound s r s' sound (Step.deposited env info address id _ _ _ h) =
      let (ledger, config) = deposited-IsLedger cal api env s info address id r s' h sound.ledger in
      with_config api s s' sound ledger config
  Step-IsSound s r s' sound (Step.executed env q x id route _ _ _ h) =
      let (ledger, config) =
        executed-IsLedger cal api q x hash to_json_binary env s id r s'
          (execute_trigger_lem cal api q x hash to_json_binary env s id route r s' h)
          sound.ledger in
      with_config api s s' sound ledger config
  Step-IsSound s r s' sound (Step.swapped env q reply _ _ _ h) =
      let (ledger, config) = disburse_funds-KeepsLedger api q env s reply r s' h sound.ledger in
      with_config api s s' sound ledger config
  Step-IsSound s r s' sound (Step.escrow_disbursed env twap info id _ _ _ h) =
      let (ledger, config) =
        disburse_escrow-KeepsLedger api twap env s info id r s' h sound.ledger in
      with_config api s s' sound ledger config
  Step-IsSound s r s' sound (Step.automation_replied env reply _ _ _ h) =
      let (ledger, config) = automation-KeepsLedger api env s reply r s' h sound.ledger in
      with_config api s s' sound ledger config
  Step-IsSound s r s' sound (Step.adjusted env debug info strategy value _ _ _ h) =
      let (ledger, config) =
        adjusted-KeepsLedger hash debug env s info strategy value r s' h sound.ledger in
      with_config api s s' sound ledger config
  Step-IsSound s r s' sound (Step.configured info update _ _ _ h) =
      let (_, new, stored, _, valid, kept) =
        update_config_lem api s info update sound.config r s'
          (loaded_lem s sound.config sound.loaded) h in
      record {
        config = new;
        loaded = config_lem s' _ stored;
        valid = valid;
        ledger = IsLedger-same s.bounties s'.bounties sound.ledger kept;
      }
  Step-IsSound s r s' sound (Step.migrated found version msg _ _ _ h) =
      let (valid, stored, kept) = migrate_lem api found version s msg r s' h in
      record {
        config = msg;
        loaded = config_lem s' _ stored;
        valid = valid;
        ledger = IsLedger-same s.bounties s'.bounties sound.ledger kept;
      }

  -- Whatever messages and replies the contract takes after its instantiation, in whatever order,
  -- its configuration is within all limits, and every bounty is stored under its own number and
  -- has valid terms: at most ten destinations that share exactly one, a slippage tolerance of at
  -- most one and no custom interval below a minute.
  pub Reachable-IsSound :
      (s : Store)
      → Reachable cal api hash to_json_binary from_json format destination s
      → IsSound api s
  Reachable-IsSound s (Reachable.instantiated config r _ h) =
      let (valid, stored) = instantiate_lem api fresh config r s h in
      record {
        config = config;
        loaded = config_lem s config stored;
        valid = valid;
        ledger =
            IsLedger-same fresh.bounties s.bounties empty-IsLedger
              (nothing_stored api config r s h);
      }
  Reachable-IsSound s (Reachable.after before r _ reached step) =
      Step-IsSound before r s (Reachable-IsSound before reached) step
