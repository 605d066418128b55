-- ===== src/Dca/Cancel/Refund.antt =====
-- What contracts/dca/src/handlers/cancel_vault.rs pays back, and what is left of the bounty.
use bounties.Prelude.{
  ℕ, ◌<◌, ◌≡◌, ◌⊎◌, refl, none, [], ◌∷◌, inl, inr, ap, sym, ◌∙◌, true, false, not, ◌&&◌, Option,
  some, List, ◌++◌, arith, ltb, Bool-cases, str_eq, eq_iff,
}
use bounties.Shared.Result.{ok, >>=-eq-ok, or_err-eq-ok, ok-eq}
use bounties.Shared.Arith.{Arith}
use bounties.Shared.Storage.{Storage, save, remove}
use bounties.Shared.Chain.{Addr, Env, MessageInfo, Response, SubMsg, bank_send, sub_msg}
use bounties.Dca.Types.{
  Bounty, BountyStatus, Config, Trigger, TriggerConfiguration, bounty_cancelled, is_cancelled,
}
use bounties.Dca.Store.{
  Store, get_config, get_bounty, bounty_data, update_bounty, create_event, delete_trigger,
  save_disburse_escrow_task,
}
use bounties.Dca.Time.{Calendar}
use bounties.Dca.Validation.Access.{
  assert_sender_is_admin_or_bounty_owner, assert_bounty_is_not_cancelled,
}
use bounties.Dca.Validation.Terms.{passed}
use bounties.Dca.Exchange.{Exchange}
use bounties.Dca.Fees.Totals.{sent}
use bounties.Shared.Coin.{empty_of}
use bounties.Dca.Swaps.{get_expected_execution_completed_date}
use bounties.Dca.Update.Terms.{open_lem}
use bounties.Dca.Cancel.{
  refund, cancelled, retract, retract_messages, schedule_escrow, ended, cancel_bounty_handler,
}

-- The bounty, cancelled and with nothing left of its balance.
abbrev pub without_balance : Bounty → Bounty
without_balance b = record b {
  status = BountyStatus.cancelled;
  balance = record { amount = 0; denom = b.balance.denom };
}

-- A bounty that the admin or its owner has cancelled.
pub record IsCancelled (destination : Bounty → Addr) (s : Store) (sender : Addr) (id : ℕ)
    (r : Response) (s' : Store) : Type 0 where
  pub config : Config
  pub bounty : Bounty
  pub retracted : List SubMsg
  pub loaded : s.config ≡ some config
  pub found : get_bounty s id ≡ ok bounty
  pub authorized : (sender ≡ config.admin) ⊎ (sender ≡ bounty.owner)
  pub uncancelled : is_cancelled bounty ≡ false
  -- the messages that take back the limit order move no money
  pub idle : sent retracted ≡ 0
  pub refunded :
      ((0 < bounty.balance.amount)
        × (r.messages ≡ sub_msg (bank_send (destination bounty) (bounty.balance ∷ [])) ∷ retracted))
      ⊎ ((bounty.balance.amount ≡ 0) × (r.messages ≡ retracted))
  pub stored : s'.bounties ≡ save bounty.id (bounty_data (without_balance bounty)) s.bounties
  pub triggers : s'.triggers ≡ remove bounty.id s.triggers
  pub kept : s'.config ≡ s.config

admin_or_owner :
    (s : Store) (owner sender : Addr) (p : Unit)
    → assert_sender_is_admin_or_bounty_owner s owner sender ≡ ok p
    → (config : Config) × (s.config ≡ some config) × ((sender ≡ config.admin) ⊎ (sender ≡ owner))
unfolding assert_sender_is_admin_or_bounty_owner get_config
admin_or_owner s owner sender p h =
    let (config, e, g) = >>=-eq-ok (get_config s) _ h in
    let one = passed (not (str_eq sender config.admin) && not (str_eq sender owner)) _ p g in
    (config, or_err-eq-ok s.config _ config e, either config one)
  where
    either :
        (config : Config)
        → (not (str_eq sender config.admin) && not (str_eq sender owner)) ≡ false
        → (sender ≡ config.admin) ⊎ (sender ≡ owner)
    either config e = elim (Bool-cases (str_eq sender config.admin)) [
      | inl admin ↦ inl (ground (arith, eq_iff sender config.admin))
      | inr other ↦
          let own : str_eq sender owner ≡ true = ground arith in
          inr (ground (arith, eq_iff sender owner))
    ]

retract_lem :
    (s : Store) (b : Bounty) (trigger : Option TriggerConfiguration) (msgs : List SubMsg)
    → retract s b trigger ≡ ok msgs
    → sent msgs ≡ 0
unfolding retract retract_messages
retract_lem s b none msgs h = ground arith
retract_lem s b (some (TriggerConfiguration.time _)) msgs h = ground arith
retract_lem s b (some (TriggerConfiguration.escrow_reject _)) msgs h = ground arith
retract_lem s b (some (TriggerConfiguration.escrow_accept _)) msgs h = ground arith
retract_lem s b (some (TriggerConfiguration.price _ order_idx)) msgs h =
    let (config, _, g) = >>=-eq-ok (get_config s) _ h in
    let same : retract_messages config b order_idx ≡ msgs = ok-eq _ msgs g in rw (← same) refl

refund_lem :
    (destination : Addr) (b : Bounty) (retracted msgs : List SubMsg)
    → msgs ≡ refund destination b ++ retracted
    → ((0 < b.balance.amount)
        × (msgs ≡ sub_msg (bank_send destination (b.balance ∷ [])) ∷ retracted))
      ⊎ ((b.balance.amount ≡ 0) × (msgs ≡ retracted))
unfolding refund
refund_lem destination b retracted msgs h = elim (Bool-cases (ltb 0 b.balance.amount)) [
  | inl some_left ↦ inl (ground arith, rw some_left at h)
  | inr none_left ↦ inr (ground arith, rw none_left at h)
]

module _ ⦃m : Arith⦄ (cal : Calendar) (destination : Bounty → Addr) (env : Env) where
  schedule_lem :
      (s s' : Store) (b : Bounty)
      → schedule_escrow cal destination env s b ≡ ok s'
      → (s'.bounties ≡ s.bounties) × (s'.triggers ≡ s.triggers) × (s'.config ≡ s.config)
  unfolding schedule_escrow save_disburse_escrow_task
  schedule_lem s s' b h = elim (Bool-cases (ltb 0 b.escrowed_amount.amount)) [
    | inl escrow ↦
        let (due, _, g) =
          >>=-eq-ok (get_expected_execution_completed_date cal b env.time) _ (rw escrow at h) in
        (ground arith, ground arith, ground arith)
    | inr empty ↦ (ground arith, ground arith, ground arith)
  ]

  pub cancel_bounty_lem :
      (s : Store) (info : MessageInfo) (id : ℕ) (r : Response) (s' : Store)
      → cancel_bounty_handler cal destination env s info id ≡ ok (r, s')
      → IsCancelled destination s info.sender id r s'
  unfolding cancel_bounty_handler ended update_bounty create_event delete_trigger empty_of
  cancel_bounty_lem s info id r s' h =
      let (b, found, h1) = >>=-eq-ok (get_bounty s id) _ h in
      let (p, sender, h2) =
        >>=-eq-ok (assert_sender_is_admin_or_bounty_owner s b.owner info.sender) _ h1 in
      let (p2, alive, h3) = >>=-eq-ok (assert_bounty_is_not_cancelled b) _ h2 in
      let (s1, e4, h4) =
        >>=-eq-ok (schedule_escrow cal destination env (create_event s env b.id bounty_cancelled) b)
          _ h3 in
      let (retracted, e5, h5) =
        >>=-eq-ok (retract (update_bounty s1 (cancelled b)) b b.trigger) _ h4 in
      let (config, loaded, either) = admin_or_owner s b.owner info.sender p sender in
      let (bounties, triggers, kept) =
        schedule_lem (create_event s env b.id bounty_cancelled) s1 b e4 in
      let end = ok-eq (ended destination s1 b retracted) (r, s') h5 in
      record {
        config = config;
        bounty = b;
        retracted = retracted;
        loaded = loaded;
        found = found;
        authorized = either;
        uncancelled = open_lem b p2 alive;
        idle = retract_lem (update_bounty s1 (cancelled b)) b b.trigger retracted e5;
        refunded =
            refund_lem (destination b) b retracted r.messages
              (sym (ap (λ (p : Response × Store). p.0.messages) end));
        stored =
            sym (ap (λ (p : Response × Store). p.1.bounties) end)
            ∙ ap (λ (m : Storage Bounty). save b.id (bounty_data (without_balance b)) m) bounties;
        triggers =
            sym (ap (λ (p : Response × Store). p.1.triggers) end)
            ∙ ap (λ (m : Storage Trigger). remove b.id m) triggers;
        kept = sym (ap (λ (p : Response × Store). p.1.config) end) ∙ kept;
      }
