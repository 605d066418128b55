-- ===== src/Dca/Create/Attached.antt =====
-- The trigger, or the limit order, of a new bounty in contracts/dca/src/handlers/create_vault.rs.
use bounties.Prelude.{
  ℕ, zero, suc, ◌+◌, ◌*◌, ◌/◌, ◌<◌, ◌≤◌, [], ◌∷◌, ◌≡◌, String, ◌⊎◌, inl, inr, refl, ap, sym, ◌∙◌,
  Bool, true, false, Option, none, some, arith, ◌==◌, if◌then◌else◌,
}
use bounties.Shared.Result.{panic, ok, or_err, >>=-eq-ok, or_err-eq-ok, ok-eq}
use bounties.Shared.Arith.{Arith}
use bounties.Shared.Coin.{Coin}
use bounties.Shared.Storage.{Storage, save, may_load}
use bounties.Shared.Storage.Laws.{may_load-save}
use bounties.Shared.Chain.{
  Addr, Env, Response, Body, SubMsg, sub_msg, wasm_execute, reply_on_success,
}
use bounties.Dca.Types.{Bounty, Config, TriggerConfiguration}
use bounties.Dca.Store.{Store, update_bounty, bounty_data, save_trigger}
use bounties.Dca.Execute.Handler.{IsRunning}
use bounties.Dca.Create.{or_default, start_by_time, without_microns, start_by_price, attach_trigger}

abbrev pub with_amount : Bounty → Coin → Bounty
with_amount b c = record b { balance = c; deposited_amount = c }

-- A bounty without a start time is executed at once, by a call of the contract itself.
abbrev pub IsStartedByTime : Env → Bounty → Option ℕ → Response → Type 0
IsStartedByTime env b target_time r =
    ((target_time ≡ none)
      × (r.messages
          ≡ sub_msg (wasm_execute env.contract (Body.execute_trigger b.id b.route) []) ∷ []))
    ⊎ ((t : ℕ) × (target_time ≡ some t) × (r.messages ≡ []))

abbrev order_of : Addr → String → String → ℕ → SubMsg
order_of exchange target denom target_price =
    reply_on_success
      (wasm_execute exchange (Body.submit_order target_price target)
        (record { amount = 2; denom = denom } ∷ []))
      1

-- A limit order of two microns on an exchange, from one denomination to another, at the target
-- price: the swap amount by the receive amount.
abbrev pub IsOrdered : Addr → String → String → ℕ → ℕ → Response → Type 0
IsOrdered exchange target denom swap_amount receive r =
    (0 < receive)
    × (r.messages
        ≡ order_of exchange target denom (swap_amount * 1000000000000000000 / receive) ∷ [])

pub IsOrdered-cong :
    (x y target d e : String) (swap_amount receive : ℕ) (r : Response)
    → x ≡ y
    → e ≡ d
    → IsOrdered x target d swap_amount receive r
    → IsOrdered y target e swap_amount receive r
IsOrdered-cong x y target d e swap_amount receive r same denom h = rw (← same, denom) h

-- The bounty with what is left of its deposit, and how it will be started.
pub record IsAttached (env : Env) (s : Store) (b : Bounty) (target_time receive : Option ℕ)
    (config : Config) (swap_amount : ℕ) (r : Response) (s' : Store) : Type 0 where
  pub amount : Coin
  pub stored :
      (s'.bounties ≡ s.bounties)
      ⊎ (s'.bounties ≡ save b.id (bounty_data (with_amount b amount)) s.bounties)
  pub same_config : s'.config ≡ s.config
  pub counter : s'.bounty_counter ≡ s.bounty_counter
  pub started :
      ((receive ≡ none)
        × (amount ≡ b.balance)
        × (s'.bounties ≡ s.bounties)
        × (s'.triggers
            ≡ save b.id
                (record {
                  bounty_id = b.id;
                  configuration = TriggerConfiguration.time (or_default target_time env.time);
                })
                s.triggers)
        × IsStartedByTime env b target_time r)
      ⊎ ((price : ℕ) × (receive ≡ some price)
          × (target_time ≡ none)
          × (amount.amount + 2 ≡ b.balance.amount)
          × (amount.denom ≡ b.balance.denom)
          × (s'.bounties ≡ save b.id (bounty_data (with_amount b amount)) s.bounties)
          × (s'.triggers ≡ s.triggers)
          × IsOrdered config.exchange_contract_address b.target_denom b.balance.denom swap_amount
              price r)

module _ ⦃m : Arith⦄ (env : Env) where
  without_microns_lem :
      (c d : Coin) → without_microns c ≡ ok d → (d.amount + 2 ≡ c.amount) × (d.denom ≡ c.denom)
  unfolding without_microns
  without_microns_lem c d h =
      let (n, e, g) = >>=-eq-ok (or_err (m.sub c.amount 2) panic) _ h in
      let less : m.sub c.amount 2 ≡ some n = or_err-eq-ok (m.sub c.amount 2) panic n e in
      let left : n + 2 ≡ c.amount = ground (arith, m.sub_lem c.amount 2) in
      (ground (arith, left), ground arith)

  by_time_lem :
      (s : Store) (b : Bounty) (target_time : Option ℕ) (r : Response)
      → r ≡ (start_by_time env s b target_time).0
      → IsStartedByTime env b target_time r
  unfolding start_by_time
  by_time_lem s b none r e = inl (refl, ap (λ (a : Response). a.messages) e)
  by_time_lem s b (some t) r e = inr (t, refl, ap (λ (a : Response). a.messages) e)

  ordered_lem :
      (exchange target denom : String) (swap_amount receive p : ℕ) (r : Response)
      → or_err (m.from_ratio swap_amount receive) panic ≡ ok p
      → r.messages ≡ order_of exchange target denom p ∷ []
      → IsOrdered exchange target denom swap_amount receive r
  ordered_lem exchange target denom swap_amount zero p r e g =
      absurd (ground (arith, m.from_ratio_zero swap_amount))
  ordered_lem exchange target denom swap_amount (suc n) p r e g =
      let price : p ≡ swap_amount * 1000000000000000000 / suc n =
        ground (arith, m.from_ratio_lem swap_amount (suc n) (omega arith)) in
      (omega arith, g ∙ ap (λ (k : ℕ). order_of exchange target denom k ∷ []) price)

  pub attach_trigger_lem :
      (config : Config) (s : Store) (b : Bounty) (swap_amount : ℕ) (target_time receive : Option ℕ)
      (r : Response) (s' : Store)
      → b.deposited_amount ≡ b.balance
      → attach_trigger env config s b swap_amount target_time receive ≡ ok (r, s')
      → IsAttached env s b target_time receive config swap_amount r s'
  unfolding attach_trigger start_by_time start_by_price save_trigger update_bounty
  attach_trigger_lem config s b swap_amount target_time none r s' whole h =
      let end : s' ≡ (start_by_time env s b target_time).1 = cc in
      let answered : r ≡ (start_by_time env s b target_time).0 = cc in
      record {
        amount = b.balance;
        stored = inl (ap (λ (t : Store). t.bounties) end);
        same_config = ap (λ (t : Store). t.config) end;
        counter = ap (λ (t : Store). t.bounty_counter) end;
        started = inl (
          refl,
          refl,
          ap (λ (t : Store). t.bounties) end,
          ap (λ (t : Store). t.triggers) end,
          by_time_lem s b target_time r answered,
        );
      }
  attach_trigger_lem config s b swap_amount (some _) (some _) r s' whole h = cc
  attach_trigger_lem config s b swap_amount none (some price) r s' whole h =
      let (c, ec, h1) = >>=-eq-ok (without_microns b.deposited_amount) _ h in
      let (d, ed, h2) = >>=-eq-ok (without_microns b.balance) _ h1 in
      let (p, ep, h3) = >>=-eq-ok (or_err (m.from_ratio swap_amount price) panic) _ h2 in
      let same : c ≡ d = ok-eq c d (sym ec ∙ ap (λ (a : Coin). without_microns a) whole ∙ ed) in
      let end : s' ≡ update_bounty s (record b { deposited_amount = c; balance = d }) =
        sym (ap (λ (a : Response × Store). a.1) (ok-eq _ (r, s') h3)) in
      let (amount, denom) = without_microns_lem b.balance d ed in
      let stored : s'.bounties ≡ save b.id (bounty_data (with_amount b d)) s.bounties =
        ap (λ (t : Store). t.bounties) end
        ∙ ap
            (λ (a : Coin).
              save b.id (bounty_data (record b { deposited_amount = a; balance = d })) s.bounties)
            same in
      record {
        amount = d;
        stored = inr stored;
        same_config = ap (λ (t : Store). t.config) end;
        counter = ap (λ (t : Store). t.bounty_counter) end;
        started = inr (
          price,
          refl,
          refl,
          amount,
          denom,
          stored,
          ap (λ (t : Store). t.triggers) end,
          ordered_lem config.exchange_contract_address b.target_denom b.balance.denom swap_amount
              price p r ep (sym (ap (λ (a : Response × Store). a.0.messages) (ok-eq _ (r, s') h3))),
        );
      }

pub loaded_lem :
    (k n : ℕ) (old new : Storage Bounty) (b c : Bounty)
    → ((new ≡ save n b old) × (c ≡ b)) ⊎ (new ≡ save n c (save n b old))
    → may_load k new ≡ (if k == n then some c else may_load k old)
loaded_lem k n old new b c (inl (e, same)) =
    ap (λ (l : Storage Bounty). may_load k l) e
    ∙ may_load-save n k b old
    ∙ ap (λ (d : Bounty). if k == n then some d else may_load k old) (sym same)
loaded_lem k n old new b c (inr e) =
    ap (λ (l : Storage Bounty). may_load k l) e
    ∙ may_load-save n k c (save n b old)
    ∙ rw (may_load-save n k b old) (merged (k == n) (may_load k old))
  where
    merged :
        (t : Bool) (o : Option Bounty)
        → (if t then some c else if t then some b else o) ≡ (if t then some c else o)
    merged true o = refl
    merged false o = refl

pub same_default :
    {s : Store} (running : IsRunning s) (config : Config)
    → s.config ≡ some config
    → running.config.default_slippage_tolerance ≤ 1000000000000000000
    → config.default_slippage_tolerance ≤ 1000000000000000000
same_default running config loaded low =
    let same : some running.config ≡ some config = sym running.loaded ∙ loaded in
    let equal : running.config ≡ config = cc in rw (← equal) low

pub same_exchange :
    {s : Store} (running : IsRunning s) (config : Config)
    → s.config ≡ some config
    → config.exchange_contract_address ≡ running.config.exchange_contract_address
same_exchange running config loaded =
    let same : some running.config ≡ some config = sym running.loaded ∙ loaded in
    let equal : running.config ≡ config = cc in
    ap (λ (c : Config). c.exchange_contract_address) (sym equal)
