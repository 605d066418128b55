-- ===== src/Dca/Update/Kept.antt =====
-- What contracts/dca/src/handlers/update_vault.rs leaves alone.
use bounties.Prelude.{ℕ, ◌≡◌, refl, String, Option, none, some, List}
use bounties.Shared.Result.{panic, ok, or_err, ◌>>=◌, >>=-eq-ok}
use bounties.Shared.Arith.{Arith}
use bounties.Shared.Chain.{Api, Env}
use bounties.Dca.Types.{
  Destination, TimeInterval, TriggerConfiguration, SwapAdjustmentStrategy, weighted_scale,
  risk_weighted_average,
}
use bounties.Dca.Store.{save_trigger, delete_trigger}
use bounties.Dca.Time.{Calendar, get_next_target_time}
use bounties.Dca.Validation.Values.{
  assert_destinations_limit_is_not_breached, assert_no_destination_allocations_are_zero,
  assert_time_interval_is_valid, assert_label_is_no_longer_than_100_characters,
  assert_slippage_tolerance_is_less_than_or_equal_to_one,
  assert_weighted_scale_multiplier_is_no_more_than_10,
}
use bounties.Dca.Validation.Strategies.{SwapAdjustmentStrategyParams}
use bounties.Dca.Validation.Addresses.{assert_destination_callback_addresses_are_valid}
use bounties.Dca.Validation.Terms.{
  IsShared, limit_lem, none_empty_lem, whole_lem, tolerance_lem, interval_lem,
}
use bounties.Dca.Create.{or_default, or_owner}
use bounties.Dca.Update.Drafts.{IsDrafted, IsDrafted-refl, IsDrafted-trans, of_eq, if_some_lem}
use bounties.Dca.Update.{
  Value, UpdateBounty, Draft, if_some, rescaled, rescale_minimum, rescale_strategy, update_label,
  update_slippage_tolerance, update_minimum_receive_amount, update_trigger, update_time_interval,
  replace_strategy, update_strategy, assert_only_swap_amount, update_swap_amount,
  check_new_destinations, update_destinations, apply_updates,
}

module _ (format : Value → String) where
  label_kept : (new : String) (d d' : Draft) → update_label format new d ≡ ok d' → IsDrafted d d'
  unfolding update_label
  label_kept new d d' h =
      let (p, _, g) = >>=-eq-ok (assert_label_is_no_longer_than_100_characters new) _ h in
      of_eq d _ d' g refl refl refl (λ v. v)

  tolerance_kept :
      (new : ℕ) (d d' : Draft) → update_slippage_tolerance format new d ≡ ok d' → IsDrafted d d'
  unfolding update_slippage_tolerance
  tolerance_kept new d d' h =
      let (p, e, g) = >>=-eq-ok (assert_slippage_tolerance_is_less_than_or_equal_to_one new) _ h in
      of_eq d _ d' g refl refl refl
        (λ v. record { shared = v.shared; tolerable = tolerance_lem new p e; long = v.long })

  minimum_kept :
      (new : ℕ) (d d' : Draft) → update_minimum_receive_amount format new d ≡ ok d' → IsDrafted d d'
  unfolding update_minimum_receive_amount
  minimum_kept new d d' h = of_eq d _ d' h refl refl refl (λ v. v)

  module _ (cal : Calendar) (env : Env) where
    trigger_kept :
        (old : Option TriggerConfiguration) (d d' : Draft)
        → update_trigger format cal env old d ≡ ok d'
        → IsDrafted d d'
    unfolding update_trigger save_trigger delete_trigger
    trigger_kept none d d' h = IsDrafted-refl d d' h
    trigger_kept (some old) d d' h =
        let (t, _, g) =
          >>=-eq-ok
            (or_err
              (get_next_target_time cal env.time (or_default d.bounty.started_at env.time)
                d.bounty.time_interval)
              panic)
            _ h in
        of_eq d _ d' g refl refl refl (λ v. v)

    interval_kept :
        (new : TimeInterval) (d d' : Draft)
        → update_time_interval format cal env new d ≡ ok d'
        → IsDrafted d d'
    unfolding update_time_interval
    interval_kept new d d' h =
        let (p, e, g) = >>=-eq-ok (assert_time_interval_is_valid new) _ h in
        let rest = trigger_kept d.bounty.trigger _ d' g in
        record {
          same = rest.same;
          stored = rest.stored;
          config = rest.config;
          valid = λ v.
              rest.valid (record {
                shared = v.shared;
                tolerable = v.tolerable;
                long = interval_lem new p e;
              });
        }

  strategy_kept :
      (new : SwapAdjustmentStrategyParams) (old : Option SwapAdjustmentStrategy) (d d' : Draft)
      → replace_strategy format new old d ≡ ok d'
      → IsDrafted d d'
  unfolding replace_strategy
  strategy_kept (SwapAdjustmentStrategyParams.weighted_scale r k i) (some (weighted_scale _ _ _)) d
        d' h =
      let (p, _, g) = >>=-eq-ok (assert_weighted_scale_multiplier_is_no_more_than_10 k) _ h in
      of_eq d _ d' g refl refl refl (λ v. v)
  strategy_kept (SwapAdjustmentStrategyParams.weighted_scale r k i)
        (some (risk_weighted_average _ _)) d d' h =
      cc
  strategy_kept (SwapAdjustmentStrategyParams.weighted_scale r k i) none d d' h = cc
  strategy_kept (SwapAdjustmentStrategyParams.risk_weighted_average _) old d d' h = cc

  module _ ⦃m : Arith⦄ where
    rescale_minimum_kept :
        (n : ℕ) (old : Option ℕ) (d d' : Draft)
        → rescale_minimum format n old d ≡ ok d'
        → IsDrafted d d'
    unfolding rescale_minimum
    rescale_minimum_kept n none d d' h = IsDrafted-refl d d' h
    rescale_minimum_kept n (some minimum) d d' h =
        let (new, _, g) = >>=-eq-ok (rescaled minimum n d.bounty.swap_amount) _ h in
        of_eq d _ d' g refl refl refl (λ v. v)

    rescale_strategy_kept :
        (n : ℕ) (old : Option SwapAdjustmentStrategy) (d d' : Draft)
        → rescale_strategy format n old d ≡ ok d'
        → IsDrafted d d'
    unfolding rescale_strategy
    rescale_strategy_kept n none d d' h = IsDrafted-refl d d' h
    rescale_strategy_kept n (some (risk_weighted_average _ _)) d d' h = IsDrafted-refl d d' h
    rescale_strategy_kept n (some (weighted_scale receive k i)) d d' h =
        let (new, _, g) = >>=-eq-ok (rescaled receive n d.bounty.swap_amount) _ h in
        of_eq d _ d' g refl refl refl (λ v. v)

    swap_amount_kept :
        (msg : UpdateBounty) (new : ℕ) (d d' : Draft)
        → update_swap_amount format msg new d ≡ ok d'
        → IsDrafted d d'
    unfolding update_swap_amount
    swap_amount_kept msg new d d' h =
        let (p, _, g) = >>=-eq-ok (assert_only_swap_amount msg) _ h in
        let (a, e, i) =
          >>=-eq-ok (rescale_minimum format new d.bounty.minimum_receive_amount d) _ g in
        let (b, f, j) =
          >>=-eq-ok (rescale_strategy format new a.bounty.swap_adjustment_strategy a) _ i in
        IsDrafted-trans d a d' (rescale_minimum_kept new _ d a e) (
          IsDrafted-trans a b d' (rescale_strategy_kept new _ a b f)
            (of_eq b _ d' j refl refl refl (λ v. v)))

    shared_lem :
        (api : Api) (destinations : List Destination) (p : Unit)
        → check_new_destinations api destinations ≡ ok p
        → IsShared destinations
    unfolding check_new_destinations
    shared_lem api destinations p h =
        let (p1, e1, h1) = >>=-eq-ok (assert_destinations_limit_is_not_breached destinations) _ h in
        let (p2, e2, h2) =
          >>=-eq-ok (assert_destination_callback_addresses_are_valid api destinations) _ h1 in
        let (p3, e3, h3) =
          >>=-eq-ok (assert_no_destination_allocations_are_zero destinations) _ h2 in
        record {
          few = limit_lem destinations p1 e1;
          none_empty = none_empty_lem destinations p3 e3;
          whole = whole_lem destinations p h3;
        }

    destinations_kept :
        (api : Api) (given : List Destination) (d d' : Draft)
        → update_destinations format api given d ≡ ok d'
        → IsDrafted d d'
    unfolding update_destinations
    destinations_kept api given d d' h =
        let (p, e, g) =
          >>=-eq-ok (check_new_destinations api (or_owner d.bounty.owner given)) _ h in
        of_eq d _ d' g refl refl refl (λ v. record {
          shared = shared_lem api (or_owner d.bounty.owner given) p e;
          tolerable = v.tolerable;
          long = v.long;
        })

    module _ (cal : Calendar) (api : Api) (env : Env) where
      -- An update changes the terms of a bounty and nothing else of it,
      -- and keeps them valid.
      pub apply_updates_kept :
          (msg : UpdateBounty) (d d' : Draft)
          → apply_updates format cal api env msg d ≡ ok d'
          → IsDrafted d d'
      unfolding apply_updates update_strategy
      apply_updates_kept msg d d' h =
          let (a, ea, ha) =
            >>=-eq-ok (if_some msg.swap_amount (update_swap_amount format msg) d) _ h in
          let (b, eb, hb) = >>=-eq-ok (if_some msg.label (update_label format) a) _ ha in
          let (c, ec, hc) =
            >>=-eq-ok (if_some msg.destinations (update_destinations format api) b) _ hb in
          let first =
            IsDrafted-trans d a c
              (if_some_lem msg.swap_amount _ d a ea (λ n e. swap_amount_kept msg n d a e))
              (IsDrafted-trans a b c (if_some_lem msg.label _ a b eb (λ l e. label_kept l a b e))
                (if_some_lem msg.destinations _ b c ec (λ l e. destinations_kept api l b c e))) in
          IsDrafted-trans d c d' first (rest c hc)
        where
          rest :
              (c : Draft)
              → (if_some msg.slippage_tolerance (update_slippage_tolerance format) c >>= λ d4.
                  if_some msg.minimum_receive_amount (update_minimum_receive_amount format) d4
                  >>= λ d5.
                      if_some msg.time_interval (update_time_interval format cal env) d5 >>= λ d6.
                      if_some msg.swap_adjustment_strategy (update_strategy format) d6)
                ≡ ok d'
              → IsDrafted c d'
          rest c hc =
              let (e, ee, he) =
                >>=-eq-ok (if_some msg.slippage_tolerance (update_slippage_tolerance format) c) _
                  hc in
              let (f, ef, hf) =
                >>=-eq-ok
                  (if_some msg.minimum_receive_amount (update_minimum_receive_amount format) e) _
                  he in
              let (g, eg, hg) =
                >>=-eq-ok (if_some msg.time_interval (update_time_interval format cal env) f) _
                  hf in
              IsDrafted-trans c e d'
                (if_some_lem msg.slippage_tolerance _ c e ee (λ t i. tolerance_kept t c e i))
                (IsDrafted-trans e f d'
                  (if_some_lem msg.minimum_receive_amount _ e f ef (λ n i. minimum_kept n e f i))
                  (IsDrafted-trans f g d'
                    (if_some_lem msg.time_interval _ f g eg (λ t i. interval_kept cal env t f g i))
                    (if_some_lem msg.swap_adjustment_strategy _ g d' hg
                      (λ t i. strategy_kept t _ g d' i))))
