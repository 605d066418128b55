-- ===== src/Dca/Config/Valid.antt =====
-- The configuration of the DCA contract is valid, from `instantiate_handler` on.
use bounties.Prelude.{
  ℕ, String, ◌+◌, ◌<◌, ◌≤◌, ◌≡◌, refl, ap, ◌∙◌, ◌⊎◌, inl, inr, Option, none, some, List, [], ◌∷◌,
  arith, length, eq_iff, sum_of,
}
use bounties.Shared.Result.{panic, Result, Check, ok, err, or_err, ◌>>◌, >>=-eq-ok}
use bounties.Shared.Arith.{Arith, uint128_limit}
use bounties.Shared.Chain.{Addr, Api, MessageInfo, Response}
use bounties.Dca.Types.{Config, FeeCollector}
use bounties.Dca.Store.{Store, get_config, update_config}
use bounties.Dca.Validation.Access.{assert_sender_is_admin}
use bounties.Dca.Validation.Values.{
  assert_fee_level_is_valid, assert_page_limit_is_valid,
  assert_slippage_tolerance_is_less_than_or_equal_to_one, assert_twap_period_is_valid,
  assert_no_more_than_10_fee_collectors, assert_fee_collector_allocations_add_up_to_one,
  assert_escrow_level_is_no_greater_than_100_percent, add_up,
}
use bounties.Dca.Validation.Addresses.{
  assert_addresses_are_valid, assert_fee_collector_addresses_are_valid,
}
use bounties.Dca.Fees.Totals.{allocations}
use bounties.Dca.Config.{
  ConfigUpdate, unwrap_or, updated, check_config, instantiated, check_version, instantiate_handler,
  migrate_handler, update_config_handler,
}

-- What every handler may rely on: levels in their ranges, and fee collectors that share exactly one.
pub record IsValidConfig (api : Api) (c : Config) : Type 0 where
  pub default_fee : c.default_swap_fee_percent ≤ 50000000000000000
  pub weighted_fee : c.weighted_scale_swap_fee_percent ≤ 50000000000000000
  pub automation_fee : c.automation_fee_percent ≤ 50000000000000000
  pub page_limit : c.default_page_limit ≤ 1000
  pub slippage : c.default_slippage_tolerance ≤ 1000000000000000000
  pub twap : c.twap_period ≤ 3600
  pub executors : assert_addresses_are_valid api c.executors "executor" ≡ ok tt
  pub few : length c.fee_collectors ≤ 10
  pub collectors : assert_fee_collector_addresses_are_valid api c.fee_collectors ≡ ok tt
  pub whole : allocations c.fee_collectors ≡ 1000000000000000000
  pub escrow_level : c.risk_weighted_average_escrow_level ≤ 1000000000000000000

-- A new value, where one is given, and the old one otherwise.
abbrev pub IsGiven : {A : Type 0} → Option A → A → A → Type 0
IsGiven {A} given old new =
    ((given ≡ none) × (new ≡ old)) ⊎ ((a : A) × (given ≡ some a) × (new ≡ a))

pub record IsReplaced (old : Config) (u : ConfigUpdate) (new : Config) : Type 0 where
  pub admin : new.admin ≡ old.admin
  pub executors : IsGiven u.executors old.executors new.executors
  pub collectors : IsGiven u.fee_collectors old.fee_collectors new.fee_collectors
  pub default_fee :
      IsGiven u.default_swap_fee_percent old.default_swap_fee_percent new.default_swap_fee_percent
  pub weighted_fee :
      IsGiven u.weighted_scale_swap_fee_percent old.weighted_scale_swap_fee_percent
        new.weighted_scale_swap_fee_percent
  pub automation_fee :
      IsGiven u.automation_fee_percent old.automation_fee_percent new.automation_fee_percent
  pub page_limit : IsGiven u.default_page_limit old.default_page_limit new.default_page_limit
  pub paused : IsGiven u.paused old.paused new.paused
  pub escrow_level :
      IsGiven u.risk_weighted_average_escrow_level old.risk_weighted_average_escrow_level
        new.risk_weighted_average_escrow_level
  pub twap : IsGiven u.twap_period old.twap_period new.twap_period
  pub slippage :
      IsGiven u.default_slippage_tolerance old.default_slippage_tolerance
        new.default_slippage_tolerance
  pub exchange :
      IsGiven u.exchange_contract_address old.exchange_contract_address
        new.exchange_contract_address

given_lem : {A : Type 0} (given : Option A) (old : A) → IsGiven given old (unwrap_or given old)
given_lem none old = inl (refl, refl)
given_lem (some a) old = inr (a, refl, refl)

replaced_lem : (old : Config) (u : ConfigUpdate) → IsReplaced old u (updated old u)
unfolding updated
replaced_lem old u = record {
  admin = refl;
  executors = given_lem u.executors old.executors;
  collectors = given_lem u.fee_collectors old.fee_collectors;
  default_fee = given_lem u.default_swap_fee_percent old.default_swap_fee_percent;
  weighted_fee = given_lem u.weighted_scale_swap_fee_percent old.weighted_scale_swap_fee_percent;
  automation_fee = given_lem u.automation_fee_percent old.automation_fee_percent;
  page_limit = given_lem u.default_page_limit old.default_page_limit;
  paused = given_lem u.paused old.paused;
  escrow_level =
      given_lem u.risk_weighted_average_escrow_level old.risk_weighted_average_escrow_level;
  twap = given_lem u.twap_period old.twap_period;
  slippage = given_lem u.default_slippage_tolerance old.default_slippage_tolerance;
  exchange = given_lem u.exchange_contract_address old.exchange_contract_address;
}

admin_sends :
    (s : Store) (sender : Addr) (config : Config)
    → get_config s ≡ ok config
    → assert_sender_is_admin s sender ≡ ok tt
    → sender ≡ config.admin
unfolding assert_sender_is_admin
admin_sends s sender config c h = ground (arith, c, eq_iff sender config.admin)

module _ ⦃m : Arith⦄ where
  pub add_up_lem :
      {A : Type 0} (f : A → ℕ) (acc n : ℕ) (xs : List A)
      → add_up f acc xs ≡ ok n
      → n ≡ acc + sum_of f xs
  unfolding add_up
  add_up_lem f acc n [] h = ground arith
  add_up_lem f acc n (x ∷ xs) h =
      let (total, e, g) = >>=-eq-ok (or_err (m.add acc (f x)) panic) _ h in
      let t : total ≡ acc + f x = ground (arith, m.add_lem acc (f x)) in
      omega (arith, add_up_lem f total n xs g, t)

  pub add_up_total :
      {A : Type 0} (f : A → ℕ) (acc : ℕ) (xs : List A)
      → acc + sum_of f xs < uint128_limit
      → add_up f acc xs ≡ ok (acc + sum_of f xs)
  unfolding add_up
  add_up_total f acc [] h = ap (λ (n : ℕ). ok n) (omega arith)
  add_up_total f acc (x ∷ xs) h =
      let e : m.add acc (f x) ≡ some (acc + f x) = ground (arith, m.add_lem acc (f x)) in
      rw e (add_up_total f (acc + f x) xs (omega arith) ∙ ap (λ (n : ℕ). ok n) (omega arith))

  -- Exactly the allocations that add up to one are accepted.
  collectors_lem :
      (cs : List FeeCollector)
      → assert_fee_collector_allocations_add_up_to_one cs ≡ ok tt
      → allocations cs ≡ 1000000000000000000
  unfolding assert_fee_collector_allocations_add_up_to_one
  collectors_lem cs h =
      let (n, e, g) = >>=-eq-ok (add_up (λ (c : FeeCollector). c.allocation) 0 cs) _ h in
      let total = add_up_lem (λ (c : FeeCollector). c.allocation) 0 n cs e in
      let one : n ≡ 1000000000000000000 = ground arith in omega arith

  collectors_total :
      (cs : List FeeCollector)
      → allocations cs ≡ 1000000000000000000
      → assert_fee_collector_allocations_add_up_to_one cs ≡ ok tt
  unfolding assert_fee_collector_allocations_add_up_to_one
  collectors_total cs h =
      rw (add_up_total (λ (c : FeeCollector). c.allocation) 0 cs (omega arith), h) refl

  both : (a b : Check) → (a >> b) ≡ ok tt → (a ≡ ok tt) × (b ≡ ok tt)
  both (ok tt) b h = (refl, h)
  both (err e) b h = cc

  module _ (api : Api) where
    pub check_config_valid : (c : Config) → check_config api c ≡ ok tt → IsValidConfig api c
    unfolding check_config assert_fee_level_is_valid assert_page_limit_is_valid
        assert_slippage_tolerance_is_less_than_or_equal_to_one assert_twap_period_is_valid
        assert_no_more_than_10_fee_collectors assert_escrow_level_is_no_greater_than_100_percent
    check_config_valid c h =
        let (h0, r0) = both (assert_fee_level_is_valid c.default_swap_fee_percent) _ h in
        let (h1, r1) = both (assert_fee_level_is_valid c.weighted_scale_swap_fee_percent) _ r0 in
        let (h2, r2) = both (assert_fee_level_is_valid c.automation_fee_percent) _ r1 in
        let (h3, r3) = both (assert_page_limit_is_valid (some c.default_page_limit)) _ r2 in
        let (h4, r4) =
          both (assert_slippage_tolerance_is_less_than_or_equal_to_one c.default_slippage_tolerance)
            _ r3 in
        let (h5, r5) = both (assert_twap_period_is_valid c.twap_period) _ r4 in
        let (h6, r6) = both (assert_addresses_are_valid api c.executors "executor") _ r5 in
        let (h7, r7) = both (assert_no_more_than_10_fee_collectors c.fee_collectors) _ r6 in
        let (h8, r8) = both (assert_fee_collector_addresses_are_valid api c.fee_collectors) _ r7 in
        let (h9, h10) =
          both (assert_fee_collector_allocations_add_up_to_one c.fee_collectors) _ r8 in
        record {
          default_fee = ground (arith, h0);
          weighted_fee = ground (arith, h1);
          automation_fee = ground (arith, h2);
          page_limit = ground (arith, h3);
          slippage = ground (arith, h4);
          twap = ground (arith, h5);
          executors = h6;
          few = ground (arith, h7);
          collectors = h8;
          whole = collectors_lem c.fee_collectors h9;
          escrow_level = ground (arith, h10);
        }

    pub valid_check : (c : Config) → IsValidConfig api c → check_config api c ≡ ok tt
    unfolding check_config assert_fee_level_is_valid assert_page_limit_is_valid
        assert_slippage_tolerance_is_less_than_or_equal_to_one assert_twap_period_is_valid
        assert_no_more_than_10_fee_collectors assert_escrow_level_is_no_greater_than_100_percent
    valid_check c v = ground (
      arith,
      v.default_fee,
      v.weighted_fee,
      v.automation_fee,
      v.page_limit,
      v.slippage,
      v.twap,
      v.executors,
      v.few,
      v.collectors,
      collectors_total c.fee_collectors v.whole,
      v.escrow_level,
    )

    -- A configuration that instantiate_handler accepts is within all the limits, its collectors'
    -- allocations add up to one, and it is the one that is stored.
    pub instantiate_lem :
        (s : Store) (msg : Config) (resp : Response) (s' : Store)
        → instantiate_handler api s msg ≡ ok (resp, s')
        → IsValidConfig api msg × (get_config s' ≡ ok msg)
    unfolding instantiate_handler update_config get_config
    instantiate_lem s msg resp s' h =
        let (a, _, h0) = >>=-eq-ok (api.addr_validate msg.admin) _ h in
        let (_, checked, h1) = >>=-eq-ok (check_config api msg) _ h0 in
        (check_config_valid msg checked, ground arith)

    pub migrate_lem :
        (found : Result (String × String)) (version : String) (s : Store) (msg : Config)
        (resp : Response) (s' : Store)
        → migrate_handler api found version s msg ≡ ok (resp, s')
        → IsValidConfig api msg × (get_config s' ≡ ok msg) × (s'.bounties ≡ s.bounties)
    unfolding migrate_handler update_config get_config
    migrate_lem found version s msg resp s' h =
        let (_, _, h0) = >>=-eq-ok (api.addr_validate msg.admin) _ h in
        let (_, checked, h1) = >>=-eq-ok (check_config api msg) _ h0 in
        let (_, _, h2) = >>=-eq-ok (check_version found version) _ h1 in
        (check_config_valid msg checked, ground arith, ground arith)

    -- With a valid admin address and a configuration within all the limits, whose collectors'
    -- allocations add up to one, instantiate_handler succeeds and stores that configuration.
    pub instantiate_total :
        (s : Store) (msg : Config) (admin : Addr)
        → api.addr_validate msg.admin ≡ ok admin
        → IsValidConfig api msg
        → (resp : Response) × (instantiate_handler api s msg ≡ ok (resp, update_config s msg))
    unfolding instantiate_handler
    instantiate_total s msg admin a v = (instantiated msg, rw (a, valid_check msg v) refl)

    -- A call of update_config_handler that succeeds comes from the admin. Each field of the
    -- configuration it stores but the admin has the value given, where one is given, and otherwise
    -- the one it had; it is within all the limits, the collectors' allocations add up to one, and
    -- no bounty changes.
    pub update_config_lem :
        (s : Store) (info : MessageInfo) (update : ConfigUpdate) (old : Config) (resp : Response)
        (s' : Store)
        → get_config s ≡ ok old
        → update_config_handler api s info update ≡ ok (resp, s')
        → (info.sender ≡ old.admin)
          × (new : Config) × (get_config s' ≡ ok new)
          × IsReplaced old update new
          × IsValidConfig api new
          × (s'.bounties ≡ s.bounties)
    unfolding update_config_handler update_config get_config
    update_config_lem s info update old resp s' c h =
        let (_, sender, h0) = >>=-eq-ok (assert_sender_is_admin s info.sender) _ h in
        let (_, checked, h1) = >>=-eq-ok (check_config api (updated old update)) _ (rw c at h0) in
        (
          admin_sends s info.sender old c sender,
          updated old update,
          ground arith,
          replaced_lem old update,
          check_config_valid (updated old update) checked,
          ground arith,
        )
