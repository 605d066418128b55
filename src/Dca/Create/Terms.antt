-- ===== src/Dca/Create/Terms.antt =====
-- What contracts/dca/src/handlers/create_vault.rs stores for a new bounty.
use bounties.Prelude.{ℕ, ◌≤◌, ◌≡◌, refl, Option, none, some, List, [], ◌∷◌, arith, length, ltb}
use bounties.Shared.Result.{Check, ok, >>=-eq-ok}
use bounties.Shared.Arith.{Arith}
use bounties.Shared.Coin.{Coin}
use bounties.Shared.Chain.{Addr, Api, Binary, Env}
use bounties.Dca.Types.{Destination}
use bounties.Dca.Store.{Store}
use bounties.Dca.Validation.Access.{assert_target_start_time_is_not_in_the_past}
use bounties.Dca.Validation.Addresses.{
  Callback, assert_destination_callback_addresses_are_valid,
  assert_contract_destination_callbacks_are_valid,
}
use bounties.Dca.Validation.Values.{
  assert_destinations_limit_is_not_breached, assert_time_interval_is_valid,
  assert_label_is_no_longer_than_100_characters,
  assert_slippage_tolerance_is_less_than_or_equal_to_one,
  assert_no_destination_allocations_are_zero,
}
use bounties.Dca.Validation.Strategies.{assert_route_exists_for_denoms}
use bounties.Dca.Validation.Terms.{
  IsLong, IsShared, passed, limit_lem, none_empty_lem, whole_lem, tolerance_lem, interval_lem,
}
use bounties.Dca.Exchange.{Exchange}
use bounties.Dca.Create.{
  CreateBounty, check_some, or_default, or_owner, check_destinations, check_terms,
}

check_some_lem {ℓ} :
    {A : Type ℓ} (o : Option A) (check : A → Check) (p : Unit) (a : A)
    → check_some o check ≡ ok p
    → o ≡ some a
    → check a ≡ ok p
check_some_lem none check p a h e = cc
check_some_lem (some b) check p a h e = let same : b ≡ a = cc in rw (← same) h

pub or_owner_few :
    (owner : Addr) (ds : List Destination) → length ds ≤ 10 → length (or_owner owner ds) ≤ 10
unfolding or_owner
or_owner_few owner [] h = ground arith
or_owner_few owner (d ∷ ds) h = h

-- The message's own terms.
pub record IsChecked (env : Env) (msg : CreateBounty) : Type 0 where
  pub few : length msg.destinations ≤ 10
  pub long : IsLong msg.time_interval
  pub tolerable : (t : ℕ) → msg.slippage_tolerance ≡ some t → t ≤ 1000000000000000000
  pub later : (t : ℕ) → msg.target_start_time_utc_seconds ≡ some t → env.time ≤ t

start_lem :
    (now t : ℕ) (p : Unit) → assert_target_start_time_is_not_in_the_past now t ≡ ok p → now ≤ t
unfolding assert_target_start_time_is_not_in_the_past
start_lem now t p h = let late = passed (ltb t now) _ p h in ground arith

pub default_lem :
    (o : Option ℕ) (d : ℕ)
    → ((t : ℕ) → o ≡ some t → t ≤ 1000000000000000000)
    → d ≤ 1000000000000000000
    → or_default o d ≤ 1000000000000000000
default_lem none d f h = h
default_lem (some t) d f h = f t refl

module _ ⦃m : Arith⦄ (api : Api) (x : Exchange) (from_json : Binary → Option Callback)
    (env : Env) where
  pub check_terms_lem :
      (s : Store) (msg : CreateBounty) (funds : Coin) (p : Unit)
      → check_terms api x from_json env s msg funds ≡ ok p
      → IsChecked env msg
  unfolding check_terms
  check_terms_lem s msg funds p h =
      let (p1, e1, h1) =
        >>=-eq-ok (assert_destinations_limit_is_not_breached msg.destinations) _ h in
      let (p2, e2, h2) = >>=-eq-ok (assert_time_interval_is_valid msg.time_interval) _ h1 in
      let (_, _, h3) =
        >>=-eq-ok (assert_route_exists_for_denoms x s funds.denom msg.target_denom msg.route) _
          h2 in
      let (_, _, h4) =
        >>=-eq-ok (check_some msg.label assert_label_is_no_longer_than_100_characters) _ h3 in
      let (p5, e5, h5) =
        >>=-eq-ok
          (check_some msg.slippage_tolerance assert_slippage_tolerance_is_less_than_or_equal_to_one)
          _ h4 in
      record {
        few = limit_lem msg.destinations p1 e1;
        long = interval_lem msg.time_interval p2 e2;
        tolerable = λ t e. tolerance_lem t p5 (check_some_lem msg.slippage_tolerance _ p5 t e5 e);
        later = λ t e. start_lem env.time t p (
            check_some_lem msg.target_start_time_utc_seconds
              (λ u. assert_target_start_time_is_not_in_the_past env.time u) p t h5 e);
      }

  pub shared_lem :
      (ds : List Destination) (p : Unit)
      → length ds ≤ 10
      → check_destinations api x from_json env ds ≡ ok p
      → IsShared ds
  unfolding check_destinations
  shared_lem ds p few h =
      let (_, _, h1) = >>=-eq-ok (assert_destination_callback_addresses_are_valid api ds) _ h in
      let (_, _, h2) =
        >>=-eq-ok (assert_contract_destination_callbacks_are_valid from_json ds env.contract) _
          h1 in
      let (p3, e3, h3) = >>=-eq-ok (assert_no_destination_allocations_are_zero ds) _ h2 in
      record { few = few; none_empty = none_empty_lem ds p3 e3; whole = whole_lem ds p h3 }
