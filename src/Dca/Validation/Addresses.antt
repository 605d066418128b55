-- ===== src/Dca/Validation/Addresses.antt =====
-- The checks of contracts/dca/src/helpers/validation.rs that ask the chain's `Api`, and those of the
-- messages that a destination is called with. `from_json` of a callback is a parameter.
use bounties.Prelude.{
  String, Bool, true, false, Option, none, some, List, [], ◌∷◌, str_eq, if◌then◌else◌,
}
use bounties.Shared.Result.{
  ContractError, text, panic, Check, Result, ok, err, custom_error, or_err, ◌>>=◌, ◌>>◌,
}
use bounties.Shared.Chain.{Addr, Api, Binary}
use bounties.Dca.Types.{Destination, FeeCollector}

-- The message decoded from a callback: one of the two that a destination may be, or another.
pub data Callback : Type 0 where
  z_delegate deposit other : Callback

-- `map_err` on the validation of an address, and `unwrap`.
abbrev or_fail {ℓ} : {A : Type ℓ} → Result A → ContractError → Check
or_fail (ok _) e = ok tt
or_fail (err _) e = err e

unfoldable pub assert_address_is_valid : Api → Addr → String → Check
assert_address_is_valid api address label =
    or_fail (api.addr_validate address)
      (custom_error "{} address {} is invalid" (text label ∷ text address ∷ []))

unfoldable pub assert_addresses_are_valid : Api → List Addr → String → Check
unfolding assert_address_is_valid
assert_addresses_are_valid api [] label = ok tt
assert_addresses_are_valid api (a ∷ rest) label =
    assert_address_is_valid api a label >> assert_addresses_are_valid api rest label

unfoldable pub assert_fee_collector_addresses_are_valid : Api → List FeeCollector → Check
unfolding assert_address_is_valid
assert_fee_collector_addresses_are_valid api [] = ok tt
assert_fee_collector_addresses_are_valid api (c ∷ rest) =
    (if str_eq c.address "community_pool"
      then ok tt
      else assert_address_is_valid api c.address "fee collector")
    >> assert_fee_collector_addresses_are_valid api rest

unfoldable pub assert_destination_callback_addresses_are_valid : Api → List Destination → Check
unfolding assert_address_is_valid
assert_destination_callback_addresses_are_valid api [] = ok tt
assert_destination_callback_addresses_are_valid api (d ∷ rest) =
    or_fail (assert_address_is_valid api d.address "destination") panic
    >> assert_destination_callback_addresses_are_valid api rest

unfoldable pub is_allowed : Callback → Bool
is_allowed Callback.z_delegate = true
is_allowed Callback.deposit = true
is_allowed Callback.other = false

module _ (from_json : Binary → Option Callback) where
  callback_is_valid : Option Binary → Check
  callback_is_valid none = ok tt
  callback_is_valid (some msg) = or_err (from_json msg) panic >>= λ callback.
      if is_allowed callback
      then ok tt
      else err
          (custom_error "Cannot invoke provided destination callback against the DCA contract" [])

  unfoldable pub assert_contract_destination_callbacks_are_valid : List Destination → Addr → Check
  unfolding callback_is_valid
  assert_contract_destination_callbacks_are_valid [] contract = ok tt
  assert_contract_destination_callbacks_are_valid (d ∷ rest) contract =
      (if str_eq d.address contract then callback_is_valid d.msg else ok tt)
      >> assert_contract_destination_callbacks_are_valid rest contract
