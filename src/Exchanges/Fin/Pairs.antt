-- ===== src/Exchanges/Fin/Pairs.antt =====
-- contracts/exchanges/fin/src/types/pair.rs, state/pairs.rs and handlers/create_pairs.rs. The map of
-- pairs is an association list.
pub mod Keys
pub mod Laws
use Prim.Native.String.{compare, ◌++◌ as ◌<>◌}
use package.text.Mathlib.Text.{is_le}
use bounties.Prelude.{
  ℕ, String, Bool, true, false, Option, none, some, List, [], ◌∷◌, not, str_eq, if◌then◌else◌,
  length,
}
use bounties.Shared.Result.{
  StdError, ContractError, number, text, unauthorized, Result, ok, err, fail_if, or_err, ◌>>=◌,
  ◌>>◌,
}
use bounties.Shared.Chain.{Addr, Api, MessageInfo, Response}
use bounties.Dca.Types.{PositionType, enter, exit}

-- `decimal_delta`, an i8, is kept as its byte.
pub record Pair : Type 0 where
  pub base_denom : String
  pub quote_denom : String
  pub address : Addr
  pub decimal_delta : ℕ
  pub price_precision : ℕ

unfoldable pub position_type : Pair → String → PositionType
position_type this swap_denom =
    if str_eq this.quote_denom swap_denom then PositionType.enter else PositionType.exit

abbrev pub denoms : Pair → String × String
denoms this = (this.base_denom, this.quote_denom)

unfoldable pub other_denom : Pair → String → String
other_denom this swap_denom =
    if str_eq this.quote_denom swap_denom then this.base_denom else this.quote_denom

-- `denoms.sort()`, and the two joined by a dash.
unfoldable pub key_from : String × String → String
key_from (a, b) = if is_le (compare a b) then a <> ("-" <> b) else b <> ("-" <> a)

abbrev pub Pairs : Type 0
Pairs = List (String × Pair)

unfoldable pub load : Pairs → String → Option Pair
load [] key = none
load ((k, p) ∷ rest) key = if str_eq key k then some p else load rest key

unfoldable pub insert : Pairs → String → Pair → Pairs
insert [] key pair = (key, pair) ∷ []
insert ((k, p) ∷ rest) key pair =
    let later = insert rest key pair in if str_eq key k then (key, pair) ∷ rest else (k, p) ∷ later

unfoldable pub save_pair : Pairs → Pair → Pairs
save_pair pairs pair = insert pairs (key_from (denoms pair)) pair

unfoldable pub find_pair : Pairs → String × String → Result Pair
find_pair pairs denoms =
    or_err (load pairs (key_from denoms))
      (ContractError.std (StdError.not_found "fin::types::pair::Pair"))

-- The addresses are validated one by one, before each pair is saved.
unfoldable pub save_pairs : Api → Pairs → List Pair → Result Pairs
save_pairs api saved [] = ok saved
save_pairs api saved (pair ∷ pairs) =
    api.addr_validate pair.address >>= λ address. save_pairs api (save_pair saved pair) pairs

-- The admin is the one of the contract's configuration.
unfoldable pub create_pairs_handler :
    Api → Addr → Pairs → MessageInfo → List Pair → Result (Response × Pairs)
create_pairs_handler api admin saved info pairs = do
  fail_if (not (str_eq info.sender admin)) unauthorized
  after ← save_pairs api saved pairs
  ok (
    record {
      attributes = ("create_pairs", text "true") ∷ ("pairs_created", number (length pairs)) ∷ [];
      messages = [];
    },
    after,
  )
