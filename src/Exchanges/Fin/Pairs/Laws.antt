-- ===== src/Exchanges/Fin/Pairs/Laws.antt =====
-- A pair that was saved by contracts/exchanges/fin/src/state/pairs.rs is found.
use bounties.Prelude.{
  String, some, [], ◌∷◌, ◌≡◌, ◌≢◌, refl, ◌∙◌, arith, true, false, str_eq, eq_iff, if◌then◌else◌,
}
use bounties.Shared.Result.{ok}
use bounties.Exchanges.Fin.Pairs.{Pair, Pairs, denoms, key_from, load, insert, save_pair, find_pair}
use bounties.Exchanges.Fin.Pairs.Keys.{key_from_comm}

load-insert :
    (pairs : Pairs) (key k : String) (pair : Pair)
    → load (insert pairs key pair) k ≡ (if str_eq k key then some pair else load pairs k)
unfolding load insert
load-insert [] key k pair = refl
load-insert ((j, p) ∷ rest) key k pair =
    ground (arith, load-insert rest key k pair, eq_iff k key, eq_iff key j, eq_iff k j)

saved_lem :
    (pairs : Pairs) (pair : Pair) (ds : String × String)
    → find_pair (save_pair pairs pair) ds
      ≡ (if str_eq (key_from ds) (key_from (denoms pair)) then ok pair else find_pair pairs ds)
unfolding find_pair save_pair
saved_lem pairs pair ds =
    rw (load-insert pairs (key_from (denoms pair)) (key_from ds) pair) (ground arith)

-- After save_pair, find_pair gives the saved pair for its two denominations, in either order, and
-- for all denominations whose key is another one what it gave before.
pub find_pair-save_pair :
    (pairs : Pairs) (pair : Pair)
    → (find_pair (save_pair pairs pair) (pair.base_denom, pair.quote_denom) ≡ ok pair)
      × (find_pair (save_pair pairs pair) (pair.quote_denom, pair.base_denom) ≡ ok pair)
      × ((ds : String × String)
          → key_from ds ≢ key_from (denoms pair)
          → find_pair (save_pair pairs pair) ds ≡ find_pair pairs ds)
find_pair-save_pair pairs pair =
    let key = key_from (denoms pair) in
    let comm = key_from_comm pair.quote_denom pair.base_denom in
    let same : str_eq key key ≡ true = ground (arith, eq_iff key key) in
    (
      saved_lem pairs pair (denoms pair) ∙ rw same refl,
      saved_lem pairs pair (pair.quote_denom, pair.base_denom) ∙ rw (comm, same) refl,
      λ ds other. other_key pairs pair ds other,
    )
  where
    other_key :
        (pairs : Pairs) (pair : Pair) (ds : String × String)
        → key_from ds ≢ key_from (denoms pair)
        → find_pair (save_pair pairs pair) ds ≡ find_pair pairs ds
    other_key pairs pair ds other =
        let differs : str_eq (key_from ds) (key_from (denoms pair)) ≡ false =
          ground (arith, eq_iff (key_from ds) (key_from (denoms pair))) in
        saved_lem pairs pair ds ∙ rw differs refl
