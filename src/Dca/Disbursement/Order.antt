-- ===== src/Dca/Disbursement/Order.antt =====
-- Which destination each message of contracts/dca/src/helpers/disbursement.rs pays, and in what order.
use bounties.Prelude.{
  ℕ, ◌<◌, ◌≡◌, ◌⊎◌, refl, String, Option, none, some, List, [], ◌∷◌, arith, ltb, Bool-cases,
  Option-cases, inl, inr,
}
use bounties.Shared.Result.{ok, >>=-eq-ok, ok-eq}
use bounties.Shared.Arith.{Arith}
use bounties.Shared.Coin.{Coin}
use bounties.Shared.Chain.{Api, reply_always}
use bounties.Shared.Cw20.Laws.{payee, paid}
use bounties.Dca.Types.{Destination, PostExecutionActionCacheEntry}
use bounties.Dca.Disbursement.{
  checked_mul, destination_msg, entry_for, destination_entry, prepend, destination_entries,
  after_failed_automation_reply_id,
}
use bounties.Dca.Disbursement.Parts.{share, checked_mul_lem, destination_msg_pays}

-- An entry for a destination: its message pays the destination's address one coin, which the entry
-- notes.
pub record PaysTo (d : Destination) (c : Coin) (e : PostExecutionActionCacheEntry) : Type 0 where
  pub positive : 0 < c.amount
  pub to : payee e.msg.msg ≡ d.address
  pub coin : paid e.msg.msg ≡ c ∷ []
  pub noted : e.funds ≡ c ∷ []

-- The entry, where there is one, for a coin that a destination is due.
abbrev IsEntryFor : Destination → Coin → Option PostExecutionActionCacheEntry → Type 0
IsEntryFor d c none = c.amount ≡ 0
IsEntryFor d c (some e) = PaysTo d c e

-- The entries pay the destinations one after the other, each its share of an amount; a destination
-- whose share is rounded down to nothing has no entry.
abbrev pub PaysInOrder : String → ℕ → List Destination → List PostExecutionActionCacheEntry → Type 0
PaysInOrder denom n [] es = es ≡ []
PaysInOrder denom n (d ∷ ds) es =
    ((share n d.allocation ≡ 0) × PaysInOrder denom n ds es)
    ⊎ ((e : PostExecutionActionCacheEntry) × (rest : List PostExecutionActionCacheEntry) × (es
          ≡ e ∷ rest)
        × PaysTo d (record { amount = share n d.allocation; denom = denom }) e
        × PaysInOrder denom n ds rest)

module _ (api : Api) where
  entry_for-IsEntryFor :
      (d : Destination) (c : Coin) (o : Option PostExecutionActionCacheEntry)
      → entry_for api d c ≡ ok o
      → IsEntryFor d c o
  unfolding entry_for
  entry_for-IsEntryFor d c o h = elim (Bool-cases (ltb 0 c.amount)) [
    | inl sent ↦
        let (msg, e, made) = >>=-eq-ok (destination_msg api d c) _ (rw sent at h) in
        let pays = destination_msg_pays api d c msg e in
        let entry : PostExecutionActionCacheEntry = record {
          msg = reply_always msg after_failed_automation_reply_id;
          funds = c ∷ [];
        } in
        let done : IsEntryFor d c (some entry) = record {
          positive = ground arith;
          to = pays.0;
          coin = pays.1;
          noted = refl;
        } in
        let same = ok-eq (some entry) o made in rw (← same) done
    | inr nothing ↦
        let same = ok-eq none o (rw nothing at h) in
        let zero : IsEntryFor d c none = ground arith in rw (← same) zero
  ]

  module _ ⦃m : Arith⦄ where
    entry-IsEntryFor :
        (denom : String) (n : ℕ) (d : Destination) (o : Option PostExecutionActionCacheEntry)
        → destination_entry api denom n d ≡ ok o
        → IsEntryFor d (record { amount = share n d.allocation; denom = denom }) o
    unfolding destination_entry
    entry-IsEntryFor denom n d o h = elim (Option-cases (checked_mul n d.allocation)) [
      | inl over ↦ absurd (ground arith)
      | inr (a, e) ↦
          let (same, _) = checked_mul_lem n d.allocation a e in
          let made = entry_for-IsEntryFor d (record { amount = a; denom = denom }) o (rw e at h) in
          rw (← same) made
    ]

    prepended :
        (denom : String) (n : ℕ) (d : Destination) (ds : List Destination)
        (o : Option PostExecutionActionCacheEntry) (rest : List PostExecutionActionCacheEntry)
        → IsEntryFor d (record { amount = share n d.allocation; denom = denom }) o
        → PaysInOrder denom n ds rest
        → PaysInOrder denom n (d ∷ ds) (prepend o rest)
    prepended denom n d ds none rest zero others = inl (zero, others)
    prepended denom n d ds (some e) rest pays others = inr (e, rest, refl, pays, others)

    pub entries-PaysInOrder :
        (denom : String) (n : ℕ) (ds : List Destination) (es : List PostExecutionActionCacheEntry)
        → destination_entries api denom n ds ≡ ok es
        → PaysInOrder denom n ds es
    unfolding destination_entries
    entries-PaysInOrder denom n [] es h = ground arith
    entries-PaysInOrder denom n (d ∷ ds) es h =
        let (o, e1, h1) = >>=-eq-ok (destination_entry api denom n d) _ h in
        let (rest, e2, h2) = >>=-eq-ok (destination_entries api denom n ds) _ h1 in
        let same = ok-eq (prepend o rest) es h2 in
        let others = entries-PaysInOrder denom n ds rest e2 in
        let done = prepended denom n d ds o rest (entry-IsEntryFor denom n d o e1) others in
        rw (← same) done
