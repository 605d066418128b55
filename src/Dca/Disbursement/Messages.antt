-- ===== src/Dca/Disbursement/Messages.antt =====
-- What the messages of contracts/dca/src/helpers/disbursement.rs send in all, and that they are
-- found when the addresses are valid.
use bounties.Prelude.{
  ℕ, ◌+◌, ◌*◌, ◌<◌, ◌≤◌, ◌≡◌, ◌≢◌, refl, ap, ◌∙◌, String, Option, none, some, List, [], ◌∷◌, map,
  arith, ltb, Bool-cases, Option-cases, inl, inr, length, All, sum_of,
}
use bounties.Shared.Result.{ok, ◌>>=◌, >>=-eq-ok}
use bounties.Shared.Arith.{Arith, uint128_limit}
use bounties.Shared.Coin.{Coin}
use bounties.Shared.Chain.{Addr, Api, CosmosMsg, SubMsg, reply_always}
use bounties.Shared.Storage.{save}
use bounties.Shared.Cw20.Laws.{into_bank_msg_total, into_execute_msg_total}
use bounties.Dca.Types.{Bounty, Destination, PostExecutionActionCacheEntry}
use bounties.Dca.Store.{Store}
use bounties.Dca.Disbursement.{
  checked_mul, expect, destination_msg, entry_for, destination_entry, prepend, destination_entries,
  get_disbursement_messages, after_failed_automation_reply_id,
}
use bounties.Dca.Disbursement.Order.{PaysInOrder, entries-PaysInOrder}
use bounties.Dca.Disbursement.Parts.{
  share, shares_of_one, entry_amount, msg_amount, amounts, option_amount, PaysFunds,
  checked_mul_lem, entry_for_lem,
}

-- What the messages send is what the entries of the cache hold.
pub sent-eq :
    (es : List PostExecutionActionCacheEntry)
    → All PaysFunds es
    → sum_of msg_amount (map (λ (e : PostExecutionActionCacheEntry). e.msg) es)
      ≡ sum_of entry_amount es
sent-eq [] all = refl
sent-eq (e ∷ es) all = omega (arith, ap amounts all.0, sent-eq es all.1)

module _ ⦃m : Arith⦄ (api : Api) where
  entry_lem :
      (denom : String) (n : ℕ) (d : Destination) (o : Option PostExecutionActionCacheEntry)
      → destination_entry api denom n d ≡ ok o
      → (option_amount o ≡ share n d.allocation)
        × ((e : PostExecutionActionCacheEntry) → o ≡ some e → PaysFunds e)
  unfolding destination_entry
  entry_lem denom n d o h = elim (Option-cases (checked_mul n d.allocation)) [
    | inl over ↦ absurd (ground arith)
    | inr (a, e) ↦
        let made : entry_for api d (record { amount = a; denom = denom }) ≡ ok o = rw e at h in
        let parts = entry_for_lem api d (record { amount = a; denom = denom }) o made in
        (parts.0 ∙ (checked_mul_lem n d.allocation a e).0, parts.1)
  ]

  prepend_lem :
      (o : Option PostExecutionActionCacheEntry) (es : List PostExecutionActionCacheEntry)
      → ((e : PostExecutionActionCacheEntry) → o ≡ some e → PaysFunds e)
      → All PaysFunds es
      → (sum_of entry_amount (prepend o es) ≡ option_amount o + sum_of entry_amount es)
        × All PaysFunds (prepend o es)
  prepend_lem none es p all = (omega arith, all)
  prepend_lem (some e) es p all = (refl, (p e refl, all))

  -- The entries hold each destination's share, and each message pays what its entry says.
  pub destination_entries_lem :
      (denom : String) (n : ℕ) (ds : List Destination) (es : List PostExecutionActionCacheEntry)
      → destination_entries api denom n ds ≡ ok es
      → (sum_of entry_amount es ≡ sum_of (λ (d : Destination). share n d.allocation) ds)
        × All PaysFunds es
  unfolding destination_entries
  destination_entries_lem denom n [] [] h = (refl, tt)
  destination_entries_lem denom n [] (e ∷ es) h = cc
  destination_entries_lem denom n (d ∷ ds) es h =
      let (o, e1, h1) =
        >>=-eq-ok (destination_entry api denom n d)
          (λ entry. destination_entries api denom n ds >>= λ entries. ok (prepend entry entries))
          h in
      let (rest, e2, h2) =
        >>=-eq-ok (destination_entries api denom n ds) (λ entries. ok (prepend o entries)) h1 in
      let first = entry_lem denom n d o e1 in
      let others = destination_entries_lem denom n ds rest e2 in
      let both = prepend_lem o rest first.1 others.1 in
      let same : es ≡ prepend o rest = ground arith in
      (rw same (both.0 ∙ omega (arith, first.0, others.0)), rw same both.1)

  destination_msg_total :
      (d : Destination) (c : Coin) (a : Addr)
      → api.addr_validate d.address ≡ ok a
      → c.amount ≢ 0
      → (msg : CosmosMsg) × (destination_msg api d c ≡ ok msg)
  unfolding destination_msg expect
  destination_msg_total d c a valid pos =
      let (bank, e) = into_bank_msg_total api d.address a c valid pos in
      elim (Option-cases d.msg) [
        | inl plain ↦ (bank, rw (e, plain))
        | inr (body, call) ↦
            let (msg, f) = into_execute_msg_total api d.address body c in (msg, rw (e, call) (rw f))
      ]

  entry_for_total :
      (d : Destination) (c : Coin) (a : Addr)
      → api.addr_validate d.address ≡ ok a
      → (o : Option PostExecutionActionCacheEntry) × (entry_for api d c ≡ ok o)
  unfolding entry_for
  entry_for_total d c a valid = elim (Bool-cases (ltb 0 c.amount)) [
    | inl sent ↦
        let (msg, e) = destination_msg_total d c a valid (ground arith) in
        (
          some (record { msg = reply_always msg after_failed_automation_reply_id; funds = c ∷ [] }),
          rw (sent, e),
        )
    | inr nothing ↦ (none, rw nothing)
  ]

  -- Every destination of a bounty was validated when it was set.
  abbrev pub IsAddressable : Destination → Type 0
  IsAddressable d = (a : Addr) × (api.addr_validate d.address ≡ ok a)

  checked_mul_total :
      (n a : ℕ) → n < uint128_limit → a ≤ 1000000000000000000 → (r : ℕ) × (checked_mul n a ≡ some r)
  unfolding checked_mul
  checked_mul_total n a small one =
      let bound : n * a ≤ n * 1000000000000000000 = grind arith in
      (share n a, m.multiply_ratio_lem n a 1000000000000000000 (omega arith) ∙ ground arith)

  destination_entries_total :
      (denom : String) (n : ℕ) (ds : List Destination)
      → n < uint128_limit
      → sum_of (λ (d : Destination). d.allocation) ds ≤ 1000000000000000000
      → All IsAddressable ds
      → (es : List PostExecutionActionCacheEntry) × (destination_entries api denom n ds ≡ ok es)
  unfolding destination_entries destination_entry
  destination_entries_total denom n [] small one all = ([], refl)
  destination_entries_total denom n (d ∷ ds) small one all =
      let (r, e) = checked_mul_total n d.allocation small (omega arith) in
      let (a, valid) = all.0 in
      let (o, f) = entry_for_total d (record { amount = r; denom = denom }) a valid in
      let (es, g) = destination_entries_total denom n ds small (omega arith) all.1 in
      (prepend o es, rw (e, f, g))

  -- A disbursement of an amount of 128 bits over destinations with valid addresses, whose
  -- allocations add up to one, always succeeds. Its messages are the ones put into the cache of
  -- the bounty: in the order of the destinations, each pays the destination's address its share of
  -- the amount, which the cache notes for it, where that is not zero. Together they send at most
  -- the amount and fall short of it by at most one unit for each destination.
  pub disbursement_lem :
      (s : Store) (b : Bounty) (n : ℕ)
      → n < uint128_limit
      → sum_of (λ (d : Destination). d.allocation) b.destinations ≡ 1000000000000000000
      → All IsAddressable b.destinations
      → (msgs : List SubMsg) × (es : List PostExecutionActionCacheEntry)
        × (get_disbursement_messages api s b n
            ≡ ok (
              msgs,
              record s { post_execution_action_cache = save b.id es s.post_execution_action_cache },
            ))
        × (msgs ≡ map (λ (e : PostExecutionActionCacheEntry). e.msg) es)
        × PaysInOrder b.target_denom n b.destinations es
        × (sum_of msg_amount msgs ≤ n)
        × (n ≤ sum_of msg_amount msgs + length b.destinations)
  unfolding get_disbursement_messages
  disbursement_lem s b n small one all =
      let (es, e) =
        destination_entries_total b.target_denom n b.destinations small (omega arith) all in
      let (sum, pays) = destination_entries_lem b.target_denom n b.destinations es e in
      let bounds = shares_of_one (λ (d : Destination). d.allocation) n b.destinations one in
      let sent = sent-eq es pays in
      (
        map (λ (x : PostExecutionActionCacheEntry). x.msg) es,
        es,
        rw e,
        refl,
        entries-PaysInOrder api b.target_denom n b.destinations es e,
        omega arith,
        omega arith,
      )
