-- ===== src/Dca/Fees/Totals.antt =====
-- The fee collectors of contracts/dca/src/helpers/fees.rs are never paid more than the fees.
use native.Mathlib.Nat.{mul-div-le, le_of_mul-le-mul_left}
use native.Mathlib.Decide.{dec_lt}
use bounties.Prelude.{
  ℕ, zero, suc, ◌+◌, ◌-◌, ◌*◌, ◌/◌, ◌≤◌, ◌≡◌, refl, ap, ◌∙◌, String, Bool, true, false, some, List,
  [], ◌∷◌, ◌++◌, arith, ltb, if◌then◌else◌, Bool-cases, Option-cases, inl, inr, sum_of,
}
use bounties.Shared.Result.{Result, ok, err, ◌>>=◌, >>=-eq-ok}
use bounties.Shared.Arith.{Arith}
use bounties.Shared.Coin.{Coin}
use bounties.Shared.Chain.{Api, Env, SubMsg, sub_msg}
use bounties.Shared.Cw20.{into_bank_msg}
use bounties.Shared.Cw20.Laws.{into_bank_msg_pays}
use bounties.Dca.Types.{FeeCollector, Config}
use bounties.Dca.Store.{Store, get_config}
use bounties.Dca.Disbursement.{checked_mul, expect}
use bounties.Dca.Disbursement.Parts.{share, share_bounds, checked_mul_lem, msg_amount, expect-eq-ok}
use bounties.Dca.Fees.{
  is_community_pool, community_pool_allocation, effective_collector, effective_collectors,
  message_for, fee_message, collector_messages, all_fee_messages, get_fee_messages,
}

abbrev pub allocations : List FeeCollector → ℕ
allocations = sum_of (λ (c : FeeCollector). c.allocation)

abbrev pub sum : List ℕ → ℕ
sum = sum_of (λ (n : ℕ). n)

abbrev pub sent : List SubMsg → ℕ
sent = sum_of msg_amount

pub sent-append : (xs ys : List SubMsg) → sent (xs ++ ys) ≡ sent xs + sent ys
sent-append [] ys = omega arith
sent-append (x ∷ xs) ys = omega (arith, sent-append xs ys)

append-eq-ok :
    (r t : Result (List SubMsg)) (msgs : List SubMsg)
    → (r >>= λ a. t >>= λ b. ok (a ++ b)) ≡ ok msgs
    → (a : List SubMsg) × (b : List SubMsg) × (r ≡ ok a) × (t ≡ ok b) × (msgs ≡ a ++ b)
append-eq-ok (ok a) (ok b) msgs h = (a, b, refl, refl, ground arith)
append-eq-ok (ok a) (err e) msgs h = cc
append-eq-ok (err e) t msgs h = cc

module _ (api : Api) (env : Env) (skip : Bool) where
  message_for_lem :
      (c : FeeCollector) (coin : Coin) (msgs : List SubMsg)
      → message_for api env skip c coin ≡ ok msgs
      → sent msgs ≤ coin.amount
  unfolding message_for
  message_for_lem c coin msgs h = elim (Bool-cases (is_community_pool c)) [
    | inl pool ↦ ground arith
    | inr other ↦ elim (Bool-cases (ltb 0 coin.amount)) [
      | inl positive ↦
          let (msg, e, made) =
            >>=-eq-ok (expect (into_bank_msg api c.address (coin ∷ [])))
              (λ msg. ok (sub_msg msg ∷ [])) (rw (positive, other) at h) in
          let pays = into_bank_msg_pays api c.address coin msg (expect-eq-ok _ msg e) in
          ground (arith, pays.1)
      | inr nothing ↦ ground arith
    ]
  ]

module _ ⦃m : Arith⦄ (api : Api) (env : Env) (denom : String) (skip : Bool) where
  fee_message_lem :
      (c : FeeCollector) (fee : ℕ) (msgs : List SubMsg)
      → fee_message api env denom skip c fee ≡ ok msgs
      → sent msgs ≤ share fee c.allocation
  unfolding fee_message
  fee_message_lem c fee msgs h = elim (Option-cases (checked_mul fee c.allocation)) [
    | inl over ↦ absurd (ground arith)
    | inr (a, e) ↦
        let made : message_for api env skip c (record { amount = a; denom = denom }) ≡ ok msgs =
          rw e at h in
        omega (
          arith,
          message_for_lem api env skip c (record { amount = a; denom = denom }) msgs made,
          (checked_mul_lem fee c.allocation a e).0,
        )
  ]

  collector_messages_lem :
      (c : FeeCollector) (fees : List ℕ) (msgs : List SubMsg)
      → collector_messages api env denom skip c fees ≡ ok msgs
      → 1000000000000000000 * sent msgs ≤ c.allocation * sum fees
  unfolding collector_messages
  collector_messages_lem c [] msgs h = ground arith
  collector_messages_lem c (fee ∷ fees) msgs h =
      let (a, b, ea, eb, e) =
        append-eq-ok (fee_message api env denom skip c fee)
          (collector_messages api env denom skip c fees) msgs h in
      rw (e, sent-append)
        (omega (
          arith,
          fee_message_lem c fee a ea,
          collector_messages_lem c fees b eb,
          share_bounds fee c.allocation,
        ))

  all_fee_messages_lem :
      (cs : List FeeCollector) (fees : List ℕ) (msgs : List SubMsg)
      → all_fee_messages api env denom skip cs fees ≡ ok msgs
      → 1000000000000000000 * sent msgs ≤ allocations cs * sum fees
  unfolding all_fee_messages
  all_fee_messages_lem [] fees msgs h = ground arith
  all_fee_messages_lem (c ∷ cs) fees msgs h =
      let (a, b, ea, eb, e) =
        append-eq-ok (collector_messages api env denom skip c fees)
          (all_fee_messages api env denom skip cs fees) msgs h in
      rw (e, sent-append)
        (omega (arith, collector_messages_lem c fees a ea, all_fee_messages_lem cs fees b eb))

-- The allocations that remain when the community pool is left out.
abbrev pub others : List FeeCollector → ℕ
others = sum_of (λ (c : FeeCollector). if is_community_pool c then 0 else c.allocation)

pub others-pool :
    (cs : List FeeCollector) → others cs + community_pool_allocation cs ≤ allocations cs
unfolding community_pool_allocation
others-pool [] = omega arith
others-pool (c ∷ cs) = ground (arith, others-pool cs, others_le cs)
  where
    others_le : (l : List FeeCollector) → others l ≤ allocations l
    others_le [] = omega arith
    others_le (x ∷ l) = ground (arith, others_le l)

module _ ⦃m : Arith⦄ where
  pub from_ratio-le : (n d a : ℕ) → m.from_ratio n d ≡ some a → d * a ≤ n * 1000000000000000000
  from_ratio-le n zero a h = ground (arith, m.from_ratio_zero n)
  from_ratio-le n (suc d) a h =
      let value : a ≡ n * 1000000000000000000 / suc d =
        ground (arith, m.from_ratio_lem n (suc d) (omega arith)) in
      rw value (mul-div-le (n * 1000000000000000000) (suc d))

  effective_all :
      (all cs es : List FeeCollector) → effective_collectors false all cs ≡ ok es → es ≡ cs
  unfolding effective_collectors effective_collector
  effective_all all [] es h = ground arith
  effective_all all (c ∷ cs) es h =
      let (rest, e, f) = >>=-eq-ok (effective_collectors false all cs) (λ l. ok (c ∷ l)) h in
      ground (arith, effective_all all cs rest e)

  -- Scaling up by the share of the pool keeps the allocations within one.
  effective_others :
      (all cs es : List FeeCollector) (rest : ℕ)
      → m.sub 1000000000000000000 (community_pool_allocation all) ≡ some rest
      → effective_collectors true all cs ≡ ok es
      → rest * allocations es ≤ 1000000000000000000 * others cs
  unfolding effective_collectors effective_collector
  effective_others all [] es rest r h = ground arith
  effective_others all (c ∷ cs) es rest r h = elim (Bool-cases (is_community_pool c)) [
    | inl pool ↦
        let (l, e, f) = >>=-eq-ok (effective_collectors true all cs) (λ l. ok l) (rw pool at h) in
        rw pool (ground (arith, effective_others all cs l rest r e))
    | inr other ↦ elim (Option-cases (m.from_ratio c.allocation rest)) [
      | inl over ↦ cc (rw (other, r, over) at h)
      | inr (a, ratio) ↦
          let (l, e, f) =
            >>=-eq-ok (effective_collectors true all cs)
              (λ l. ok (record { address = c.address; allocation = a } ∷ l))
              (rw (other, r, ratio) at h) in
          let ih = effective_others all cs l rest r e in
          let scaled = from_ratio-le c.allocation rest a ratio in
          let same : allocations es ≡ a + allocations l = ground arith in
          rw (other, same) (omega arith)
    ]
  ]

  -- Where the pool has everything, nobody else can be paid.
  effective_none :
      (all cs es : List FeeCollector)
      → m.sub 1000000000000000000 (community_pool_allocation all) ≡ some 0
      → effective_collectors true all cs ≡ ok es
      → allocations es ≡ 0
  unfolding effective_collectors effective_collector
  effective_none all [] es r h = ground arith
  effective_none all (c ∷ cs) es r h = elim (Bool-cases (is_community_pool c)) [
    | inl pool ↦
        let (l, e, f) = >>=-eq-ok (effective_collectors true all cs) (λ l. ok l) (rw pool at h) in
        ground (arith, effective_none all cs l r e)
    | inr other ↦ cc (rw (other, r, m.from_ratio_zero c.allocation) at h)
  ]

  effective_le :
      (skip : Bool) (all es : List FeeCollector)
      → allocations all ≡ 1000000000000000000
      → effective_collectors skip all all ≡ ok es
      → allocations es ≤ 1000000000000000000
  effective_le false all es one h = rw (effective_all all all es h) (omega arith)
  effective_le true all es one h =
      let cp = community_pool_allocation all in
      let pool : others all + cp ≤ 1000000000000000000 = omega (arith, others-pool all) in
      let r : m.sub 1000000000000000000 cp ≡ some (1000000000000000000 - cp) =
        m.sub_lem 1000000000000000000 cp ∙ ground arith in
      elim (dec_lt cp 1000000000000000000) [
        | yes some_left ↦
            let scaled = effective_others all all es (1000000000000000000 - cp) r h in
            let whole : (1000000000000000000 - cp) * allocations es
                ≤ (1000000000000000000 - cp) * 1000000000000000000 =
              omega arith in
            le_of_mul-le-mul_left whole (omega arith)
        | no nothing_left ↦
            let zero_left : m.sub 1000000000000000000 cp ≡ some 0 =
              r ∙ ap (λ (n : ℕ). some n) (omega arith) in
            omega (arith, effective_none all all es zero_left h)
      ]

  -- If the allocations of the fee collectors add up to one, the messages for a list of fees send
  -- at most the sum of the fees, both with the share of the community pool and when it is skipped
  -- and the other shares are scaled up.
  pub fee_messages_le :
      (api : Api) (s : Store) (env : Env) (fees : List ℕ) (denom : String) (skip : Bool)
      (config : Config) (msgs : List SubMsg)
      → get_config s ≡ ok config
      → allocations config.fee_collectors ≡ 1000000000000000000
      → get_fee_messages api s env fees denom skip ≡ ok msgs
      → sent msgs ≤ sum fees
  unfolding get_fee_messages
  fee_messages_le api s env fees denom skip config msgs c one h =
      let (es, e, made) =
        >>=-eq-ok (effective_collectors skip config.fee_collectors config.fee_collectors)
          (λ es. all_fee_messages api env denom skip es fees) (rw c at h) in
      let few = effective_le skip config.fee_collectors es one e in
      let whole : allocations es * sum fees ≤ 1000000000000000000 * sum fees = grind arith in
      omega (arith, all_fee_messages_lem api env denom skip es fees msgs made)
