-- ===== src/Dca/Execute/Swap.antt =====
-- When an execution of contracts/dca/src/handlers/execute_trigger.rs sends a swap to the exchange,
-- and what it leaves alone.
use bounties.Prelude.{
  ℕ, zero, suc, ◌*◌, ◌/◌, ◌<◌, ◌≤◌, none, some, Option-cases, ◌≡◌, ◌≢◌, ◌⊎◌, inl, inr, refl, false,
  Option, List, [], ◌∷◌, ◌++◌, arith, ltb, ◌==◌, Bool-cases,
}
use bounties.Shared.Result.{panic, Result, ok, err, or_err, ◌>>=◌, >>=-eq-ok}
use bounties.Shared.Arith.{Arith}
use bounties.Shared.Coin.{Coin}
use bounties.Shared.Chain.{
  Api, Balances, Binary, Body, CosmosMsg, Env, Attribute, Response, SubMsg, reply_always,
}
use bounties.Shared.Cw20.Laws.{payee, paid, into_execute_msg_pays}
use bounties.Shared.Cw20.{query_balance, into_execute_msg}
use bounties.Dca.Types.{
  Bounty, Config, ExecutionSkippedReason, slippage_tolerance_exceeded, slippage_query_error,
  swap_amount_adjusted_to_zero, price_threshold_exceeded, is_inactive, get_swap_denom,
}
use bounties.Dca.Store.{Store, create_event}
use bounties.Dca.Exchange.{Exchange, get_slippage}
use bounties.Dca.Swaps.{price_threshold_is_exceeded}
use bounties.Dca.Execute.{
  skip, idle, adjusted_minimum, send_swap, within_slippage, execute_swap, after_swap_reply_id,
}

-- The bounties, their triggers and the configuration are as before.
pub record IsKept (s s' : Store) : Type 0 where
  pub bounties : s'.bounties ≡ s.bounties
  pub triggers : s'.triggers ≡ s.triggers
  pub config : s'.config ≡ s.config

-- The minimum of a swap: the bounty's, scaled by the part that the amount is of its swap amount, each
-- time rounded down; and zero without one.
abbrev pub IsScaled : Bounty → ℕ → ℕ → Type 0
IsScaled b amount minimum =
    ((b.minimum_receive_amount ≡ none) × (minimum ≡ 0))
    ⊎ ((n : ℕ) × (b.minimum_receive_amount ≡ some n)
        × (0 < b.swap_amount)
        × (minimum ≡ n * (amount * 1000000000000000000 / b.swap_amount) / 1000000000000000000))

-- At a positive price, the bounty's swap amount buys at least its minimum, where it has one.
abbrev pub IsAffordable : Bounty → ℕ → Type 0
IsAffordable b price =
    (b.minimum_receive_amount ≡ none)
    ⊎ ((n : ℕ) × (b.minimum_receive_amount ≡ some n)
        × (0 < price)
        × (n * 1000000000000000000
            ≤ b.swap_amount * 1000000000000000000 * 1000000000000000000 / price))

affordable_lem :
    (b : Bounty) (price : ℕ) → price_threshold_is_exceeded b price ≡ ok false → IsAffordable b price
unfolding price_threshold_is_exceeded
affordable_lem b price h = elim (Option-cases b.minimum_receive_amount) [
  | inl none_set ↦ inl none_set
  | inr (n, e) ↦ elim (Bool-cases (price == 0)) [
    | inl free ↦ absurd (by_price (rw (e, free) at h))
    | inr priced ↦ let least = rw (e, priced) at h in inr (n, e, ground arith, ground arith)
  ]
]
  where
    by_price : err panic ≡ ok false → ⊥
    by_price e = cc

module _ ⦃m : Arith⦄ where
  scaled_lem :
      (b : Bounty) (amount minimum : ℕ)
      → adjusted_minimum b amount ≡ ok minimum
      → IsScaled b amount minimum
  unfolding adjusted_minimum
  scaled_lem b amount minimum h = elim (Option-cases b.minimum_receive_amount) [
    | inl none_set ↦ let zero : ok 0 ≡ ok minimum = rw none_set at h in inl (none_set, ground arith)
    | inr (n, e) ↦
        let (positive, same) = by_ratio b.swap_amount amount n minimum (rw e at h) in
        inr (n, e, positive, same)
  ]
    where
      by_ratio :
          (d amount n minimum : ℕ)
          → (or_err (m.from_ratio amount d) panic >>= λ ratio.
              or_err (m.multiply_ratio n ratio 1000000000000000000) panic)
            ≡ ok minimum
          → (0 < d) × (minimum ≡ n * (amount * 1000000000000000000 / d) / 1000000000000000000)
      by_ratio zero amount n minimum g = absurd (ground (arith, m.from_ratio_zero amount))
      by_ratio (suc d) amount n minimum g =
          let ratio = amount * 1000000000000000000 / suc d in
          (
            omega arith,
            ground (
              arith,
              m.from_ratio_lem amount (suc d) (omega arith),
              m.multiply_ratio_lem n ratio 1000000000000000000 (omega arith),
            ),
          )

module _ ⦃m : Arith⦄ (api : Api) (q : Balances) (x : Exchange) (to_json_binary : Body → Binary)
    (env : Env) where
  -- What `send_swap` does, for messages sent before.
  pub record IsMessage (b : Bounty) (config : Config) (swap : Coin) (route : Option Binary)
      (msgs : List SubMsg) (r : Response) : Type 0 where
    pub minimum : ℕ
    pub msg : CosmosMsg
    pub scaled : IsScaled b swap.amount minimum
    pub encoded :
        into_execute_msg api config.exchange_contract_address
          (to_json_binary (Body.swap (record { amount = minimum; denom = b.target_denom }) route))
          swap
        ≡ ok msg
    pub to : payee msg ≡ config.exchange_contract_address
    pub pays : paid msg ≡ swap ∷ []
    pub sent : r.messages ≡ msgs ++ reply_always msg after_swap_reply_id ∷ []

  -- The swap goes to the exchange, within the bounty's price and slippage limits and with its
  -- minimum scaled to the amount.
  pub record IsSent (b : Bounty) (config : Config) (swap : Coin) (route : Option Binary)
      (twap_price : ℕ) (msgs : List SubMsg) (r : Response) : Type 0 where
    pub slippage : ℕ
    pub message : IsMessage b config swap route msgs r
    pub active : is_inactive b ≡ false
    pub positive : swap.amount ≢ 0
    pub affordable : IsAffordable b twap_price
    pub estimated :
        get_slippage x config.exchange_contract_address swap b.target_denom twap_price route
        ≡ ok slippage
    pub tolerated : slippage ≤ b.slippage_tolerance

  skip-IsKept :
      (s : Store) (b : Bounty) (attributes more : List Attribute) (msgs : List SubMsg)
      (reason : ExecutionSkippedReason) (r : Response) (s' : Store)
      → ok (skip env s b attributes msgs reason more) ≡ ok (r, s')
      → IsKept s s' × (r.messages ≡ msgs)
  unfolding create_event
  skip-IsKept s b attributes more msgs reason r s' h = (
    record { bounties = ground arith; triggers = ground arith; config = ground arith },
    ground arith,
  )

  send_swap_lem :
      (s : Store) (b : Bounty) (config : Config) (swap : Coin) (route : Option Binary)
      (attributes : List Attribute) (msgs : List SubMsg) (r : Response) (s' : Store)
      → send_swap api q to_json_binary env s b config swap route attributes msgs ≡ ok (r, s')
      → IsKept s s' × IsMessage b config swap route msgs r
  unfolding send_swap
  send_swap_lem s b config swap route attributes msgs r s' h =
      let (_, _, h1) = >>=-eq-ok (query_balance api q (get_swap_denom b) env.contract) _ h in
      let (_, _, h2) = >>=-eq-ok (query_balance api q b.target_denom env.contract) _ h1 in
      let (minimum, e3, h3) = >>=-eq-ok (adjusted_minimum b swap.amount) _ h2 in
      let (msg, e4, h4) =
        >>=-eq-ok
          (into_execute_msg api config.exchange_contract_address
            (to_json_binary (Body.swap (record { amount = minimum; denom = b.target_denom }) route))
            swap)
          _ h3 in
      let pays =
        into_execute_msg_pays api config.exchange_contract_address
          (to_json_binary (Body.swap (record { amount = minimum; denom = b.target_denom }) route))
          swap msg e4 in
      (
        record { bounties = ground arith; triggers = ground arith; config = ground arith },
        record {
          minimum = minimum;
          msg = msg;
          scaled = scaled_lem b swap.amount minimum e3;
          encoded = e4;
          to = pays.0;
          pays = pays.1;
          sent = ground arith;
        },
      )

  -- Nothing is sent, or a swap within the limits.
  abbrev pub IsWithinLimits :
      Bounty → Config → Coin → Option Binary → ℕ → List SubMsg → Response → Type 0
  IsWithinLimits b config swap route twap_price msgs r =
      (r.messages ≡ msgs) ⊎ IsSent b config swap route twap_price msgs r

  within_slippage_lem :
      (s : Store) (b : Bounty) (config : Config) (swap : Coin) (route : Option Binary)
      (twap_price : ℕ) (attributes : List Attribute) (msgs : List SubMsg) (found : Result ℕ)
      (r : Response) (s' : Store)
      → get_slippage x config.exchange_contract_address swap b.target_denom twap_price route ≡ found
      → is_inactive b ≡ false
      → swap.amount ≢ 0
      → IsAffordable b twap_price
      → within_slippage api q x to_json_binary env s b config swap route twap_price attributes msgs
          found
        ≡ ok (r, s')
      → IsKept s s' × IsWithinLimits b config swap route twap_price msgs r
  unfolding within_slippage
  within_slippage_lem s b config swap route twap_price attributes msgs (ok slippage) r s' e active
        positive affordable h =
      elim (Bool-cases (ltb b.slippage_tolerance slippage)) [
        | inl over ↦
            let (kept, same) =
              skip-IsKept s b attributes _ msgs slippage_tolerance_exceeded r s' (rw over at h) in
            (kept, inl same)
        | inr good ↦
            let (kept, message) =
              send_swap_lem s b config swap route attributes msgs r s' (rw good at h) in
            (
              kept,
              inr (record {
                slippage = slippage;
                message = message;
                active = active;
                positive = positive;
                affordable = affordable;
                estimated = e;
                tolerated = ground arith;
              }),
            )
      ]
  within_slippage_lem s b config swap route twap_price attributes msgs (err panic) r s' e active
        positive affordable h =
      cc
  within_slippage_lem s b config swap route twap_price attributes msgs (err _) r s' e active
        positive affordable h =
      let (kept, same) = skip-IsKept s b attributes _ msgs slippage_query_error r s' h in
      (kept, inl same)

  pub execute_swap_lem :
      (s : Store) (b : Bounty) (config : Config) (swap : Coin) (route : Option Binary)
      (twap_price : ℕ) (attributes : List Attribute) (msgs : List SubMsg) (r : Response)
      (s' : Store)
      → execute_swap api q x to_json_binary env s b config swap route twap_price attributes msgs
        ≡ ok (r, s')
      → IsKept s s' × IsWithinLimits b config swap route twap_price msgs r
  unfolding execute_swap
  execute_swap_lem s b config swap route twap_price attributes msgs r s' h =
      elim (Bool-cases (is_inactive b)) [
        | inl inactive ↦ inactive_kept (rw inactive at h)
        | inr active ↦ elim (Bool-cases (swap.amount == 0)) [
          | inl empty ↦ skipped swap_amount_adjusted_to_zero _ (rw (active, empty) at h)
          | inr positive ↦
              let (exceeded, e, h1) =
                >>=-eq-ok (price_threshold_is_exceeded b twap_price) _
                  (rw (active, positive) at h) in
              elim (Bool-cases exceeded) [
                | inl dear ↦ skipped (price_threshold_exceeded twap_price) _ (rw dear at h1)
                | inr cheap ↦
                    within_slippage_lem s b config swap route twap_price attributes msgs _ r s' refl
                      active (ground arith) (affordable_lem b twap_price (rw cheap at e))
                      (rw cheap at h1)
              ]
        ]
      ]
    where
      skipped :
          (reason : ExecutionSkippedReason) (more : List Attribute)
          → ok (skip env s b attributes msgs reason more) ≡ ok (r, s')
          → IsKept s s' × IsWithinLimits b config swap route twap_price msgs r
      skipped reason more e =
          let (kept, same) = skip-IsKept s b attributes more msgs reason r s' e in (kept, inl same)

      inactive_kept :
          ok (idle s attributes msgs) ≡ ok (r, s')
          → IsKept s s' × IsWithinLimits b config swap route twap_price msgs r
      inactive_kept e = (
        record { bounties = ground arith; triggers = ground arith; config = ground arith },
        inl (ground arith),
      )
