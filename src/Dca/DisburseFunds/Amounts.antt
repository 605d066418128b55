-- ===== src/Dca/DisburseFunds/Amounts.antt =====
-- The amounts of contracts/dca/src/handlers/disburse_funds.rs: the split of what was received, and
-- the accounts of the bounty.
use native.Mathlib.Nat.{mul-le-mul_left}
use bounties.Prelude.{ℕ, ◌+◌, ◌-◌, ◌*◌, ◌<◌, ◌≤◌, ◌≡◌, arith, ◌==◌, if◌then◌else◌}
use bounties.Shared.Result.{ok}
use bounties.Shared.Arith.{Arith, uint128_limit}
use bounties.Shared.Coin.{Coin, add_to}
use bounties.Dca.Types.{Bounty, BountyStatus}
use bounties.Dca.Disbursement.{checked_mul}
use bounties.Dca.Disbursement.Parts.{share}
use bounties.Dca.DisburseFunds.{Split, split_received, settle}

-- Nothing is lost or made: the parts of a split add up to what was received, each fee is its rate's
-- share, rounded down, and the escrow is the level's share of what the fees leave.
pub record IsSplit (received swap_rate automation_rate level : ℕ) (s : Split) : Type 0 where
  pub swap_fee : s.swap_fee ≡ share received swap_rate
  pub automation_fee : s.automation_fee ≡ share (received - s.swap_fee) automation_rate
  pub total_fee : s.total_fee ≡ s.swap_fee + s.automation_fee
  pub after_fees : s.total_after_all_fees + s.total_fee ≡ received
  pub escrow : s.amount_to_escrow ≡ share s.total_after_all_fees level
  pub payment : s.total_after_escrow + s.amount_to_escrow ≡ s.total_after_all_fees

-- The accounts move by exactly the amounts, and an empty bounty stops.
pub record IsSettled (b : Bounty) (sent : ℕ) (s : Split) (b' : Bounty) : Type 0 where
  pub balance : b'.balance.amount + sent ≡ b.balance.amount
  pub swapped : b'.swapped_amount.amount ≡ b.swapped_amount.amount + sent
  pub received : b'.received_amount.amount ≡ b.received_amount.amount + s.total_after_all_fees
  pub escrowed : b'.escrowed_amount.amount ≡ b.escrowed_amount.amount + s.amount_to_escrow
  pub status : b'.status ≡ (if b'.balance.amount == 0 then BountyStatus.inactive else b.status)
  pub same_id : b'.id ≡ b.id
  pub same_destinations : b'.destinations ≡ b.destinations

module _ ⦃m : Arith⦄ where
  -- When the coins received are split, the fees, the escrow and the payment add up to them; each
  -- fee is its rate's share, the automation fee that of what the swap fee leaves, and the escrow
  -- the level's share of what both fees leave, rounded down.
  pub split_received_lem :
      (received swap_rate automation_rate level : ℕ) (s : Split)
      → split_received received swap_rate automation_rate level ≡ ok s
      → IsSplit received swap_rate automation_rate level s
  unfolding split_received checked_mul
  split_received_lem r a b l s h =
      let fee = share r a in
      let rest = r - fee in
      let automation = share rest b in
      let after = r - (fee + automation) in
      let escrow = share after l in
      ground (
        arith,
        m.multiply_ratio_lem r a 1000000000000000000 (omega arith),
        m.sub_lem r fee,
        m.multiply_ratio_lem rest b 1000000000000000000 (omega arith),
        m.add_lem fee automation,
        m.sub_lem r (fee + automation),
        m.multiply_ratio_lem after l 1000000000000000000 (omega arith),
        m.sub_lem after escrow,
      )

  share_le : (n a : ℕ) → a ≤ 1000000000000000000 → share n a ≤ n
  share_le n a h = let bound : n * a ≤ n * 1000000000000000000 = mul-le-mul_left n h in omega arith

  -- With rates and an escrow level of at most one, the split of every amount of 128 bits succeeds.
  pub split_received_total :
      (received swap_rate automation_rate level : ℕ)
      → received < uint128_limit
      → swap_rate ≤ 1000000000000000000
      → automation_rate ≤ 1000000000000000000
      → level ≤ 1000000000000000000
      → (s : Split) × (split_received received swap_rate automation_rate level ≡ ok s)
  unfolding split_received checked_mul
  split_received_total r a b l small ha hb hl =
      let fee = share r a in
      let rest = r - fee in
      let automation = share rest b in
      let after = r - (fee + automation) in
      let escrow = share after l in
      let fee_le = share_le r a ha in
      let automation_le = share_le rest b hb in
      let escrow_le = share_le after l hl in
      (
        record {
          swap_fee = fee;
          automation_fee = automation;
          total_fee = fee + automation;
          total_after_all_fees = after;
          amount_to_escrow = escrow;
          total_after_escrow = after - escrow;
        },
        ground (
          arith,
          m.multiply_ratio_lem r a 1000000000000000000 (omega arith),
          m.sub_lem r fee,
          m.multiply_ratio_lem rest b 1000000000000000000 (omega arith),
          m.add_lem fee automation,
          m.sub_lem r (fee + automation),
          m.multiply_ratio_lem after l 1000000000000000000 (omega arith),
          m.sub_lem after escrow,
        ),
      )

  -- When the accounts of a bounty are settled, its balance falls by what was sent, the swapped,
  -- received and escrowed amounts grow by their parts of the split, its status becomes inactive
  -- exactly where the balance is used up and stays otherwise, and the id and the destinations
  -- stay.
  pub settle_lem :
      (b : Bounty) (sent : Coin) (s : Split) (b' : Bounty)
      → settle b sent s ≡ ok b'
      → IsSettled b sent.amount s b'
  unfolding settle add_to
  settle_lem b sent s b' h = ground (
    arith,
    m.sub_lem b.balance.amount sent.amount,
    m.add_lem b.swapped_amount.amount sent.amount,
    m.add_lem b.received_amount.amount s.total_after_all_fees,
    m.add_lem b.escrowed_amount.amount s.amount_to_escrow,
  )
