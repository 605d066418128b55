-- ===== src/Dca/Exchange/Slippage.antt =====
-- What `get_slippage` of contracts/dca/src/helpers/price.rs reports.
use bounties.Prelude.{
  ℕ, ◌-◌, ◌*◌, ◌/◌, ◌<◌, ◌≤◌, ◌≡◌, refl, Option, arith, ltb, ◌==◌, String, Bool-cases, ◌⊎◌, inl,
  inr,
}
use bounties.Shared.Result.{ContractError, panic, Result, ok, err}
use bounties.Shared.Arith.{Arith}
use bounties.Shared.Coin.{Coin}
use bounties.Shared.Chain.{Addr, Binary}
use bounties.Dca.Exchange.{Exchange, slippage_of, slippage_or_zero, get_slippage}

no_excess :
    (price belief : ℕ)
    → 0 < belief
    → price ≤ belief
    → (price - belief) * 1000000000000000000 / belief ≡ 0
no_excess price belief a h =
    let none_left : (price - belief) * 1000000000000000000 ≡ 0 = omega arith in
    rw none_left (ground arith)

module _ ⦃m : Arith⦄ where
  pub slippage_of_lem :
      (swap_amount received belief slippage : ℕ)
      → 0 < received
      → 0 < belief
      → slippage_of swap_amount received belief ≡ ok slippage
      → slippage
        ≡ (swap_amount * 1000000000000000000 / received - belief) * 1000000000000000000 / belief
  unfolding slippage_of
  slippage_of_lem n r belief slippage a b h =
      let price = n * 1000000000000000000 / r in
      ground (
        arith,
        m.from_ratio_lem n r a,
        m.from_ratio_lem (price - belief) belief b,
        no_excess price belief b,
      )

  panics :
      (n belief : ℕ) (q : Result Coin) (e : ContractError)
      → slippage_or_zero n q belief ≡ err e
      → e ≡ panic
  unfolding slippage_or_zero slippage_of
  panics n belief (err _) e h = cc
  panics n belief (ok c) e h = ground arith

  by_answer :
      (n belief slippage : ℕ) (q : Result Coin)
      → 0 < belief
      → slippage_or_zero n q belief ≡ ok slippage
      → ((slippage ≡ 0) × ((e : ContractError) × (q ≡ err e)))
        ⊎ ((received : Coin) × (q ≡ ok received)
            × (slippage
                ≡ (n * 1000000000000000000 / received.amount - belief)
                  * 1000000000000000000
                  / belief))
  unfolding slippage_or_zero slippage_of
  by_answer n belief slippage (err e) pos h = inl (ground arith, (e, refl))
  by_answer n belief slippage (ok c) pos h = elim (Bool-cases (ltb 0 c.amount)) [
    | inl some_received ↦
        inr (c, refl, slippage_of_lem n c.amount belief slippage (ground arith) pos h)
    | inr none_received ↦
        let none_left : c.amount ≡ 0 = ground arith in
        absurd (divides n belief slippage (rw none_left at h))
  ]
    where
      divides : (n belief slippage : ℕ) → slippage_of n 0 belief ≡ ok slippage → ⊥
      divides n belief slippage h = ground (arith, m.from_ratio_zero n)

  -- Against a positive believed price, the slippage of an amount that is not zero, where the
  -- exchange answers, is what the expected price lies above the believed one, as a part of that
  -- and rounded down; there is none for an amount of zero or where the exchange does not answer.
  pub get_slippage_lem :
      (x : Exchange) (exchange : Addr) (swap : Coin) (target : String) (belief slippage : ℕ)
      (route : Option Binary)
      → 0 < belief
      → get_slippage x exchange swap target belief route ≡ ok slippage
      → ((slippage ≡ 0)
          × ((swap.amount ≡ 0)
              ⊎ ((e : ContractError) × (x.get_expected_receive_amount exchange swap target route
                    ≡ err e))))
        ⊎ ((received : Coin) × (x.get_expected_receive_amount exchange swap target route
              ≡ ok received)
            × (slippage
                ≡ (swap.amount * 1000000000000000000 / received.amount - belief)
                  * 1000000000000000000
                  / belief))
  unfolding get_slippage
  get_slippage_lem x exchange swap target belief slippage route pos h =
      elim (Bool-cases (swap.amount == 0)) [
        | inl empty ↦ inl (ground arith, inl (ground arith))
        | inr swapped ↦
            elim (by_answer swap.amount belief slippage
              (x.get_expected_receive_amount exchange swap target route) pos (rw swapped at h)) [
                | inl (zero, failed) ↦ inl (zero, inr failed)
                | inr answered ↦ inr answered
              ]
      ]

  -- The caller's handling of an error never meets one: an error of the exchange is no error here.
  pub get_slippage-err :
      (x : Exchange) (exchange : Addr) (swap : Coin) (target : String) (belief : ℕ)
      (route : Option Binary) (e : ContractError)
      → get_slippage x exchange swap target belief route ≡ err e
      → e ≡ panic
  unfolding get_slippage
  get_slippage-err x exchange swap target belief route e h = elim (Bool-cases (swap.amount == 0)) [
    | inl empty ↦ ground arith
    | inr swapped ↦
        panics swap.amount belief (x.get_expected_receive_amount exchange swap target route) e
          (rw swapped at h)
  ]
