-- ===== src/Dca/DisburseEscrow/Emptied.antt =====
-- A call of `disburse_escrow_handler` pays out at most the escrow, and only once.
use bounties.Prelude.{
  ℕ, ◌+◌, ◌<◌, ◌≤◌, ◌≡◌, refl, ◌∙◌, true, false, none, some, List, [], ◌∷◌, ◌++◌, arith, ◌==◌, ◌⊎◌,
  inl, inr, Bool-cases, str_eq, eq_iff, ap, sum_of,
}
use bounties.Shared.Result.{Result, ok, >>=-eq-ok}
use bounties.Shared.Arith.{Arith}
use bounties.Shared.Coin.{Coin, subtract, empty_of}
use bounties.Shared.Coin.Laws.{subtract_amount}
use bounties.Shared.Chain.{Addr, Api, Env, MessageInfo, Response, SubMsg}
use bounties.Shared.Storage.{may_load}
use bounties.Shared.Storage.Laws.{may_load-save, may_load-remove}
use bounties.Dca.Types.{Bounty, Config, Destination, get_swap_denom}
use bounties.Dca.Store.{
  Store, get_config, get_bounty, bounty_from, bounty_data, get_disburse_escrow_task_due_date,
}
use bounties.Dca.Validation.Access.{contains, assert_sender_is_executor}
use bounties.Dca.Disbursement.{destination_entries, get_disbursement_messages}
use bounties.Dca.DisburseFunds.Conservation.{disbursement_le}
use bounties.Dca.Fees.{get_fee_messages, get_performance_fee}
use bounties.Dca.Fees.Performance.{performance_fee_le_escrow}
use bounties.Dca.Fees.Totals.{allocations, sum, sent, sent-append, fee_messages_le}
use bounties.Dca.DisburseEscrow.{
  TwapQuery, assert_due, escrow_attributes, nothing_escrowed, emptied, pay_escrow, disburse_due,
  disburse_escrow_handler,
}

abbrev pub without_escrow : Bounty → Bounty
without_escrow b = record b { escrowed_amount = empty_of b.escrowed_amount }

-- What a payment of the escrow leaves in the store.
pub record IsEmptied (b : Bounty) (s s' : Store) : Type 0 where
  pub bounty : may_load b.id s'.bounties ≡ some (bounty_data (without_escrow b))
  pub task : may_load b.id s'.disburse_escrow_tasks ≡ none
  pub same_config : s'.config ≡ s.config

-- The sender is an executor, the admin or the contract itself.
abbrev pub IsAllowed : Config → Env → Addr → Type 0
IsAllowed config env sender =
    ((before after : List Addr) × (config.executors ≡ before ++ sender ∷ after))
    ⊎ ((sender ≡ config.admin) ⊎ (sender ≡ env.contract))

contains-split :
    (xs : List Addr) (a : Addr)
    → contains xs a ≡ true
    → (before after : List Addr) × (xs ≡ before ++ a ∷ after)
unfolding contains
contains-split [] a h = cc
contains-split (x ∷ xs) a h = elim (Bool-cases (str_eq x a)) [
  | inl same ↦ let equal : x ≡ a = ground (arith, eq_iff x a) in ([], xs, ap (λ y. y ∷ xs) equal)
  | inr other ↦
      let (before, after, e) = contains-split xs a (ground arith) in
      (x ∷ before, after, ap (λ ys. x ∷ ys) e)
]

allowed_lem :
    (s : Store) (env : Env) (sender : Addr) (config : Config)
    → get_config s ≡ ok config
    → assert_sender_is_executor s env sender ≡ ok tt
    → IsAllowed config env sender
unfolding assert_sender_is_executor
allowed_lem s env sender config c h = elim (Bool-cases (contains config.executors sender)) [
  | inl executor ↦ inl (contains-split config.executors sender executor)
  | inr none_such ↦ elim (Bool-cases (str_eq sender config.admin)) [
    | inl admin ↦ inr (inl (ground (arith, eq_iff sender config.admin)))
    | inr other ↦ inr (inr (ground (arith, c, none_such, other, eq_iff sender env.contract)))
  ]
]

due_lem :
    (s : Store) (env : Env) (id : ℕ)
    → assert_due (get_disburse_escrow_task_due_date s id) env.time ≡ ok tt
    → (due : ℕ) → may_load id s.disburse_escrow_tasks ≡ some due
    → due ≤ env.time
unfolding assert_due get_disburse_escrow_task_due_date
due_lem s env id h due e = ground arith

module _ ⦃m : Arith⦄ (api : Api) where
  pub disbursement_keeps :
      (s : Store) (b : Bounty) (n : ℕ) (msgs : List SubMsg) (s' : Store)
      → get_disbursement_messages api s b n ≡ ok (msgs, s')
      → (s'.bounties ≡ s.bounties)
        × (s'.disburse_escrow_tasks ≡ s.disburse_escrow_tasks)
        × (s'.config ≡ s.config)
  unfolding get_disbursement_messages
  disbursement_keeps s b n msgs s' h =
      let (es, e, f) = >>=-eq-ok (destination_entries api b.target_denom n b.destinations) _ h in
      (ground arith, ground arith, ground arith)

  emptied_lem :
      (s : Store) (env : Env) (b : Bounty) (disbursed fee : Coin) (s' : Store)
      → s'.bounties ≡ (emptied s env b disbursed fee).bounties
      → s'.disburse_escrow_tasks ≡ (emptied s env b disbursed fee).disburse_escrow_tasks
      → s'.config ≡ (emptied s env b disbursed fee).config
      → IsEmptied b s s'
  unfolding emptied
  emptied_lem s env b disbursed fee s' e f g = record {
    bounty = rw (e, may_load-save) (ground arith);
    task = rw (f, may_load-remove) (ground arith);
    same_config = g;
  }

  kept_config :
      (s : Store) (env : Env) (b : Bounty) (disbursed fee : Coin)
      → (emptied s env b disbursed fee).config ≡ s.config
  unfolding emptied
  kept_config s env b disbursed fee = refl

  moved_config :
      (s mid : Store) (config : Config)
      → mid.config ≡ s.config
      → get_config s ≡ ok config
      → get_config mid ≡ ok config
  unfolding get_config
  moved_config s mid config e h = rw e h

  abbrev paying : Bounty → Coin → Coin → List SubMsg → Store → Result (Response × Store)
  paying b disbursed fee messages s =
      ok (record { attributes = escrow_attributes b fee disbursed; messages = messages }, s)

  paid_out :
      (b : Bounty) (disbursed fee : Coin) (msgs fee_msgs : List SubMsg) (mid : Store)
      (resp : Response) (s' : Store)
      → paying b disbursed fee (msgs ++ fee_msgs) mid ≡ ok (resp, s')
      → (sent resp.messages ≡ sent msgs + sent fee_msgs) × (s' ≡ mid)
  paid_out b disbursed fee msgs fee_msgs mid resp s' h =
      let same : resp.messages ≡ msgs ++ fee_msgs = ground arith in
      (rw same (sent-append msgs fee_msgs), ground arith)

  IsEmptied-cong : (b : Bounty) (s mid s' : Store) → s' ≡ mid → IsEmptied b s mid → IsEmptied b s s'
  IsEmptied-cong b s mid s' e h = rw e h

  bound : (n k : ℕ) {a b c : ℕ} → n ≡ a + b → a ≤ c → b ≤ sum (k ∷ []) → n ≤ c + k
  bound n k e f g = omega arith

  module _ (get_twap_to_now : TwapQuery) (env : Env) where
    pay_escrow_lem :
        (s : Store) (b : Bounty) (config : Config) (disbursed fee : Coin) (resp : Response)
        (s' : Store)
        → get_config s ≡ ok config
        → allocations config.fee_collectors ≡ 1000000000000000000
        → sum_of (λ (d : Destination). d.allocation) b.destinations ≡ 1000000000000000000
        → pay_escrow api get_twap_to_now env s b disbursed fee ≡ ok (resp, s')
        → IsEmptied b s s' × (sent resp.messages ≤ disbursed.amount + fee.amount)
    unfolding pay_escrow
    pay_escrow_lem s b config disbursed fee resp s' c fees one h =
        let ((msgs, mid), e1, h1) =
          >>=-eq-ok
            (get_disbursement_messages api (emptied s env b disbursed fee) (without_escrow b)
              disbursed.amount)
            _ h in
        let (fee_msgs, e2, h2) =
          >>=-eq-ok (get_fee_messages api mid env (fee.amount ∷ []) b.target_denom true) _ h1 in
        let (same_bounties, same_tasks, same_config) =
          disbursement_keeps (emptied s env b disbursed fee) (without_escrow b) disbursed.amount
            msgs mid e1 in
        let (paid_le, _) =
          disbursement_le api (emptied s env b disbursed fee) (without_escrow b) disbursed.amount
            msgs mid one e1 in
        let fee_le =
          fee_messages_le api mid env (fee.amount ∷ []) b.target_denom true config fee_msgs
            (moved_config s mid config (same_config ∙ kept_config s env b disbursed fee) c) fees
            e2 in
        let (total, same) = paid_out b disbursed fee msgs fee_msgs mid resp s' h2 in
        (
          IsEmptied-cong b s mid s' same
              (emptied_lem s env b disbursed fee mid same_bounties same_tasks same_config),
          bound (sent resp.messages) fee.amount total paid_le fee_le,
        )

    -- A payment of an escrow is made at a price, once it is due. It and the performance fee take at
    -- most the escrow, of which nothing stays behind, and the task is gone.
    pub disburse_due_lem :
        (s : Store) (b : Bounty) (config : Config) (resp : Response) (s' : Store)
        → get_config s ≡ ok config
        → allocations config.fee_collectors ≡ 1000000000000000000
        → sum_of (λ (d : Destination). d.allocation) b.destinations ≡ 1000000000000000000
        → disburse_due api get_twap_to_now env s b ≡ ok (resp, s')
        → (assert_due (get_disburse_escrow_task_due_date s b.id) env.time ≡ ok tt)
          × IsEmptied b s s'
          × (sent resp.messages ≤ b.escrowed_amount.amount)
    unfolding disburse_due
    disburse_due_lem s b config resp s' c fees one h =
        let (_, e0, h0) =
          >>=-eq-ok (assert_due (get_disburse_escrow_task_due_date s b.id) env.time) _ h in
        let (q, _, h1) = >>=-eq-ok (get_config s) _ h0 in
        let (price, _, h2) =
          >>=-eq-ok
            (get_twap_to_now q.exchange_contract_address (get_swap_denom b) b.target_denom
              q.twap_period b.route)
            _ h1 in
        let (fee, e3, h3) = >>=-eq-ok (get_performance_fee b price) _ h2 in
        let (disbursed, e4, h4) = >>=-eq-ok (subtract b.escrowed_amount fee) _ h3 in
        let (done, le) = pay_escrow_lem s b config disbursed fee resp s' c fees one h4 in
        let few = performance_fee_le_escrow b price fee e3 in
        let rest = subtract_amount b.escrowed_amount fee disbursed e4 in
        (e0, done, omega (arith, le, few.0, rest))

    still :
        (s s' : Store) (info : MessageInfo)
        → s'.config ≡ s.config
        → assert_sender_is_executor s' env info.sender ≡ assert_sender_is_executor s env info.sender
    unfolding assert_sender_is_executor
    still s s' info e = rw e refl

    got_emptied :
        (s s' : Store) (b : Bounty)
        → IsEmptied b s s'
        → (found : Bounty) × (get_bounty s' b.id ≡ ok found) × (found.escrowed_amount.amount ≡ 0)
    unfolding get_bounty bounty_from bounty_data empty_of
    got_emptied s s' b e = (bounty_from s' (bounty_data (without_escrow b)), rw e.bounty refl, refl)

    again_lem :
        (s s' : Store) (info : MessageInfo) (b : Bounty)
        → assert_sender_is_executor s env info.sender ≡ ok tt
        → IsEmptied b s s'
        → (again : Response) × (disburse_escrow_handler api get_twap_to_now env s' info b.id
            ≡ ok (again, s'))
          × (again.messages ≡ [])
    unfolding disburse_escrow_handler
    again_lem s s' info b sender e =
        let (found, got, none_left) = got_emptied s s' b e in
        let allowed = still s s' info e.same_config ∙ sender in
        (nothing_escrowed found, rw (allowed, got, none_left) refl, refl)

    -- A call of disburse_escrow_handler that succeeds on a bounty with an escrow comes from an
    -- executor, the admin or the contract itself, and not before the due date of its task; when
    -- the allocations of the collectors and of the destinations each add up to one, its messages
    -- send at most the escrow. It leaves no escrow and no task, and a second call by the same
    -- sender succeeds, sends nothing and changes nothing.
    pub disburse_escrow_lem :
        (s : Store) (info : MessageInfo) (b : Bounty) (config : Config) (resp : Response)
        (s' : Store)
        → get_bounty s b.id ≡ ok b
        → 0 < b.escrowed_amount.amount
        → get_config s ≡ ok config
        → allocations config.fee_collectors ≡ 1000000000000000000
        → sum_of (λ (d : Destination). d.allocation) b.destinations ≡ 1000000000000000000
        → disburse_escrow_handler api get_twap_to_now env s info b.id ≡ ok (resp, s')
        → IsAllowed config env info.sender
          × ((due : ℕ) → may_load b.id s.disburse_escrow_tasks ≡ some due → due ≤ env.time)
          × (sent resp.messages ≤ b.escrowed_amount.amount)
          × IsEmptied b s s'
          × ((again : Response) × (disburse_escrow_handler api get_twap_to_now env s' info b.id
                ≡ ok (again, s'))
              × (again.messages ≡ []))
    unfolding disburse_escrow_handler
    disburse_escrow_lem s info b config resp s' got pos c fees one h =
        let (_, sender, h0) = >>=-eq-ok (assert_sender_is_executor s env info.sender) _ h in
        let some_left : (b.escrowed_amount.amount == 0) ≡ false = ground arith in
        let paid : disburse_due api get_twap_to_now env s b ≡ ok (resp, s') =
          rw (got, some_left) at h0 in
        let (due, done, le) = disburse_due_lem s b config resp s' c fees one paid in
        (
          allowed_lem s env info.sender config c sender,
          due_lem s env b.id due,
          le,
          done,
          again_lem s s' info b sender done,
        )
