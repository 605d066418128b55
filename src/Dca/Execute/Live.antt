-- ===== src/Dca/Execute/Live.antt =====
-- Bounties go on: which executions of contracts/dca/src/handlers/execute_trigger.rs succeed.
use bounties.Prelude.{ℕ, ◌<◌, ◌≡◌, some}
use bounties.Shared.Result.{Result, ok}
use bounties.Shared.Arith.{Arith}
use bounties.Shared.Storage.{Storage, may_load}
use bounties.Shared.Chain.{Env, Response}
use bounties.Dca.Types.{Bounty, TriggerConfiguration}
use bounties.Dca.Store.{Store}
use bounties.Dca.Exchange.{Exchange}

-- The call is accepted, and the bounty has a trigger at a later time.
abbrev pub Continues : Env → Bounty → Result (Response × Store) → Type 0
Continues env b result =
    (r : Response) × (s' : Store) × (t : ℕ) × (result ≡ ok (r, s'))
    × (env.time < t)
    × (may_load b.id s'.triggers
        ≡ some (record { bounty_id = b.id; configuration = TriggerConfiguration.time t }))
