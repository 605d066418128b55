-- ===== src/Dca/Machine/Stems.antt =====
-- How the handlers of contracts/dca/src/handlers change the bounties that are stored.
use bounties.Prelude.{
  ℕ, ◌≡◌, ap, sym, ◌∙◌, some, List, arith, ◌==◌, if◌then◌else◌, Bool-cases, inl, inr,
}
use bounties.Shared.Storage.{Storage, save, may_load}
use bounties.Shared.Storage.Laws.{may_load-save}
use bounties.Dca.Types.{Bounty, Destination, TimeInterval}
use bounties.Dca.Validation.Terms.{IsValidTerms}
use bounties.Dca.Update.Drafts.{HasValidTerms}

-- A bounty that is stored under its own number, with valid terms.
abbrev pub IsEntry : ℕ → Bounty → Type 0
IsEntry k b = (b.id ≡ k) × HasValidTerms b

abbrev pub IsLedger : Storage Bounty → Type 0
IsLedger m = (k : ℕ) (b : Bounty) → may_load k m ≡ some b → IsEntry k b

pub IsLedger-save :
    (m m' : Storage Bounty) (k : ℕ) (c : Bounty)
    → IsLedger m
    → IsEntry k c
    → m' ≡ save k c m
    → IsLedger m'
IsLedger-save m m' k c ledger entry e j b h =
    let found : (if j == k then some c else may_load j m) ≡ some b =
      sym (may_load-save k j c m) ∙ ap (λ (l : Storage Bounty). may_load j l) (sym e) ∙ h in
    elim (Bool-cases (j == k)) [
      | inl same ↦
          let one : some c ≡ some b = rw same at found in
          let equal : c ≡ b = cc in let key : j ≡ k = ground arith in rw (key, ← equal) entry
      | inr other ↦ ledger j b (rw other at found)
    ]

pub IsLedger-same : (m m' : Storage Bounty) → IsLedger m → m' ≡ m → IsLedger m'
IsLedger-same m m' ledger e k b h =
    ledger k b (ap (λ (l : Storage Bounty). may_load k l) (sym e) ∙ h)

pub valid_cong :
    (ds ds' : List Destination) (t t' : ℕ) (i i' : TimeInterval)
    → ds' ≡ ds
    → t' ≡ t
    → i' ≡ i
    → IsValidTerms ds t i
    → IsValidTerms ds' t' i'
valid_cong ds ds' t t' i i' e f g v = rw (e, f, g) v

-- Two bounties with one number and the same terms.
pub record HasSameTerms (b c : Bounty) : Type 0 where
  pub id : c.id ≡ b.id
  pub destinations : c.destinations ≡ b.destinations
  pub tolerance : c.slippage_tolerance ≡ b.slippage_tolerance
  pub interval : c.time_interval ≡ b.time_interval

pub IsEntry-cong : (k : ℕ) (b c : Bounty) → HasSameTerms b c → IsEntry k b → IsEntry k c
IsEntry-cong k b c same (own, valid) = (
  same.id ∙ own,
  valid_cong b.destinations c.destinations b.slippage_tolerance c.slippage_tolerance b.time_interval
      c.time_interval same.destinations same.tolerance same.interval valid,
)

pub HasSameTerms-eq : (b c : Bounty) → (c ≡ b) → HasSameTerms b c
HasSameTerms-eq b c e = record {
  id = ap (λ (d : Bounty). d.id) e;
  destinations = ap (λ (d : Bounty). d.destinations) e;
  tolerance = ap (λ (d : Bounty). d.slippage_tolerance) e;
  interval = ap (λ (d : Bounty). d.time_interval) e;
}
