-- ===== src/Dca/Update/Drafts.antt =====
-- What one step of contracts/dca/src/handlers/update_vault.rs leaves alone.
use bounties.Prelude.{◌≡◌, refl, ◌∙◌, Option, none, some, []}
use bounties.Shared.Result.{Result, ok}
use bounties.Dca.Types.{Bounty, every_block}
use bounties.Dca.Validation.Terms.{IsValidTerms}
use bounties.Dca.Update.{Draft, if_some}

-- A bounty without its terms.
abbrev pub account : Bounty → Bounty
account b = record b {
  label = none;
  destinations = [];
  swap_amount = 0;
  slippage_tolerance = 0;
  minimum_receive_amount = none;
  time_interval = every_block;
  swap_adjustment_strategy = none;
}

abbrev pub HasValidTerms : Bounty → Type 0
HasValidTerms b = IsValidTerms b.destinations b.slippage_tolerance b.time_interval

-- Only the terms differ, and the bounties that are stored do not.
pub record IsDrafted (d d' : Draft) : Type 0 where
  pub same : account d'.bounty ≡ account d.bounty
  pub stored : d'.store.bounties ≡ d.store.bounties
  pub config : d'.store.config ≡ d.store.config
  pub valid : HasValidTerms d.bounty → HasValidTerms d'.bounty

pub IsDrafted-refl : (d d' : Draft) → ok d ≡ ok d' → IsDrafted d d'
IsDrafted-refl d d' h =
    let e : d ≡ d' = cc in
    rw (← e) (record { same = refl; stored = refl; config = refl; valid = λ v. v })

pub IsDrafted-trans : (a b c : Draft) → IsDrafted a b → IsDrafted b c → IsDrafted a c
IsDrafted-trans a b c f g = record {
  same = g.same ∙ f.same;
  stored = g.stored ∙ f.stored;
  config = g.config ∙ f.config;
  valid = λ v. g.valid (f.valid v);
}

pub of_eq :
    (d e d' : Draft)
    → ok e ≡ ok d'
    → account e.bounty ≡ account d.bounty
    → e.store.bounties ≡ d.store.bounties
    → e.store.config ≡ d.store.config
    → (HasValidTerms d.bounty → HasValidTerms e.bounty)
    → IsDrafted d d'
of_eq d e d' h same stored config valid =
    IsDrafted-trans d e d' (record { same = same; stored = stored; config = config; valid = valid })
      (IsDrafted-refl e d' h)

pub if_some_lem :
    {A : Type 0} (o : Option A) (change : A → Draft → Result Draft) (d d' : Draft)
    → if_some o change d ≡ ok d'
    → ((a : A) → change a d ≡ ok d' → IsDrafted d d')
    → IsDrafted d d'
if_some_lem none change d d' h f = IsDrafted-refl d d' h
if_some_lem (some a) change d d' h f = f a h
