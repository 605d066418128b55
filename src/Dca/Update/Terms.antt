-- ===== src/Dca/Update/Terms.antt =====
-- Who updates a bounty by contracts/dca/src/handlers/update_vault.rs, and what is stored then.
use bounties.Prelude.{ℕ, ◌≡◌, ap, ◌∙◌, String, false, not, arith, str_eq, eq_iff}
use bounties.Shared.Result.{ok, >>=-eq-ok}
use bounties.Shared.Arith.{Arith}
use bounties.Shared.Storage.{Storage, save}
use bounties.Shared.Chain.{Addr, Api, Env, MessageInfo, Response}
use bounties.Dca.Types.{Bounty, is_cancelled}
use bounties.Dca.Store.{Store, get_bounty, update_bounty, bounty_data, create_event}
use bounties.Dca.Time.{Calendar}
use bounties.Dca.Validation.Access.{assert_sender_is_bounty_owner, assert_bounty_is_not_cancelled}
use bounties.Dca.Validation.Terms.{passed}
use bounties.Dca.Update.{
  Value, UpdateBounty, Draft, apply_updates, draft_of, saved, update_bounty_handler,
}
use bounties.Dca.Update.Drafts.{account, HasValidTerms}
use bounties.Dca.Update.Kept.{apply_updates_kept}

owner_sends :
    (owner sender : Addr) (p : Unit)
    → assert_sender_is_bounty_owner owner sender ≡ ok p
    → sender ≡ owner
unfolding assert_sender_is_bounty_owner
owner_sends owner sender p h =
    let same = passed (not (str_eq sender owner)) _ p h in ground (arith, eq_iff sender owner)

pub open_lem :
    (b : Bounty) (p : Unit) → assert_bounty_is_not_cancelled b ≡ ok p → is_cancelled b ≡ false
unfolding assert_bounty_is_not_cancelled
open_lem b p h = passed (is_cancelled b) _ p h

-- A bounty that its owner has updated.
pub record IsUpdated (s : Store) (id : ℕ) (sender : Addr) (s' : Store) : Type 0 where
  pub old : Bounty
  pub new : Bounty
  pub found : get_bounty s id ≡ ok old
  pub authorized : sender ≡ old.owner
  pub uncancelled : is_cancelled old ≡ false
  pub same : account new ≡ account old
  pub stored : s'.bounties ≡ save old.id (bounty_data new) s.bounties
  pub config : s'.config ≡ s.config
  pub valid : HasValidTerms old → HasValidTerms new

module _ (format : Value → String) ⦃m : Arith⦄ (cal : Calendar) (api : Api) (env : Env) where
  -- An update is accepted only from the owner, for a bounty that is not cancelled. The
  -- configuration and all other bounties stay as they are, and that bounty is as before except for
  -- its label, destinations, slippage tolerance, minimum, interval, swap amount and swap
  -- adjustment; terms that were valid are valid afterwards.
  pub update_bounty_lem :
      (s : Store) (info : MessageInfo) (id : ℕ) (msg : UpdateBounty) (r : Response) (s' : Store)
      → update_bounty_handler format cal api env s info id msg ≡ ok (r, s')
      → IsUpdated s id info.sender s'
  unfolding update_bounty_handler update_bounty create_event
  update_bounty_lem s info id msg r s' h =
      let (b, found, h1) = >>=-eq-ok (get_bounty s id) _ h in
      let (p, owner, h2) = >>=-eq-ok (assert_sender_is_bounty_owner b.owner info.sender) _ h1 in
      let (p2, alive, h3) = >>=-eq-ok (assert_bounty_is_not_cancelled b) _ h2 in
      let (d, e, h4) = >>=-eq-ok (apply_updates format cal api env msg (draft_of s b)) _ h3 in
      updated b d found (owner_sends b.owner info.sender p owner) (open_lem b p2 alive) e h4
    where
      updated :
          (b : Bounty) (d : Draft)
          → get_bounty s id ≡ ok b
          → info.sender ≡ b.owner
          → is_cancelled b ≡ false
          → apply_updates format cal api env msg (draft_of s b) ≡ ok d
          → ok (saved env d) ≡ ok (r, s')
          → IsUpdated s id info.sender s'
      updated b d found owner alive e g =
          let kept = apply_updates_kept format cal api env msg (draft_of s b) d e in
          let key : d.bounty.id ≡ b.id = ap (λ (c : Bounty). c.id) kept.same in
          let end : s' ≡ (saved env d).1 = cc in
          record {
            old = b;
            new = d.bounty;
            found = found;
            authorized = owner;
            uncancelled = alive;
            same = kept.same;
            stored =
                ap (λ (t : Store). t.bounties) end
                ∙ ap (λ (k : ℕ). save k (bounty_data d.bounty) d.store.bounties) key
                ∙ ap (λ (m : Storage Bounty). save b.id (bounty_data d.bounty) m) kept.stored;
            config = ap (λ (t : Store). t.config) end ∙ kept.config;
            valid = kept.valid;
          }
