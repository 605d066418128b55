-- ===== src/Shared/Storage/Laws.antt =====
-- The laws of a stored map: what is loaded after a save or a remove, and the order of its keys.
use bounties.Prelude.{ℕ, ◌<◌, ◌≡◌, none, some, [], ◌∷◌, arith, ◌==◌, if◌then◌else◌}
use bounties.Shared.Storage.{Storage, may_load, save, remove}

module _ {ℓ} {V : Type ℓ} where
  pub may_load-save :
      (k j : ℕ) (v : V) (m : Storage V)
      → may_load j (save k v m) ≡ (if j == k then some v else may_load j m)
  unfolding may_load save
  may_load-save k j v [] = ground arith
  may_load-save k j v ((i, w) ∷ m) = ground (arith, may_load-save k j v m)

  pub may_load-remove :
      (k j : ℕ) (m : Storage V) → may_load j (remove k m) ≡ (if j == k then none else may_load j m)
  unfolding may_load remove
  may_load-remove k j [] = ground arith
  may_load-remove k j ((i, w) ∷ m) = ground (arith, may_load-remove k j m)

  -- Every key lies above a bound; the keys ascend.
  abbrev pub Above : ℕ → Storage V → Type 0
  Above b [] = Unit
  Above b ((k, v) ∷ m) = (b < k) × Above b m

  abbrev pub IsSorted : Storage V → Type 0
  IsSorted [] = Unit
  IsSorted ((k, v) ∷ m) = Above k m × IsSorted m

  Above-lt : (a b : ℕ) (m : Storage V) → a < b → Above b m → Above a m
  Above-lt a b [] h s = tt
  Above-lt a b ((k, v) ∷ m) h s = (omega arith, Above-lt a b m h s.1)

  Above-save : (b k : ℕ) (v : V) (m : Storage V) → b < k → Above b m → Above b (save k v m)
  unfolding save
  Above-save b k v [] h s = (h, tt)
  Above-save b k v ((j, w) ∷ m) h s = ground (arith, Above-save b k v m h s.1)

  pub save-IsSorted : (k : ℕ) (v : V) (m : Storage V) → IsSorted m → IsSorted (save k v m)
  unfolding save
  save-IsSorted k v [] s = (tt, tt)
  save-IsSorted k v ((j, w) ∷ m) s =
      ground (arith, save-IsSorted k v m s.1, Above-save j k v m, Above-lt k j m)

  Above-remove : (b k : ℕ) (m : Storage V) → Above b m → Above b (remove k m)
  unfolding remove
  Above-remove b k [] s = tt
  Above-remove b k ((j, w) ∷ m) s = ground (arith, Above-remove b k m s.1)

  pub remove-IsSorted : (k : ℕ) (m : Storage V) → IsSorted m → IsSorted (remove k m)
  unfolding remove
  remove-IsSorted k [] s = tt
  remove-IsSorted k ((j, w) ∷ m) s = ground (arith, remove-IsSorted k m s.1, Above-remove j k m s.0)
