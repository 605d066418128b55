-- ===== src/Shared/Storage.antt =====
-- A `Map` or `IndexedMap` of cw_storage_plus with numeric keys, as an association list in the
-- ascending order of its keys, in which `range` walks it.
pub mod Laws
use bounties.Prelude.{ℕ, Option, none, some, List, [], ◌∷◌, ltb, ◌==◌, if◌then◌else◌}

abbrev pub Storage {ℓ} : Type ℓ → Type ℓ
Storage V = List (ℕ × V)

module _ {ℓ} {V : Type ℓ} where
  -- `may_load`; `load` is an error on `none`
  unfoldable pub may_load : ℕ → Storage V → Option V
  may_load k [] = none
  may_load k ((j, v) ∷ m) = if k == j then some v else may_load k m

  unfoldable pub save : ℕ → V → Storage V → Storage V
  save k v [] = (k, v) ∷ []
  save k v ((j, w) ∷ m) =
      let rest = save k v m in
      if ltb k j then (k, v) ∷ (j, w) ∷ m else if k == j then (k, v) ∷ m else (j, w) ∷ rest

  unfoldable pub remove : ℕ → Storage V → Storage V
  remove k [] = []
  remove k ((j, v) ∷ m) = let rest = remove k m in if k == j then rest else (j, v) ∷ rest
