-- ===== src/Exchanges/Fin/Pairs/Keys.antt =====
-- The key of a pair in contracts/exchanges/fin/src/state/pairs.rs does not depend on the order of
-- its denominations: the order of texts is total, and antisymmetric.
use Prim.Native.Nat.compare as compare_ℕ
use Prim.Native.Nat.{Ordering, compare as compare_ℕ}
use Prim.Native.Char.{code}
use Prim.Native.String.compare
use Prim.Native.String.{[], ◌∷◌, compare, then}
use text.Mathlib.TextEquality.{path_by_compare}
use bounties.Prelude.{ℕ, zero, suc, String, ◌≡◌, refl, sym, ap, ◌∙◌}
use bounties.Exchanges.Fin.Pairs.{key_from}

abbrev turned : Ordering → Ordering
turned Ordering.lt = Ordering.gt
turned Ordering.eq = Ordering.eq
turned Ordering.gt = Ordering.lt

compare_numbers : (m n : ℕ) → compare_ℕ n m ≡ turned (compare_ℕ m n)
compare_numbers zero zero = refl
compare_numbers zero (suc n) =
    compare_ℕ.suc-zero n ∙ sym (ap (λ o. turned o) (compare_ℕ.zero-suc n))
compare_numbers (suc m) zero =
    compare_ℕ.zero-suc m ∙ sym (ap (λ o. turned o) (compare_ℕ.suc-zero m))
compare_numbers (suc m) (suc n) =
    compare_ℕ.suc-suc n m ∙ compare_numbers m n ∙ sym (ap (λ o. turned o) (compare_ℕ.suc-suc m n))

then-turned : (o r : Ordering) → then (turned o) (turned r) ≡ turned (then o r)
then-turned Ordering.lt r = refl
then-turned Ordering.eq r = refl
then-turned Ordering.gt r = refl

compare-turned : (s t : String) → compare t s ≡ turned (compare s t)
compare-turned [] [] = refl
compare-turned [] (d ∷ t) = compare.cons-nil d t ∙ sym (ap (λ o. turned o) (compare.nil-cons d t))
compare-turned (c ∷ s) [] = compare.nil-cons c s ∙ sym (ap (λ o. turned o) (compare.cons-nil c s))
compare-turned (c ∷ s) (d ∷ t) =
    compare.cons-cons d c t s
    ∙ ap (λ o. then o (compare t s)) (compare_numbers (code c) (code d))
    ∙ ap (λ r. then (turned (compare_ℕ (code c) (code d))) r) (compare-turned s t)
    ∙ then-turned (compare_ℕ (code c) (code d)) (compare s t)
    ∙ sym (ap (λ o. turned o) (compare.cons-cons c d s t))

pub key_from_comm : (a b : String) → key_from (a, b) ≡ key_from (b, a)
unfolding key_from
key_from_comm a b = by_order (compare a b) refl
  where
    by_order : (o : Ordering) → compare a b ≡ o → key_from (a, b) ≡ key_from (b, a)
    by_order Ordering.lt e =
        let back : compare b a ≡ Ordering.gt = compare-turned a b ∙ ap (λ o. turned o) e in
        rw (e, back) refl
    by_order Ordering.eq e = let same : a ≡ b = path_by_compare a b e in rw same refl
    by_order Ordering.gt e =
        let back : compare b a ≡ Ordering.lt = compare-turned a b ∙ ap (λ o. turned o) e in
        rw (e, back) refl
