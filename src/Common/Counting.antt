-- ===== src/Common/Counting.antt =====
-- The pigeonhole principle, for the keys of a map.
use Prim.Native.Nat.{ℕ, zero, suc, ◌≤◌, ◌<◌}
use mathlib.Core.Path.{◌≡◌, refl, ap}
use mathlib.Core.Logic.{inl, inr}
use mathlib.Core.Option.{none, some}
use mathlib.Core.List.{List, [], ◌∷◌}
use native.Mathlib.Omega.{arith}
use ensemble.Common.Lists.{length}
use ensemble.Common.Tests.{◌==◌, ==_iff, Bool-cases, Option-cases}
use ensemble.Common.Maps.{
  lookup, delete, Each, Distinct, nat_eq, lookup-delete, delete-Distinct, delete_absent,
  length-delete-ge, length-delete-le,
}

module _ {κ} {V : Type κ} where
  no_keys : (m : List (ℕ × V)) → ((k : ℕ) → lookup k m ≡ none) → length m ≡ 0
  unfolding lookup
  no_keys [] h = refl
  no_keys ((k, v) ∷ m) h = absurd (ground (arith, h k, ==_iff k k))

  -- Keys are below `n`, in the form that survives a deletion.
  abbrev Under : ℕ → List (ℕ × V) → Type κ
  Under n m = (k : ℕ) → n ≤ k → lookup k m ≡ none

  delete-Under : (n : ℕ) (m : List (ℕ × V)) → Under (suc n) m → Under n (delete n m)
  delete-Under n m u k h = ground (arith, lookup-delete n k m, u k)

  length-Under : (n : ℕ) (m : List (ℕ × V)) → Distinct m → Under n m → length m ≤ n
  length-Under zero m d u = omega (arith, no_keys m (λ k. u k (omega arith)))
  length-Under (suc n) m d u = omega (
    arith,
    length-delete-ge n m d,
    length-Under n (delete n m) (delete-Distinct n m d) (delete-Under n m u),
  )

  length_missing :
      (n i : ℕ) (m : List (ℕ × V))
      → Distinct m
      → Under n m
      → i < n
      → lookup i m ≡ none
      → length m < n
  length_missing zero i m d u p gap = elim p [ ]
  length_missing (suc n) i m d u p gap = elim (Bool-cases (i == n)) [
    | inl last ↦
        let at : i ≡ n = (==_iff i n).0 last in
        let gone : delete n m ≡ m = delete_absent n m (rw at at gap) in
        let shorter = length-Under n (delete n m) (delete-Distinct n m d) (delete-Under n m u) in
        omega (arith, ap (λ (l : List (ℕ × V)). length l) gone)
    | inr before ↦ omega (
      arith,
      length-delete-ge n m d,
      length_missing n i (delete n m) (delete-Distinct n m d) (delete-Under n m u) (ground arith)
          (ground (arith, lookup-delete n i m)),
    )
  ]

  -- `n` keys or more, all below `n`: then every number below `n` is a key.
  pub pigeonhole :
      (n i : ℕ) (m : List (ℕ × V))
      → Distinct m
      → Each (λ k v. k < n) m
      → n ≤ length m
      → i < n
      → (v : V) × (lookup i m ≡ some v)
  pigeonhole n i m d each full p = elim (Option-cases (lookup i m)) [
    | inr found ↦ found
    | inl gap ↦ absurd (omega (arith, length_missing n i m d under p gap))
  ]
    where
      under : Under n m
      under k h = elim (Option-cases (lookup k m)) [
        | inl none_there ↦ none_there
        | inr (v, found) ↦ absurd (omega (arith, each k v found))
      ]

  length-delete_present :
      (k : ℕ) (v : V) (m : List (ℕ × V))
      → lookup k m ≡ some v
      → suc (length (delete k m)) ≤ length m
  unfolding lookup delete
  length-delete_present k v [] h = cc
  length-delete_present k v ((j, w) ∷ m) h = elim (Bool-cases (j == k)) [
    | inl here ↦ rw here (omega (arith, length-delete-le k m))
    | inr there ↦ rw there (omega (arith, length-delete_present k v m (ground arith)))
  ]

  -- As many entries as there are numbers below `n`, if each of them is a key.
  pub length-ge_of_keys :
      (n : ℕ) (m : List (ℕ × V))
      → ((i : ℕ) → i < n → (v : V) × (lookup i m ≡ some v))
      → n ≤ length m
  length-ge_of_keys zero m h = omega arith
  length-ge_of_keys (suc n) m h =
      let (v, last) = h n (omega arith) in
      let rest =
        length-ge_of_keys n (delete n m)
          (λ i p. let (w, found) = h i (omega arith) in (w, ground (arith, lookup-delete n i m))) in
      omega (arith, length-delete_present n v m last)

  pub length-le_of_keys :
      (n : ℕ) (m : List (ℕ × V)) → Distinct m → Each (λ k v. k < n) m → length m ≤ n
  length-le_of_keys n m d each = length-Under n m d (λ k h. elim (Option-cases (lookup k m)) [
    | inl none_there ↦ none_there
    | inr (v, found) ↦ absurd (omega (arith, each k v found))
  ])
