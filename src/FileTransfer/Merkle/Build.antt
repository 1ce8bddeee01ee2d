-- ===== src/FileTransfer/Merkle/Build.antt =====
-- The loops of `BuildMerkleTree` that choose the size and write the leaves.
use native.Mathlib.Nat.{pow-suc}
use ensemble.Common.{
  ℕ, zero, suc, ◌+◌, ◌*◌, ◌^◌, ◌≤◌, ◌<◌, ◌≡◌, refl, ◌∙◌, ap, List, [], ◌∷◌, length, get_or, set,
  length-set, get_or-set_self, get_or-set_ne, ltb, Bool-cases, inl, inr, arith,
}
use ensemble.Crypto.{Bytes}
use ensemble.FileTransfer.Merkle.{grow, padded_size, fill_leaves, pad_leaves}

grow-ge : (fuel n size : ℕ) → 0 < size → n ≤ size + fuel → n ≤ grow fuel n size
unfolding grow
grow-ge zero n size p h = omega arith
grow-ge (suc fuel) n size p h = ground (arith, grow-ge fuel n (size * 2))

grow-pow : (fuel n size : ℕ) → (k : ℕ) × (grow fuel n size ≡ size * 2 ^ k)
unfolding grow
grow-pow zero n size = (0, omega arith)
grow-pow (suc fuel) n size = elim (Bool-cases (ltb size n)) [
  | inl more ↦
      let (k, e) = grow-pow fuel n (size * 2) in
      (suc k, rw more (omega (arith, e, ap (λ (t : ℕ). size * t) (pow-suc 2 k))))
  | inr done ↦ (0, rw done (omega arith))
]

grow-lt_double : (fuel n size : ℕ) → size < 2 * n → grow fuel n size < 2 * n
unfolding grow
grow-lt_double zero n size h = h
grow-lt_double (suc fuel) n size h = ground (arith, grow-lt_double fuel n (size * 2))

-- The number of leaves is a power of two, at least two, holds all hashes and is less than twice
-- as many as there are, unless there is one.
pub padded_size_lem :
    (n : ℕ)
    → (n ≤ padded_size n)
      × ((k : ℕ) × (padded_size n ≡ 2 * 2 ^ k))
      × (1 < n → padded_size n < 2 * n)
unfolding padded_size
padded_size_lem n = (
  grow-ge n n 2 (omega arith) (omega arith),
  grow-pow n n 2,
  λ h. grow-lt_double n n 2 (omega arith),
)

abbrev pub node : List Bytes → ℕ → Bytes
node nodes i = get_or nodes i []

pub length-fill_leaves :
    (size i : ℕ) (cs nodes : List Bytes) → length (fill_leaves size i cs nodes) ≡ length nodes
unfolding fill_leaves
length-fill_leaves size i [] nodes = refl
length-fill_leaves size i (c ∷ cs) nodes =
    length-fill_leaves size (suc i) cs (set nodes (size + i) c) ∙ length-set nodes (size + i) c

pub fill_leaves_below :
    (size i : ℕ) (cs nodes : List Bytes) (k : ℕ)
    → k < size + i
    → node (fill_leaves size i cs nodes) k ≡ node nodes k
unfolding fill_leaves
fill_leaves_below size i [] nodes k h = refl
fill_leaves_below size i (c ∷ cs) nodes k h =
    fill_leaves_below size (suc i) cs (set nodes (size + i) c) k (omega arith)
    ∙ get_or-set_ne nodes (size + i) k c [] (omega arith)

pub fill_leaves_at :
    (size i : ℕ) (cs nodes : List Bytes) (j : ℕ)
    → j < length cs
    → size + i + length cs ≤ length nodes
    → node (fill_leaves size i cs nodes) (size + i + j) ≡ node cs j
unfolding fill_leaves
fill_leaves_at size i [] nodes j h fits = elim h [ ]
fill_leaves_at size i (c ∷ cs) nodes zero h fits =
    let at : size + i + 0 ≡ size + i = omega arith in
    rw at (
      fill_leaves_below size (suc i) cs (set nodes (size + i) c) (size + i) (omega arith)
      ∙ get_or-set_self nodes (size + i) c [] (omega arith))
fill_leaves_at size i (c ∷ cs) nodes (suc j) h fits =
    let at : size + i + suc j ≡ size + suc i + j = omega arith in
    rw at (
      fill_leaves_at size (suc i) cs (set nodes (size + i) c) j (omega arith)
        (omega (arith, length-set nodes (size + i) c)))

pub length-pad_leaves :
    (k size i : ℕ) (c : Bytes) (nodes : List Bytes)
    → length (pad_leaves k size i c nodes) ≡ length nodes
unfolding pad_leaves
length-pad_leaves zero size i c nodes = refl
length-pad_leaves (suc k) size i c nodes =
    length-pad_leaves k size (suc i) c (set nodes (size + i) c) ∙ length-set nodes (size + i) c

pub pad_leaves_below :
    (k size i : ℕ) (c : Bytes) (nodes : List Bytes) (j : ℕ)
    → j < size + i
    → node (pad_leaves k size i c nodes) j ≡ node nodes j
unfolding pad_leaves
pad_leaves_below zero size i c nodes j h = refl
pad_leaves_below (suc k) size i c nodes j h =
    pad_leaves_below k size (suc i) c (set nodes (size + i) c) j (omega arith)
    ∙ get_or-set_ne nodes (size + i) j c [] (omega arith)

pub pad_leaves_at :
    (k size i : ℕ) (c : Bytes) (nodes : List Bytes) (j : ℕ)
    → j < k
    → size + i + k ≤ length nodes
    → node (pad_leaves k size i c nodes) (size + i + j) ≡ c
unfolding pad_leaves
pad_leaves_at zero size i c nodes j h fits = elim h [ ]
pad_leaves_at (suc k) size i c nodes zero h fits =
    let at : size + i + 0 ≡ size + i = omega arith in
    rw at (
      pad_leaves_below k size (suc i) c (set nodes (size + i) c) (size + i) (omega arith)
      ∙ get_or-set_self nodes (size + i) c [] (omega arith))
pad_leaves_at (suc k) size i c nodes (suc j) h fits =
    let at : size + i + suc j ≡ size + suc i + j = omega arith in
    rw at (
      pad_leaves_at k size (suc i) c (set nodes (size + i) c) j (omega arith)
        (omega (arith, length-set nodes (size + i) c)))
