-- ===== src/FileTransfer/Merkle/Heap.antt =====
-- `BuildMerkleTree` makes a heap: every inner node is the hash of its two children, and the
-- leaves are the chunk hashes, the last one repeated.
use Prim.Native.Nat.{min}
use mathlib.Core.Path.{ap₂}
use native.Mathlib.Nat.{pow-suc, one-le-pow}
use ensemble.Common.{
  ℕ, zero, suc, ◌+◌, ◌-◌, ◌*◌, ◌^◌, ◌≤◌, ◌<◌, ◌≡◌, ◌⊎◌, refl, sym, ◌∙◌, ap, some, List, [], ◌∷◌,
  length, get_or, set, replicate, length-set, length-replicate, get_or-set_self, get_or-set_ne, inl,
  inr, arith,
}
use ensemble.Crypto.{Bytes, Sha256}
use ensemble.FileTransfer.Merkle.{
  MerkleTree, padded_size, fill_leaves, pad_leaves, hash_pair, hash_up, build_nodes,
  build_merkle_tree,
}
use ensemble.FileTransfer.Merkle.Build.{
  node, padded_size_lem, length-fill_leaves, fill_leaves_at, length-pad_leaves, pad_leaves_below,
  pad_leaves_at,
}

-- The shape of a tree with `2 ^ suc d` leaves over the given chunk hashes.
pub record IsHeap (h : Sha256) (hashes : List Bytes) (d : ℕ) (t : MerkleTree) : Type 0 where
  pub kept : t.leaves ≡ hashes
  pub start : t.leaf_start ≡ 2 ^ suc d
  pub fits : length hashes ≤ t.leaf_start
  pub sized : length t.nodes ≡ 2 * t.leaf_start
  pub inner :
      (i : ℕ)
      → 0 < i
      → i < t.leaf_start
      → node t.nodes i ≡ hash_pair h (node t.nodes (2 * i)) (node t.nodes (2 * i + 1))
  pub leaf :
      (i : ℕ)
      → i < t.leaf_start
      → node t.nodes (t.leaf_start + i) ≡ node hashes (min i (length hashes - 1))

module _ (h : Sha256) where
  hashed : List Bytes → ℕ → Bytes
  hashed nodes i = hash_pair h (node nodes (2 * i)) (node nodes (2 * i + 1))

  length-hash_up : (i : ℕ) (nodes : List Bytes) → length (hash_up h i nodes) ≡ length nodes
  unfolding hash_up
  length-hash_up zero nodes = refl
  length-hash_up (suc i) nodes = length-hash_up i _ ∙ length-set nodes (suc i) _

  hash_up_above :
      (i : ℕ) (nodes : List Bytes) (k : ℕ) → i < k → node (hash_up h i nodes) k ≡ node nodes k
  unfolding hash_up
  hash_up_above zero nodes k p = refl
  hash_up_above (suc i) nodes k p =
      hash_up_above i _ k (omega arith) ∙ get_or-set_ne nodes (suc i) k _ [] (omega arith)

  hash_up_at :
      (i : ℕ) (nodes : List Bytes) (k : ℕ)
      → 0 < k
      → k ≤ i
      → 2 * i + 1 < length nodes
      → node (hash_up h i nodes) k ≡ hashed (hash_up h i nodes) k
  unfolding hash_up hashed
  hash_up_at zero nodes k p q fits = absurd (omega arith)
  hash_up_at (suc i) nodes k p q fits = elim le_or [
    | inl below ↦
        hash_up_at i next k p below (omega (arith, length-set nodes (suc i) (hashed nodes (suc i))))
    | inr last ↦ rw last (
        hash_up_above i next (suc i) (omega arith)
        ∙ get_or-set_self nodes (suc i) (hashed nodes (suc i)) [] (omega arith)
        ∙ sym (
            ap₂ (hash_pair h) (kept (2 * suc i) (omega arith))
              (kept (2 * suc i + 1) (omega arith))))
  ]
    where
      next : List Bytes
      next = set nodes (suc i) (hashed nodes (suc i))

      le_or : (k ≤ i) ⊎ (k ≡ suc i)
      le_or = grind arith

      kept : (j : ℕ) → suc i < j → node (hash_up h i next) j ≡ node nodes j
      kept j far =
          hash_up_above i next j (omega arith)
          ∙ get_or-set_ne nodes (suc i) j (hashed nodes (suc i)) [] (omega arith)

  -- The leaves before the inner nodes are hashed.
  padded_leaf :
      (hashes : List Bytes) (size i : ℕ)
      → 0 < length hashes
      → length hashes ≤ size
      → i < size
      → let n = length hashes in
        node
          (pad_leaves
            (size - n)
            size
            n
            (get_or hashes (n - 1) [])
            (fill_leaves size 0 hashes (replicate (2 * size) [])))
          (size + i)
        ≡ node hashes (min i (n - 1))
  padded_leaf hashes size i pos fits low = elim side [
    | inl own ↦
        let at : size + i ≡ size + 0 + i = omega arith in
        pad_leaves_below (size - n) size n last filled (size + i) (omega arith)
        ∙ ap (node filled) at
        ∙ fill_leaves_at size 0 hashes blank i own (omega (arith, length-replicate (2 * size) nil))
        ∙ ap (node hashes) (omega arith)
    | inr pad ↦
        let at : size + i ≡ size + n + (i - n) = omega arith in
        ap (node (pad_leaves (size - n) size n last filled)) at
        ∙ pad_leaves_at (size - n) size n last filled (i - n) (omega arith)
            (omega (arith, length-fill_leaves size 0 hashes blank, length-replicate (2 * size) nil))
        ∙ ap (node hashes) (omega arith)
  ]
    where
      nil : Bytes
      nil = []

      n : ℕ
      n = length hashes

      last : Bytes
      last = get_or hashes (n - 1) []

      blank : List Bytes
      blank = replicate (2 * size) []

      filled : List Bytes
      filled = fill_leaves size 0 hashes blank

      side : (i < n) ⊎ (n ≤ i)
      side = grind arith

  build-IsHeap :
      (hashes : List Bytes) (size d : ℕ)
      → 0 < length hashes
      → length hashes ≤ size
      → size ≡ 2 ^ suc d
      → IsHeap h hashes d
          (record { leaves = hashes; nodes = build_nodes h hashes size; leaf_start = size })
  unfolding build_nodes hashed
  build-IsHeap hashes size d pos fits e = record {
    kept = refl;
    start = e;
    fits = fits;
    sized = length-hash_up (size - 1) padded ∙ sized;
    inner = λ i p q. hash_up_at (size - 1) padded i p (omega arith) (omega (arith, sized, two));
    leaf = λ i q.
        hash_up_above (size - 1) padded (size + i) (omega (arith, two))
        ∙ padded_leaf hashes size i pos fits q;
  }
    where
      nil : Bytes
      nil = []

      padded : List Bytes
      padded =
          pad_leaves (size - length hashes) size (length hashes)
            (get_or hashes (length hashes - 1) [])
            (fill_leaves size 0 hashes (replicate (2 * size) []))

      sized : length padded ≡ 2 * size
      sized =
          length-pad_leaves (size - length hashes) size (length hashes) _ _
          ∙ length-fill_leaves size 0 hashes (replicate (2 * size) [])
          ∙ length-replicate (2 * size) nil

      two : 2 ≤ size
      two = omega (arith, one-le-pow d 2, pow-suc 2 d)

  -- Every list of chunk hashes but the empty one has a tree, and it is a heap over them.
  pub build_merkle_tree-IsHeap :
      (c : Bytes) (cs : List Bytes)
      → (t : MerkleTree) × (d : ℕ) × (build_merkle_tree h (c ∷ cs) ≡ some t) × IsHeap h (c ∷ cs) d t
  unfolding build_merkle_tree
  build_merkle_tree-IsHeap c cs =
      let (fits, (d, e), _) = padded_size_lem (length (c ∷ cs)) in
      (
        record {
          leaves = c ∷ cs;
          nodes = build_nodes h (c ∷ cs) (padded_size (length (c ∷ cs)));
          leaf_start = padded_size (length (c ∷ cs));
        },
        d,
        refl,
        build-IsHeap (c ∷ cs) (padded_size (length (c ∷ cs))) d (omega arith) fits
            (omega (arith, e, pow-suc 2 d)),
      )
