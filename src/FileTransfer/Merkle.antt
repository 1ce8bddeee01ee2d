-- ===== src/FileTransfer/Merkle.antt =====
-- internal/filetransfer/merkle.go: the hash tree in heap layout, its proofs and their check.
-- A `[][]byte` is a list; a slot that was never written is the empty byte string. An `int` is a
-- natural number: no caller passes a negative index, and `leafStart` of `VerifyProof` stays in
-- range for proofs of fewer than 63 siblings.
pub mod Build
pub mod Heap
pub mod Paths
pub mod Soundness
use ensemble.Common.{
  ℕ, zero, suc, ◌+◌, ◌-◌, ◌*◌, ◌/◌, ◌%◌, bit_xor, Bool, true, false, ◌||◌, Option, none, some, List,
  [], ◌∷◌, ◌++◌, length, get_or, set, replicate, ltb, ◌==◌, if◌then◌else◌, bytes_eq,
}
use ensemble.Crypto.{Bytes, Sha256}

pub record MerkleTree : Type 0 where
  pub leaves : List Bytes
  pub nodes : List Bytes
  pub leaf_start : ℕ

-- `for size < n { size *= 2 }`
unfoldable pub grow : ℕ → ℕ → ℕ → ℕ
grow zero n size = size
grow (suc fuel) n size = let more = grow fuel n (size * 2) in if ltb size n then more else size

unfoldable pub padded_size : ℕ → ℕ
unfolding grow
padded_size n = grow n n 2

-- The loop that writes the leaves, from index `i` on.
unfoldable pub fill_leaves : ℕ → ℕ → List Bytes → List Bytes → List Bytes
fill_leaves size i [] nodes = nodes
fill_leaves size i (c ∷ cs) nodes = fill_leaves size (suc i) cs (set nodes (size + i) c)

-- The loop that repeats the last hash; the first argument counts the rounds left.
unfoldable pub pad_leaves : ℕ → ℕ → ℕ → Bytes → List Bytes → List Bytes
pad_leaves zero size i last nodes = nodes
pad_leaves (suc k) size i last nodes = pad_leaves k size (suc i) last (set nodes (size + i) last)

unfoldable pub is_empty : Bytes → Bool
is_empty [] = true
is_empty (_ ∷ _) = false

-- `for range proof { leafStart *= 2 }`
unfoldable pub leaf_start_of : List Bytes → ℕ → ℕ
leaf_start_of [] start = start
leaf_start_of (_ ∷ proof) start = leaf_start_of proof (start * 2)

module _ (h : Sha256) where
  unfoldable pub hash_pair : Bytes → Bytes → Bytes
  hash_pair left right = h.digest (left ++ right)

  -- `for i := size - 1; i >= 1; i--`, at the round that writes node `i`.
  unfoldable pub hash_up : ℕ → List Bytes → List Bytes
  hash_up zero nodes = nodes
  hash_up (suc i) nodes = hash_up i (
      set nodes (suc i) (hash_pair (get_or nodes (2 * suc i) []) (get_or nodes (2 * suc i + 1) [])))

  -- The body of `BuildMerkleTree` for a list that is not empty.
  unfoldable pub build_nodes : List Bytes → ℕ → List Bytes
  unfolding hash_pair hash_up fill_leaves pad_leaves
  build_nodes hashes size =
      let n = length hashes in
      let blank = replicate (2 * size) [] in
      let filled = fill_leaves size 0 hashes blank in
      let padded = pad_leaves (size - n) size n (get_or hashes (n - 1) []) filled in
      hash_up (size - 1) padded

  -- `none` is the error "no chunk hashes provided".
  unfoldable pub build_merkle_tree : List Bytes → Option MerkleTree
  unfolding build_nodes padded_size
  build_merkle_tree [] = none
  build_merkle_tree (c ∷ cs) =
      let size = padded_size (length (c ∷ cs)) in
      some (record { leaves = c ∷ cs; nodes = build_nodes (c ∷ cs) size; leaf_start = size })

  -- The loop of `VerifyProof`.
  unfoldable pub climb : ℕ → Bytes → List Bytes → Bytes
  unfolding hash_pair
  climb pos current [] = current
  climb pos current (sibling ∷ proof) =
      climb (pos / 2)
        (if pos % 2 == 0 then hash_pair current sibling else hash_pair sibling current) proof

  unfoldable pub verify_proof : Bytes → ℕ → List Bytes → Bytes → Bool
  unfolding is_empty leaf_start_of climb bytes_eq
  verify_proof chunk_hash chunk_index proof root =
      if is_empty chunk_hash || is_empty root
      then false
      else bytes_eq (climb (leaf_start_of proof 1 + chunk_index) chunk_hash proof) root

unfoldable pub root : MerkleTree → Bytes
root t = get_or t.nodes 1 []

-- The loop of `Proof`: `pos ^ 1` is the sibling, `pos / 2` the parent.
unfoldable pub siblings : ℕ → ℕ → List Bytes → List Bytes
siblings zero pos nodes = []
siblings (suc fuel) pos nodes =
    let rest = get_or nodes (bit_xor pos 1) [] ∷ siblings fuel (pos / 2) nodes in
    if ltb 1 pos then rest else []

-- `none` is the error for an index out of range. The position halves in each round, so it serves
-- as the fuel.
unfoldable pub proof_of : MerkleTree → ℕ → Option (List Bytes)
unfolding siblings
proof_of t i =
    let pos = t.leaf_start + i in
    if ltb i (length t.leaves) then some (siblings pos pos t.nodes) else none
