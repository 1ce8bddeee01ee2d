-- ===== src/FileTransfer/Merkle/Paths.antt =====
-- `Proof` and `VerifyProof` agree: the siblings on the way from a node to the root hash up to
-- the root.
use native.Mathlib.Nat.{pow-suc, one-le-pow}
use ensemble.Common.{
  ℕ, zero, suc, ◌+◌, ◌*◌, ◌/◌, ◌%◌, ◌^◌, ◌≤◌, ◌<◌, ◌≡◌, refl, sym, ◌∙◌, ap, true, false, some, List,
  [], ◌∷◌, length, get_or, ltb, ◌==◌, if◌then◌else◌, Bool-cases, bytes_eq_refl, bit_xor, inl, inr,
  arith,
}
use ensemble.Common.Bits.{bit_xor-one}
use ensemble.Crypto.{Bytes, Sha256}
use ensemble.FileTransfer.Merkle.{
  MerkleTree, is_empty, leaf_start_of, hash_pair, climb, verify_proof, root, siblings, proof_of,
  build_merkle_tree,
}
use ensemble.FileTransfer.Merkle.Build.{node}
use ensemble.FileTransfer.Merkle.Heap.{IsHeap, build_merkle_tree-IsHeap}

pub leaf_start_of-pow : (proof : List Bytes) (s : ℕ) → leaf_start_of proof s ≡ s * 2 ^ length proof
unfolding leaf_start_of
leaf_start_of-pow [] s = omega arith
leaf_start_of-pow (_ ∷ proof) s =
    omega (arith, leaf_start_of-pow proof (s * 2), ap (λ (t : ℕ). s * t) (pow-suc 2 (length proof)))

-- A node on level `k` has `k` siblings on its way.
pub length-siblings :
    (k fuel pos : ℕ) (nodes : List Bytes)
    → pos ≤ fuel
    → 2 ^ k ≤ pos
    → pos < 2 * 2 ^ k
    → length (siblings fuel pos nodes) ≡ k
unfolding siblings
length-siblings k zero pos nodes p low high = absurd (omega (arith, one-le-pow k 2))
length-siblings zero (suc fuel) pos nodes p low high = ground arith
length-siblings (suc k) (suc fuel) pos nodes p low high =
    let two = pow-suc 2 k in
    let some_level = one-le-pow k 2 in
    let rest = length-siblings k fuel (pos / 2) nodes (omega arith) (omega arith) (omega arith) in
    ground arith

module _ (h : Sha256) where
  pub climb-siblings :
      (fuel pos : ℕ) (nodes : List Bytes) (size : ℕ)
      → ((i : ℕ)
          → 0 < i
          → i < size
          → node nodes i ≡ hash_pair h (node nodes (2 * i)) (node nodes (2 * i + 1)))
      → pos ≤ fuel
      → 0 < pos
      → pos < 2 * size
      → climb h pos (node nodes pos) (siblings fuel pos nodes) ≡ node nodes 1
  unfolding climb siblings
  climb-siblings zero pos nodes size inner p low high = absurd (omega arith)
  climb-siblings (suc fuel) pos nodes size inner p low high = elim (Bool-cases (ltb 1 pos)) [
    | inr done ↦ rw done (ap (node nodes) (ground arith))
    | inl more ↦
        let deeper : 1 < pos = ground arith in
        rw more (
          ap (λ (b : Bytes). climb h half b (siblings fuel half nodes)) (hashed deeper)
          ∙ climb-siblings fuel half nodes size inner (omega arith) (omega arith) (omega arith))
  ]
    where
      half : ℕ
      half = pos / 2

      hashed :
          1 < pos
          → (if pos % 2 == 0
              then hash_pair h (node nodes pos) (node nodes (bit_xor pos 1))
              else hash_pair h (node nodes (bit_xor pos 1)) (node nodes pos))
            ≡ node nodes half
      hashed deeper = elim (Bool-cases (pos % 2 == 0)) [
        | inl even ↦
            let r : pos % 2 ≡ 0 = ground arith in
            let this : 2 * half ≡ pos = omega arith in
            let other : 2 * half + 1 ≡ bit_xor pos 1 = omega (arith, bit_xor-one pos) in
            let up = inner half (omega arith) (omega arith) in
            rw even (sym (rw (other, this) at up))
        | inr odd ↦
            let r : pos % 2 ≡ 1 = ground arith in
            let this : 2 * half + 1 ≡ pos = omega arith in
            let other : 2 * half ≡ bit_xor pos 1 = omega (arith, bit_xor-one pos) in
            let up = inner half (omega arith) (omega arith) in rw odd (sym (rw (this, other) at up))
      ]

  root-node : (t : MerkleTree) → root t ≡ node t.nodes 1
  unfolding root
  root-node t = refl

  nonempty : (b : Bytes) → 0 < length b → is_empty b ≡ false
  unfolding is_empty
  nonempty [] p = elim p [ ]
  nonempty (_ ∷ _) p = refl

  -- An inner node is a digest.
  pub length-inner :
      {hashes : List Bytes} {d : ℕ} {t : MerkleTree}
      → IsHeap h hashes d t
      → (i : ℕ) → 0 < i
      → i < t.leaf_start
      → length (node t.nodes i) ≡ 32
  unfolding hash_pair
  length-inner {t} v i p q = ap length (v.inner i p q) ∙ h.digest_size _

  pub two-le-start :
      {hashes : List Bytes} {d : ℕ} {t : MerkleTree} → IsHeap h hashes d t → 2 ≤ t.leaf_start
  two-le-start {d} v = omega (arith, v.start, one-le-pow d 2, pow-suc 2 d)

  -- Each node that is not the empty byte string, on any level `k` of the tree, passes the check
  -- of `VerifyProof` at its position in the level, with the siblings on its way.
  pub verify_proof-node :
      {hashes : List Bytes} {d : ℕ} {t : MerkleTree}
      → IsHeap h hashes d t
      → (k i : ℕ) → i < 2 ^ k
      → 2 ^ k ≤ t.leaf_start
      → 0 < length (node t.nodes (2 ^ k + i))
      → let pos = 2 ^ k + i in
        verify_proof h (node t.nodes pos) i (siblings pos pos t.nodes) (root t) ≡ true
  unfolding verify_proof root
  verify_proof-node {hashes} {d} {t} v k i low level some_hash =
      rw (nonempty (node t.nodes pos) some_hash, nonempty (root t) rooted, at, end)
        (bytes_eq_refl (node t.nodes 1))
    where
      pos : ℕ
      pos = 2 ^ k + i

      rooted : 0 < length (root t)
      rooted =
          omega (arith, ap length (root-node t), length-inner v 1 (omega arith) (two-le-start v))

      at : leaf_start_of (siblings pos pos t.nodes) 1 + i ≡ pos
      at = omega (
        arith,
        leaf_start_of-pow (siblings pos pos t.nodes) 1,
        ap (λ (n : ℕ). 2 ^ n)
            (length-siblings k pos pos t.nodes (omega arith) (omega arith) (omega arith)),
      )

      end : climb h pos (node t.nodes pos) (siblings pos pos t.nodes) ≡ node t.nodes 1
      end =
          climb-siblings pos pos t.nodes t.leaf_start v.inner (omega arith)
            (omega (arith, one-le-pow k 2)) (omega arith)

  proof_of-in_range :
      (t : MerkleTree) (i : ℕ)
      → i < length t.leaves
      → proof_of t i ≡ some (siblings (t.leaf_start + i) (t.leaf_start + i) t.nodes)
  unfolding proof_of
  proof_of-in_range t i p = ground arith

  -- For every list of chunk hashes and every index in it, `BuildMerkleTree` and `Proof` succeed,
  -- and `VerifyProof` accepts the hash (if it is not empty) at that index with that proof.
  pub build-proof_of-verify_proof :
      (c : Bytes) (cs : List Bytes) (i : ℕ)
      → i < length (c ∷ cs)
      → 0 < length (get_or (c ∷ cs) i [])
      → (t : MerkleTree) × (proof : List Bytes) × (build_merkle_tree h (c ∷ cs) ≡ some t)
        × (proof_of t i ≡ some proof)
        × (verify_proof h (get_or (c ∷ cs) i []) i proof (root t) ≡ true)
  build-proof_of-verify_proof c cs i low some_hash =
      let (t, d, built, v) = build_merkle_tree-IsHeap h c cs in
      let start : t.leaf_start ≡ 2 ^ suc d = v.start in
      let here : node t.nodes (t.leaf_start + i) ≡ get_or (c ∷ cs) i [] =
        v.leaf i (omega (arith, v.fits)) ∙ ap (node (c ∷ cs)) (omega arith) in
      let accepted = verify_proof-node v (suc d) i (omega (arith, v.fits)) (omega arith) (
        omega (
          arith,
          ap (λ (p : ℕ). length (node t.nodes (p + i))) start,
          ap (λ (b : Bytes). length b) here,
        )) in
      let in_range =
        proof_of-in_range t i (omega (arith, ap (λ (l : List Bytes). length l) v.kept)) in
      (
        t,
        siblings (t.leaf_start + i) (t.leaf_start + i) t.nodes,
        built,
        in_range,
        rw (← start, here) at accepted,
      )
