-- ===== src/FileTransfer/Merkle/Soundness.antt =====
-- What an accepted proof says about the chunk hash: it is the one that the tree was built from,
-- or two different byte strings have the same digest.
use Prim.Native.Nat.{min}
use native.Mathlib.Nat.{pow-suc, one-le-pow}
use ensemble.Common.{
  ℕ, suc, ◌+◌, ◌-◌, ◌*◌, ◌/◌, ◌%◌, ◌^◌, ◌≤◌, ◌<◌, ◌≡◌, ◌⊎◌, refl, sym, ◌∙◌, ap, subst, true, false,
  if◌then◌else◌, some, List, [], ◌∷◌, ◌++◌, length, get_or, ◌==◌, Bool-cases, bytes_eq,
  bytes_eq_sound, bytes_eq_refl, append-injective, append-injective_right, inl, inr, arith,
}
use mathlib.Core.List.{Memᴰ}
use ensemble.Crypto.{Bytes, Sha256, Collision}
use ensemble.FileTransfer.Merkle.{
  MerkleTree, leaf_start_of, hash_pair, climb, verify_proof, root, siblings, proof_of,
  build_merkle_tree,
}
use ensemble.FileTransfer.Merkle.Build.{node}
use ensemble.FileTransfer.Merkle.Heap.{IsHeap, build_merkle_tree-IsHeap}
use ensemble.FileTransfer.Merkle.Paths.{
  leaf_start_of-pow, length-inner, verify_proof-node, build-proof_of-verify_proof,
}

-- The two children of an inner node, one after the other.
abbrev pub IsPair : List Bytes → ℕ → Bytes → Type 0
IsPair nodes size s =
    (i : ℕ) × (0 < i) × (i < size) × (s ≡ node nodes (2 * i) ++ node nodes (2 * i + 1))

module _ (h : Sha256) where
  -- What is hashed on the way up from a position.
  unfoldable pub climb_inputs : ℕ → Bytes → List Bytes → List Bytes
  climb_inputs pos current [] = []
  climb_inputs pos current (sibling ∷ proof) =
      let joined = if pos % 2 == 0 then current ++ sibling else sibling ++ current in
      joined ∷ climb_inputs (pos / 2) (h.digest joined) proof

  abbrev pub HashedAbove : ℕ → Bytes → List Bytes → Bytes → Type 0
  HashedAbove pos current proof s = Memᴰ s (climb_inputs pos current proof)

  climb_inputs-even :
      (pos : ℕ) (current sibling : Bytes) (proof : List Bytes)
      → (pos % 2 == 0) ≡ true
      → (current ++ sibling) ∷ climb_inputs (pos / 2) (h.digest (current ++ sibling)) proof
        ≡ climb_inputs pos current (sibling ∷ proof)
  unfolding climb_inputs
  climb_inputs-even pos current sibling proof e = rw (e, climb_inputs) refl

  climb_inputs-odd :
      (pos : ℕ) (current sibling : Bytes) (proof : List Bytes)
      → (pos % 2 == 0) ≡ false
      → (sibling ++ current) ∷ climb_inputs (pos / 2) (h.digest (sibling ++ current)) proof
        ≡ climb_inputs pos current (sibling ∷ proof)
  unfolding climb_inputs
  climb_inputs-odd pos current sibling proof e = rw (e, climb_inputs) refl

  pub Collision-widen :
      {L M R S : Bytes → Type 0}
      → ((s : Bytes) → L s → M s)
      → ((s : Bytes) → R s → S s)
      → Collision h L R
      → Collision h M S
  Collision-widen f g c = record {
    left = c.left;
    right = c.right;
    from_left = f c.left c.from_left;
    from_right = g c.right c.from_right;
    distinct = c.distinct;
    clash = c.clash;
  }

  pub same_or_Collision :
      {L R : Bytes → Type 0} (a b : Bytes)
      → L a
      → R b
      → h.digest a ≡ h.digest b
      → (a ≡ b) ⊎ Collision h L R
  same_or_Collision a b from to e = elim (Bool-cases (bytes_eq a b)) [
    | inl same ↦ inl (bytes_eq_sound a b same)
    | inr other ↦ inr (record {
      left = a;
      right = b;
      from_left = from;
      from_right = to;
      distinct = λ p. ground (arith, bytes_eq_refl b);
      clash = e;
    })
  ]

  pub IsHeap-of_build :
      (hashes : List Bytes) {t : MerkleTree}
      → build_merkle_tree h hashes ≡ some t
      → (d : ℕ) × IsHeap h hashes d t
  unfolding build_merkle_tree
  IsHeap-of_build [] e = ground arith
  IsHeap-of_build (c ∷ cs) {t} e =
      let (t', d, built, v) = build_merkle_tree-IsHeap h c cs in
      let same : t' ≡ t = ground arith in (d, rw same at v)

  length-hash_pair : (a b : Bytes) → length (hash_pair h a b) ≡ 32
  unfolding hash_pair
  length-hash_pair a b = h.digest_size (a ++ b)

  -- The two ways to combine a hash with its sibling each determine the hash.
  left_of_pair :
      {L R : Bytes → Type 0} (a b c d : Bytes)
      → L (a ++ b)
      → R (c ++ d)
      → length a ≡ length c
      → hash_pair h a b ≡ hash_pair h c d
      → (a ≡ c) ⊎ Collision h L R
  unfolding hash_pair
  left_of_pair a b c d from to n e = elim (same_or_Collision (a ++ b) (c ++ d) from to e) [
    | inl same ↦ inl (append-injective a b c d n same).0
    | inr broken ↦ inr broken
  ]

  right_of_pair :
      {L R : Bytes → Type 0} (a b c d : Bytes)
      → L (a ++ b)
      → R (c ++ d)
      → length b ≡ length d
      → hash_pair h a b ≡ hash_pair h c d
      → (b ≡ d) ⊎ Collision h L R
  unfolding hash_pair
  right_of_pair a b c d from to n e = elim (same_or_Collision (a ++ b) (c ++ d) from to e) [
    | inl same ↦ inl (append-injective_right a b c d n same).1
    | inr broken ↦ inr broken
  ]

  module _ (nodes : List Bytes) (size : ℕ)
      (inner : (i : ℕ)
        → 0 < i
        → i < size
        → node nodes i ≡ hash_pair h (node nodes (2 * i)) (node nodes (2 * i + 1)))
      (digests : (i : ℕ) → 0 < i → i < 2 * size → length (node nodes i) ≡ 32) where
    climb_sound :
        (proof : List Bytes) (pos : ℕ) (current : Bytes)
        → 2 ^ length proof ≤ pos
        → pos < 2 * 2 ^ length proof
        → pos < 2 * size
        → length current ≡ 32
        → climb h pos current proof ≡ node nodes 1
        → (current ≡ node nodes pos)
          ⊎ Collision h (HashedAbove pos current proof) (IsPair nodes size)
    unfolding climb hash_pair
    climb_sound [] pos current low high below n e = inl (e ∙ ap (node nodes) (omega arith))
    climb_sound (s ∷ proof) pos current low high below n e = elim (Bool-cases (pos % 2 == 0)) [
      | inl even ↦
          let r : pos % 2 ≡ 0 = ground arith in
          let this : 2 * half ≡ pos = omega arith in
          elim (climb_sound proof half (hash_pair h current s) low' high' (omega arith)
            (length-hash_pair current s) (rw even at e)) [
              | inl up ↦
                  left_of_pair current s (node nodes pos) (node nodes (pos + 1))
                    (subst (Memᴰ (current ++ s)) (climb_inputs-even pos current s proof even)
                      (Memᴰ.head refl))
                    (
                      half,
                      omega (arith, low', one-le-pow (length proof) 2),
                      omega arith,
                      rw this refl,
                    )
                    (n ∙ sym (digests pos positive below)) (up ∙ (rw this at above))
              | inr broken ↦ inr (
                  Collision-widen
                    (λ x m.
                      subst (Memᴰ x) (climb_inputs-even pos current s proof even) (Memᴰ.tail m))
                    (λ x p. p) broken)
            ]
      | inr odd ↦
          let r : pos % 2 ≡ 1 = ground arith in
          let this : 2 * half + 1 ≡ pos = omega arith in
          elim (climb_sound proof half (hash_pair h s current) low' high' (omega arith)
            (length-hash_pair s current) (rw odd at e)) [
              | inl up ↦
                  right_of_pair s current (node nodes (2 * half)) (node nodes pos)
                    (subst (Memᴰ (s ++ current)) (climb_inputs-odd pos current s proof odd)
                      (Memᴰ.head refl))
                    (
                      half,
                      omega (arith, low', one-le-pow (length proof) 2),
                      omega arith,
                      rw this refl,
                    )
                    (n ∙ sym (digests pos positive below)) (up ∙ (rw this at above))
              | inr broken ↦ inr (
                  Collision-widen
                    (λ x m. subst (Memᴰ x) (climb_inputs-odd pos current s proof odd) (Memᴰ.tail m))
                    (λ x p. p) broken)
            ]
    ]
      where
        half : ℕ
        half = pos / 2

        two : 2 ^ suc (length proof) ≡ 2 ^ length proof * 2
        two = pow-suc 2 (length proof)

        low' : 2 ^ length proof ≤ half
        low' = omega (arith, two)

        high' : half < 2 * 2 ^ length proof
        high' = omega (arith, two)

        positive : 0 < pos
        positive = omega (arith, one-le-pow (suc (length proof)) 2)

        above : node nodes half ≡ hash_pair h (node nodes (2 * half)) (node nodes (2 * half + 1))
        above = inner half (omega (arith, low', one-le-pow (length proof) 2)) (omega arith)

  verify_proof-climb :
      (c : Bytes) (i : ℕ) (proof : List Bytes) (r : Bytes)
      → verify_proof h c i proof r ≡ true
      → climb h (leaf_start_of proof 1 + i) c proof ≡ r
  unfolding verify_proof
  verify_proof-climb c i proof r e = bytes_eq_sound _ r (ground arith)

  -- A proof of the tree's depth that `VerifyProof` accepts for a 32-byte hash at an index of the
  -- tree shows that this hash is the one that the tree was built from at that index, or else a string
  -- that is hashed when the proof is checked and the two children of an inner node of the tree are a
  -- collision of the hash function. The chunk hashes of the tree have 32 bytes.
  pub verify_proof_sound :
      (hashes : List Bytes) (t : MerkleTree) (c : Bytes) (i : ℕ) (proof : List Bytes)
      → build_merkle_tree h hashes ≡ some t
      → ((j : ℕ) → j < length hashes → length (get_or hashes j []) ≡ 32)
      → i < length hashes
      → length c ≡ 32
      → leaf_start_of proof 1 ≡ t.leaf_start
      → verify_proof h c i proof (root t) ≡ true
      → (c ≡ get_or hashes i [])
        ⊎ Collision h
            (HashedAbove (leaf_start_of proof 1 + i) c proof)
            (IsPair t.nodes t.leaf_start)
  unfolding root
  verify_proof_sound hashes t c i proof built sizes low n deep accepted =
      let (d, v) = IsHeap-of_build hashes built in
      let start : 2 ^ length proof ≡ t.leaf_start =
        omega (arith, deep, leaf_start_of-pow proof 1) in
      elim (climb_sound t.nodes t.leaf_start v.inner (digests v) proof (leaf_start_of proof 1 + i) c
        (omega arith) (omega (arith, v.fits)) (omega (arith, v.fits)) n
        (verify_proof-climb c i proof (root t) accepted)) [
          | inl found ↦ inl (
              found
              ∙ ap (λ (s : ℕ). node t.nodes (s + i)) deep
              ∙ v.leaf i (omega (arith, v.fits))
              ∙ ap (node hashes) (omega arith))
          | inr broken ↦ inr broken
        ]
    where
      digests :
          {d : ℕ}
          → IsHeap h hashes d t
          → (j : ℕ) → 0 < j
          → j < 2 * t.leaf_start
          → length (node t.nodes j) ≡ 32
      digests v j p q = elim side [
        | inl up ↦ length-inner h v j p up
        | inr down ↦
            let at : j ≡ t.leaf_start + (j - t.leaf_start) = omega arith in
            ap (λ (k : ℕ). length (node t.nodes k)) at
            ∙ ap (λ (b : Bytes). length b) (v.leaf (j - t.leaf_start) (omega arith))
            ∙ sizes (min (j - t.leaf_start) (length hashes - 1)) (omega arith)
      ]
        where
          side : (j < t.leaf_start) ⊎ (t.leaf_start ≤ j)
          side = grind arith

  -- `VerifyProof` does not tell an inner node from a leaf: in every tree, the two children of an
  -- inner node make up a "chunk" of their own that passes, at the node's index in its level,
  -- with a proof that is as short as the level is deep.
  pub verify_proof_inner_node :
      (hashes : List Bytes) (t : MerkleTree) (k i : ℕ)
      → build_merkle_tree h hashes ≡ some t
      → i < 2 ^ k
      → 2 ^ k + i < t.leaf_start
      → let pos = 2 ^ k + i in
        let forged = get_or t.nodes (2 * pos) [] ++ get_or t.nodes (2 * pos + 1) [] in
        verify_proof h (h.digest forged) i (siblings pos pos t.nodes) (root t) ≡ true
  unfolding hash_pair
  verify_proof_inner_node hashes t k i built low here =
      let (d, v) = IsHeap-of_build hashes built in
      let pos = 2 ^ k + i in
      let positive : 0 < pos = omega (arith, one-le-pow k 2) in
      rw (← v.inner pos positive here) (
        verify_proof-node h v k i low (omega arith)
          (omega (arith, length-inner h v pos positive here)))

  -- The proof of an index in range exists and is accepted.
  pub proof_of-accepted :
      (hashes : List Bytes) (t : MerkleTree) (i : ℕ)
      → build_merkle_tree h hashes ≡ some t
      → i < length hashes
      → 0 < length (get_or hashes i [])
      → (proof : List Bytes) × (proof_of t i ≡ some proof)
        × (verify_proof h (get_or hashes i []) i proof (root t) ≡ true)
  proof_of-accepted [] t i built low some_hash = elim low [ ]
  proof_of-accepted (c ∷ cs) t i built low some_hash =
      let (t', proof, built', found, accepted) =
        build-proof_of-verify_proof h c cs i low some_hash in
      let same : t' ≡ t = ground arith in (proof, rw same at found, rw same at accepted)
