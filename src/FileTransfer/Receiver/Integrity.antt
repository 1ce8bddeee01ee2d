-- ===== src/FileTransfer/Receiver/Integrity.antt =====
-- A file that the receiver saves is the file that the root hash was made for.
use ensemble.Common.{
  ℕ, zero, suc, ◌+◌, ◌-◌, ◌/◌, ◌≤◌, ◌<◌, ◌≡◌, ◌⊎◌, refl, sym, ◌∙◌, ap, Bool, true, false, none,
  some, List, [], ◌∷◌, ◌++◌, length, ◌==◌, Bool-cases, Option-cases, bytes_eq_sound, append_assoc,
  append-nil, inl, inr, arith, ok, ==_iff,
}
use ensemble.Common.Maps.{lookup, nat_eq, Each, lookup-insert}
use mathlib.Core.List.{Memᴰ}
use ensemble.Crypto.{Bytes, Sha256, Collision}
use ensemble.FileTransfer.Chunker.{Chunker, regular, all_chunk_hashes, new_chunker_with_size}
use ensemble.FileTransfer.Chunker.Contents.{
  slice, join_slices, join_slices-content, Fits, slice_hashes, length-slice_hashes,
  get_or-slice_hashes, all_chunk_hashes-slices, new_chunker-Fits,
}
use ensemble.FileTransfer.Merkle.{MerkleTree, build_merkle_tree, root, verify_proof, leaf_start_of}
use ensemble.FileTransfer.Merkle.Soundness.{
  IsPair, HashedAbove, Collision-widen, verify_proof_sound, same_or_Collision,
}
use ensemble.FileTransfer.Receiver.{
  FileChunk, Incoming, read_error, bad_chunk, file_chunk, complete, cancel, other, Transfer,
  Receiving, reassembling, chunk_valid, keep_chunk, receive_chunks, Disk, Saved, write_from,
  reassemble, start_receiving,
}

-- Every chunk message of the list has a proof of the depth of the tree.
abbrev pub Deep : MerkleTree → List Incoming → Type 0
Deep t [] = Unit {0}
Deep t (file_chunk fc sent ∷ rest) = (leaf_start_of fc.proof 1 ≡ t.leaf_start) × Deep t rest
Deep t (_ ∷ rest) = Deep t rest

-- What the receiver hashes of a chunk message: the chunk, and what is hashed to check its proof.
abbrev pub HashedFor : Sha256 → FileChunk → Bytes → Type 0
HashedFor h fc s =
    (s ≡ fc.bytes) ⊎ HashedAbove h (leaf_start_of fc.proof 1 + fc.index) fc.hash fc.proof s

-- What the receiver hashes of the messages.
abbrev pub HashedOf : Sha256 → List Incoming → Bytes → Type 0
HashedOf h msgs s =
    (fc : FileChunk) × (sent : Bool) × Memᴰ (file_chunk fc sent) msgs × HashedFor h fc s

-- What the sender hashes of the file: its chunks, and the pairs of children in the tree.
abbrev pub HashedIn : Bytes → Chunker → MerkleTree → Bytes → Type 0
HashedIn content c t s =
    ((i : ℕ) × (i < c.total) × (s ≡ slice content c.chunk_size i)) ⊎ IsPair t.nodes t.leaf_start s

module _ (h : Sha256) (content : Bytes) (c : Chunker) (t : MerkleTree) (xfer : Transfer) where
  -- The offer describes the file.
  pub record Offers : Type 0 where
    pub fits : Fits c content
    pub built : build_merkle_tree h (slice_hashes h content c.chunk_size c.total 0) ≡ some t
    pub rooted : xfer.root_hash ≡ root t
    pub counted : xfer.total ≡ c.total

-- What is hashed of the messages, among other things.
module _ (h : Sha256) (content : Bytes) (c : Chunker) (t : MerkleTree) (xfer : Transfer)
    (Hashed : Bytes → Type 0) where
  abbrev IsGenuine : ℕ → Bytes → Type 0
  IsGenuine i bytes =
      i < c.total
      → (bytes ≡ slice content c.chunk_size i) ⊎ Collision h Hashed (HashedIn content c t)

  chunk_valid-IsGenuine :
      (fc : FileChunk)
      → Offers h content c t xfer
      → leaf_start_of fc.proof 1 ≡ t.leaf_start
      → chunk_valid h xfer fc ≡ true
      → ((s : Bytes) → HashedFor h fc s → Hashed s)
      → IsGenuine fc.index fc.bytes
  unfolding chunk_valid
  chunk_valid-IsGenuine fc v deep valid into low =
      let hashed : h.digest fc.bytes ≡ fc.hash =
        bytes_eq_sound (h.digest fc.bytes) fc.hash (ground arith) in
      let proved : verify_proof h fc.hash fc.index fc.proof (root t) ≡ true =
        rw (← v.rooted) (ground arith) in
      elim (verify_proof_sound h hashes t fc.hash fc.index fc.proof v.built
        (λ j p.
          ap (λ (b : Bytes). length b) (get_or-slice_hashes h content n c.total 0 j (count j p))
          ∙ h.digest_size _)
        (omega (arith, length-slice_hashes h content n c.total 0))
        (ap (λ (b : Bytes). length b) (sym hashed) ∙ h.digest_size _) deep proved) [
          | inl same ↦
              same_or_Collision h fc.bytes (slice content n fc.index) (into fc.bytes (inl refl))
                (inl (fc.index, low, refl))
                (hashed
                  ∙ same
                  ∙ get_or-slice_hashes h content n c.total 0 fc.index low
                  ∙ ap (λ (i : ℕ). h.digest (slice content n i)) (omega arith))
          | inr broken ↦ inr (Collision-widen h (λ s m. into s (inr m)) (λ s p. inr p) broken)
        ]
    where
      n : ℕ
      n = c.chunk_size

      hashes : List Bytes
      hashes = slice_hashes h content n c.total 0

      count : (j : ℕ) → j < length hashes → j < c.total
      count j p = omega (arith, length-slice_hashes h content n c.total 0)

  keep_chunk-IsGenuine :
      (fc : FileChunk) (s : Receiving)
      → Offers h content c t xfer
      → leaf_start_of fc.proof 1 ≡ t.leaf_start
      → ((x : Bytes) → HashedFor h fc x → Hashed x)
      → Each IsGenuine s.chunks
      → Each IsGenuine (keep_chunk h xfer fc s).chunks
  unfolding keep_chunk
  keep_chunk-IsGenuine fc s v deep into each k bytes found =
      elim (Bool-cases (chunk_valid h xfer fc)) [
        | inr invalid ↦ each k bytes (ground arith)
        | inl valid ↦ elim (Bool-cases (fc.index == k)) [
          | inl same ↦
              let at : fc.index ≡ k = (==_iff fc.index k).0 same in
              let is : fc.bytes ≡ bytes =
                ground (arith, lookup-insert fc.index k fc.bytes s.chunks) in
              rw (at, is) at (chunk_valid-IsGenuine fc v deep valid into)
          | inr apart ↦ each k bytes (ground (arith, lookup-insert fc.index k fc.bytes s.chunks))
        ]
      ]

  receive_chunks-IsGenuine :
      (msgs : List Incoming) (s s' : Receiving)
      → Offers h content c t xfer
      → Deep t msgs
      → ((x : Bytes) → HashedOf h msgs x → Hashed x)
      → Each IsGenuine s.chunks
      → receive_chunks h xfer msgs s ≡ reassembling s'
      → Each IsGenuine s'.chunks
  unfolding receive_chunks
  receive_chunks-IsGenuine [] s s' v deep into each e = cc
  receive_chunks-IsGenuine (read_error ∷ msgs) s s' v deep into each e = cc
  receive_chunks-IsGenuine (bad_chunk ∷ msgs) s s' v deep into each e = cc
  receive_chunks-IsGenuine (file_chunk fc false ∷ msgs) s s' v deep into each e = cc
  receive_chunks-IsGenuine (file_chunk fc true ∷ msgs) s s' v deep into each e =
      receive_chunks-IsGenuine msgs _ s' v deep.1
        (λ x (fc', sent, m, hashed). into x (fc', sent, Memᴰ.tail m, hashed))
        (keep_chunk-IsGenuine fc _ v deep.0 (λ x hashed. into x (fc, true, Memᴰ.head refl, hashed))
          each)
        e
  receive_chunks-IsGenuine (complete ∷ msgs) s s' v deep into each e =
      λ k bytes found. each k bytes (ground arith)
  receive_chunks-IsGenuine (cancel ∷ msgs) s s' v deep into each e = cc
  receive_chunks-IsGenuine (other ∷ msgs) s s' v deep into each e = cc

  write_from-genuine :
      (disk : Disk) (chunks : List (ℕ × Bytes)) (k i : ℕ) (out : Bytes)
      → Each IsGenuine chunks
      → i + k ≤ c.total
      → (write_from disk chunks k i out).error ≡ none
      → ((write_from disk chunks k i out).file ≡ some (out ++ join_slices content c.chunk_size k i))
        ⊎ Collision h Hashed (HashedIn content c t)
  unfolding write_from join_slices
  write_from-genuine disk chunks zero i out each low e = inl (ap some (sym (append-nil out)))
  write_from-genuine disk chunks (suc k) i out each low e = elim (Option-cases (lookup i chunks)) [
    | inl gap ↦ absurd (ground arith)
    | inr (bytes, found) ↦ elim (Bool-cases (disk.write_ok i)) [
      | inr refused ↦ absurd (ground arith)
      | inl written ↦ elim (each i bytes found (omega arith)) [
        | inr broken ↦ inr broken
        | inl same ↦
            elim (write_from-genuine disk chunks k (suc i) (out ++ bytes) each (omega arith)
              (ground arith)) [
                | inr broken ↦ inr broken
                | inl rest ↦ inl (
                    ground (
                      arith,
                      rest,
                      append_assoc out bytes (join_slices content c.chunk_size k (suc i)),
                    ))
              ]
      ]
    ]
  ]

  reassemble-write_from :
      (chunks : List (ℕ × Bytes)) (disk : Disk)
      → (reassemble xfer chunks disk).error ≡ none
      → reassemble xfer chunks disk ≡ write_from disk chunks xfer.total 0 []
  unfolding reassemble
  reassemble-write_from chunks disk e = ground arith

-- Take a sender whose chunker is for a file of fewer than `2 ^ 32` chunks and whose root hash and
-- chunk count, from `AllChunkHashes` and `BuildMerkleTree`, stand in the offer. For any messages in
-- which each chunk's proof has the depth of that tree, in whatever order and number: if the loop
-- ends by FILE_COMPLETE and the file is saved without an error, then the saved content is the
-- sender's file, or a string that the receiver hashes for one of the messages and one that the
-- sender hashes for the file are a collision of the hash function.
pub receive_chunks-reassemble-integrity :
    (h : Sha256) (content : Bytes) (n : ℕ) (c : Chunker) (hashes : List Bytes) (t : MerkleTree)
    (xfer : Transfer) (msgs : List Incoming) (s : Receiving) (disk : Disk)
    → new_chunker_with_size (regular content) n ≡ ok c
    → (length content + n - 1) / n < 4294967296
    → all_chunk_hashes h c (regular content) ≡ ok hashes
    → build_merkle_tree h hashes ≡ some t
    → xfer.root_hash ≡ root t
    → xfer.total ≡ c.total
    → Deep t msgs
    → receive_chunks h xfer msgs start_receiving ≡ reassembling s
    → (reassemble xfer s.chunks disk).error ≡ none
    → ((reassemble xfer s.chunks disk).file ≡ some content)
      ⊎ Collision h (HashedOf h msgs) (HashedIn content c t)
unfolding lookup
receive_chunks-reassemble-integrity h content n c hashes t xfer msgs s disk made small hashed built
      rooted counted deep received saved =
    let fits = new_chunker-Fits content n made small in
    let listed : hashes ≡ slice_hashes h content c.chunk_size c.total 0 =
      ground (arith, all_chunk_hashes-slices h c content fits) in
    let v : Offers h content c t xfer = record {
      fits = fits;
      built = rw listed at built;
      rooted = rooted;
      counted = counted;
    } in
    let each =
      receive_chunks-IsGenuine h content c t xfer (HashedOf h msgs) msgs start_receiving s v deep
        (λ x hashed. hashed) (λ k bytes found. cc) received in
    let written = reassemble-write_from h content c t xfer (HashedOf h msgs) s.chunks disk saved in
    elim (write_from-genuine h content c t xfer (HashedOf h msgs) disk s.chunks c.total 0 [] each
      (omega arith) (rw (written, counted) at saved)) [
        | inr broken ↦ inr broken
        | inl whole ↦ inl (
            ap (λ (r : Saved). r.file) written
            ∙ ap (λ (k : ℕ). (write_from disk s.chunks k 0 []).file) counted
            ∙ whole
            ∙ ap some (join_slices-content c content fits))
      ]
