-- ===== src/FileTransfer/Receiver/Delivery.antt =====
-- What the sender writes, the receiver accepts, and the file arrives.
use ensemble.Common.{
  ℕ, zero, suc, ◌+◌, ◌≤◌, ◌<◌, ◌≡◌, ◌⊎◌, refl, sym, subst, ◌∙◌, ap, true, none, some, List, [], ◌∷◌,
  ◌++◌, length, get_or, ◌==◌, ==_iff, Bool-cases, bytes_eq_refl, append_assoc, append-nil, inl, inr,
  arith, ok,
}
use native.Mathlib.Nat.{mod-eq_of_lt}
use ensemble.Common.Maps.{lookup, insert, nat_eq, Each, Distinct, lookup-insert, insert-Distinct}
use ensemble.Common.Counting.{length-ge_of_keys, length-le_of_keys}
use ensemble.Crypto.{Bytes}
use ensemble.FileTransfer.Chunker.{regular, read_chunk, u32}
use ensemble.FileTransfer.Chunker.Contents.{
  slice, join_slices, join_slices-content, slice_hashes, length-slice_hashes, get_or-slice_hashes,
  read_chunk-slice,
}
use ensemble.FileTransfer.Merkle.{root, verify_proof}
use ensemble.FileTransfer.Merkle.Soundness.{proof_of-accepted}
use ensemble.FileTransfer.Receiver.{
  FileChunk, Incoming, file_chunk, complete, Transfer, Receiving, start_receiving, reassembling,
  chunk_valid, keep_chunk, reply_to, receive_chunks, Disk, write_from, reassemble,
}
use ensemble.FileTransfer.Receiver.Integrity.{Offers}
use ensemble.FileTransfer.Sender.{Job, chunk_message}

-- Each of the chunks is one that the sender makes for an index of the file.
abbrev pub AllSent : Job → List FileChunk → Type 0
AllSent job [] = Unit
AllSent job (fc ∷ stream) =
    ((i : ℕ) × (i < job.chunker.total) × (chunk_message job i ≡ ok fc)) × AllSent job stream

-- The chunk of index `i` is among them.
abbrev pub HasChunk : ℕ → List FileChunk → Type 0
HasChunk i [] = ⊥
HasChunk i (fc ∷ stream) = (fc.index ≡ i) ⊎ HasChunk i stream

abbrev pub deliver : List FileChunk → List Incoming
deliver [] = complete ∷ []
deliver (fc ∷ stream) = file_chunk fc true ∷ deliver stream

module _ (content : Bytes) (job : Job) (xfer : Transfer) where
  pub record Ready : Type 0 where
    pub offers : Offers job.hash content job.chunker job.tree xfer
    pub file : job.file ≡ regular content

  chunk_message-accepted :
      (i : ℕ) (fc : FileChunk)
      → Ready
      → i < job.chunker.total
      → chunk_message job i ≡ ok fc
      → (chunk_valid job.hash xfer fc ≡ true)
        × (fc.index ≡ i)
        × (fc.bytes ≡ slice content job.chunker.chunk_size i)
  unfolding chunk_message chunk_valid
  chunk_message-accepted i fc v low e =
      let h = job.hash in
      let n = job.chunker.chunk_size in
      let total = job.chunker.total in
      let hashes = slice_hashes h content n total 0 in
      let hash : get_or hashes i [] ≡ h.digest (slice content n i) =
        get_or-slice_hashes h content n total 0 i low
        ∙ ap (λ (k : ℕ). h.digest (slice content n k)) (omega arith) in
      let (proof, found, accepted) =
        proof_of-accepted h hashes job.tree i v.offers.built
          (omega (arith, length-slice_hashes h content n total 0))
          (omega (arith, ap (λ (b : Bytes). length b) hash, h.digest_size (slice content n i))) in
      let read : read_chunk h job.chunker job.file i ≡ _ =
        ap (λ f. read_chunk h job.chunker f i) v.file
        ∙ read_chunk-slice h job.chunker content i v.offers.fits low in
      let passed : verify_proof h (h.digest (slice content n i)) i proof xfer.root_hash ≡ true =
        subst (λ r. verify_proof h (h.digest (slice content n i)) i proof r ≡ true)
          (sym v.offers.rooted)
          (subst (λ b. verify_proof h b i proof (root job.tree) ≡ true) hash accepted) in
      ground (arith, read, found, passed, bytes_eq_refl (h.digest (slice content n i)))

  -- The chunks kept so far are slices of the file.
  record Holds (chunks : List (ℕ × Bytes)) : Type 0 where
    distinct : Distinct chunks
    inside : Each (λ i bytes. i < job.chunker.total) chunks
    exact : Each (λ i bytes. bytes ≡ slice content job.chunker.chunk_size i) chunks

  insert-Holds :
      (i : ℕ) (bytes : Bytes) (chunks : List (ℕ × Bytes))
      → Holds chunks
      → i < job.chunker.total
      → bytes ≡ slice content job.chunker.chunk_size i
      → Holds (insert i bytes chunks)
  insert-Holds i bytes chunks v low same = record {
    distinct = insert-Distinct i bytes chunks v.distinct;
    inside = λ k w found. elim (Bool-cases (i == k)) [
      | inl here ↦ rw (← (==_iff i k).0 here) low
      | inr apart ↦ v.inside k w (ground (arith, lookup-insert i k bytes chunks))
    ];
    exact = λ k w found. elim (Bool-cases (i == k)) [
      | inl here ↦
          let at : i ≡ k = (==_iff i k).0 here in
          let is : bytes ≡ w = ground (arith, lookup-insert i k bytes chunks) in
          rw (← at, ← is) same
      | inr apart ↦ v.exact k w (ground (arith, lookup-insert i k bytes chunks))
    ];
  }

  abbrev IsKey : ℕ → List (ℕ × Bytes) → Type 0
  IsKey i chunks = (bytes : Bytes) × (lookup i chunks ≡ some bytes)

  insert-IsKey :
      (k i : ℕ) (bytes : Bytes) (chunks : List (ℕ × Bytes))
      → (k ≡ i) ⊎ IsKey i chunks
      → IsKey i (insert k bytes chunks)
  insert-IsKey k i bytes chunks has = elim (Bool-cases (k == i)) [
    | inl here ↦ (bytes, ground (arith, lookup-insert k i bytes chunks))
    | inr apart ↦ elim has [
      | inl e ↦ absurd (ground arith)
      | inr (w, found) ↦ (w, ground (arith, lookup-insert k i bytes chunks))
    ]
  ]

  receive-Holds :
      (stream : List FileChunk) (s : Receiving)
      → Ready
      → AllSent job stream
      → Holds s.chunks
      → (s' : Receiving) × (receive_chunks job.hash xfer (deliver stream) s ≡ reassembling s')
        × Holds s'.chunks
        × ((i : ℕ) → HasChunk i stream ⊎ IsKey i s.chunks → IsKey i s'.chunks)
  unfolding receive_chunks
  receive-Holds [] s v all holds =
      (s, refl, holds, λ i has. elim has [ inl f ↦ absurd f | inr k ↦ k ])
  receive-Holds (fc ∷ stream) s v ((i, low, made), all) holds =
      let (valid, index, bytes) = chunk_message-accepted i fc v low made in
      let told : Receiving = record s { replies = s.replies ++ reply_to job.hash xfer fc ∷ [] } in
      let next : Receiving = keep_chunk job.hash xfer fc told in
      let kept : next.chunks ≡ insert fc.index fc.bytes s.chunks =
        unfold keep_chunk in rw valid refl in
      let (s', received, holds', keys) =
        receive-Holds stream next v all (
          rw kept (insert-Holds fc.index fc.bytes s.chunks holds (omega arith) (rw index bytes))) in
      (
        s',
        received,
        holds',
        λ k has. keys k (elim has [
          | inl (inr later) ↦ inl later
          | inl (inl here) ↦ inr (rw kept (insert-IsKey fc.index k fc.bytes s.chunks (inl here)))
          | inr before ↦ inr (rw kept (insert-IsKey fc.index k fc.bytes s.chunks (inr before)))
        ]),
      )

  write_from-all :
      (disk : Disk) (chunks : List (ℕ × Bytes)) (k i : ℕ) (out : Bytes)
      → Holds chunks
      → ((j : ℕ) → j < job.chunker.total → IsKey j chunks)
      → ((j : ℕ) → disk.write_ok j ≡ true)
      → i + k ≤ job.chunker.total
      → write_from disk chunks k i out ≡ record {
        file = some (out ++ join_slices content job.chunker.chunk_size k i);
        error = none;
      }
  unfolding write_from join_slices
  write_from-all disk chunks zero i out holds keys writes low = rw (append-nil out)
  write_from-all disk chunks (suc k) i out holds keys writes low =
      let (bytes, found) = keys i (omega arith) in
      let rest = join_slices content job.chunker.chunk_size k (suc i) in
      rw (found, writes i, write_from)
        (write_from-all disk chunks k (suc i) (out ++ bytes) holds keys writes (omega arith)
          ∙ ap (λ (b : Bytes). record { file = some b; error = none })
              (append_assoc out bytes rest
                ∙ ap (λ (b : Bytes). out ++ (b ++ rest)) (holds.exact i bytes found)))

  -- Take a sender whose tree and chunk count stand in the offer, and a disk that takes every
  -- write. If the chunks that reach the receiver are ones that the sender makes for indices of
  -- the file, each index at least once, in any order and with any repetition, then the loop ends
  -- by FILE_COMPLETE and the saved file is the sender's, with no error.
  pub deliver-reassemble :
      (stream : List FileChunk) (disk : Disk)
      → Ready
      → job.chunker.total < 4294967296
      → AllSent job stream
      → ((i : ℕ) → i < job.chunker.total → HasChunk i stream)
      → disk.mkdir_ok ≡ true
      → disk.create_ok ≡ true
      → ((i : ℕ) → disk.write_ok i ≡ true)
      → (s : Receiving) × (receive_chunks job.hash xfer (deliver stream) start_receiving
          ≡ reassembling s)
        × (reassemble xfer s.chunks disk ≡ record { file = some content; error = none })
  unfolding lookup reassemble
  deliver-reassemble stream disk v small all has mkdir create writes =
      let nothing : Holds [] = record {
        distinct = tt;
        inside = λ i b e. cc;
        exact = λ i b e. cc;
      } in
      let (s, received, holds, keys) = receive-Holds stream start_receiving v all nothing in
      let total = job.chunker.total in
      let present = λ (i : ℕ) (low : i < total). keys i (inl (has i low)) in
      let count : length s.chunks ≡ total = omega (
        arith,
        length-ge_of_keys total s.chunks present,
        length-le_of_keys total s.chunks holds.distinct holds.inside,
      ) in
      let counted : u32 (length s.chunks) ≡ xfer.total =
        omega (arith, count, v.offers.counted, mod-eq_of_lt small) in
      let written = write_from-all disk s.chunks total 0 [] holds present writes (omega arith) in
      let whole = join_slices-content job.chunker content v.offers.fits in
      (s, received, ground (arith, counted, written, whole, v.offers.counted))
