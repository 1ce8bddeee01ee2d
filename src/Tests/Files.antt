-- ===== src/Tests/Files.antt =====
-- Transfers of a file of three chunks of one byte each.
use ensemble.Common.{
  ℕ, zero, suc, ◌+◌, ◌-◌, ◌/◌, ◌≤◌, ◌<◌, ◌≡◌, ◌⊎◌, refl, ap, Bool, true, false, none, some, List,
  [], ◌∷◌, ◌++◌, length, get_or, ok, err, inl, inr, arith,
}
use ensemble.Tests.Fixtures.{toy_sha}
use ensemble.Common.Maps.{lookup, insert}
use ensemble.Crypto.{Bytes, Collision}
use ensemble.FileTransfer.Merkle.{leaf_start_of}
use ensemble.FileTransfer.Merkle.Soundness.{IsPair, HashedAbove}
use ensemble.FileTransfer.Receiver.Integrity.{HashedOf, HashedIn}
use ensemble.Common.{◌+◌}
use ensemble.FileTransfer.Merkle.{
  MerkleTree, build_merkle_tree, proof_of, verify_proof, root, siblings,
}
use ensemble.FileTransfer.Merkle.Paths.{build-proof_of-verify_proof}
use ensemble.FileTransfer.Merkle.Soundness.{verify_proof_sound, verify_proof_inner_node}
use ensemble.FileTransfer.Chunker.{
  Chunker, regular, new_chunker_with_size, read_chunk, all_chunk_hashes,
}
use ensemble.FileTransfer.Chunker.Contents.{
  ReadsSlice, join_slices, new_chunker_partition, slice_hashes, new_chunker-Fits,
}
use ensemble.FileTransfer.Receiver.{
  FileChunk, Incoming, Transfer, Receiving, start_receiving, reassembling, chunk_valid,
  receive_chunks, Disk, reassemble,
}
use ensemble.FileTransfer.Receiver.Integrity.{receive_chunks-reassemble-integrity}
use ensemble.FileTransfer.Receiver.Delivery.{AllSent, HasChunk, deliver, Ready, deliver-reassemble}
use ensemble.FileTransfer.Sender.{
  Job, chunk_message, Sending, start_sending, advance, send_chunks, chunk_ack, Round, completed,
  window_size, max_retries,
}
use ensemble.FileTransfer.Sender.Runs.{state_of, ack_log}
use ensemble.FileTransfer.Sender.Window.{send_chunks-window}
use ensemble.FileTransfer.Sender.Retries.{times, send_chunks-retries}
use ensemble.FileTransfer.Sender.Completion.{Confirmed, send_chunks-Confirmed}

abbrev three_bytes : Bytes
three_bytes = 1 ∷ 2 ∷ 3 ∷ []

abbrev three_chunks : Chunker
three_chunks = record { file_size = 3; chunk_size = 1; total = 3 }

made : new_chunker_with_size (regular three_bytes) 1 ≡ ok three_chunks
unfolding new_chunker_with_size
made = refl

abbrev three_hashes : List Bytes
three_hashes = toy_sha.digest (1 ∷ []) ∷ toy_sha.digest (2 ∷ []) ∷ toy_sha.digest (3 ∷ []) ∷ []

hashed : all_chunk_hashes toy_sha three_chunks (regular three_bytes) ≡ ok three_hashes
unfolding all_chunk_hashes read_chunk
hashed = refl

abbrev no_tree : MerkleTree
no_tree = record { leaves = []; nodes = []; leaf_start = 0 }

abbrev three_leaves : MerkleTree
unfolding build_merkle_tree
three_leaves = elim (build_merkle_tree toy_sha three_hashes) [ none ↦ no_tree | some t ↦ t ]

built : build_merkle_tree toy_sha three_hashes ≡ some three_leaves
unfolding build_merkle_tree
built = refl

sizes : (j : ℕ) → j < length three_hashes → length (get_or three_hashes j []) ≡ 32
sizes zero p = refl
sizes (suc zero) p = refl
sizes (suc (suc zero)) p = refl
sizes (suc (suc (suc j))) p = absurd (omega arith)

small : (length three_bytes + 1 - 1) / 1 < 4294967296
small = omega arith

new_chunker_partition_example :
    ReadsSlice toy_sha three_bytes three_chunks 2 × (join_slices three_bytes 1 3 0 ≡ three_bytes)
new_chunker_partition_example =
    new_chunker_partition toy_sha three_bytes 1 three_chunks 2 made small

abbrev third_proof : List Bytes
unfolding proof_of
third_proof = elim (proof_of three_leaves 2) [ none ↦ [] | some proof ↦ proof ]

verify_proof_sound_example :
    (toy_sha.digest (3 ∷ []) ≡ get_or three_hashes 2 [])
    ⊎ Collision toy_sha
        (HashedAbove toy_sha
          (leaf_start_of third_proof 1 + 2)
          (toy_sha.digest (3 ∷ []))
          third_proof)
        (IsPair three_leaves.nodes three_leaves.leaf_start)
unfolding verify_proof root three_leaves third_proof
verify_proof_sound_example =
    verify_proof_sound toy_sha three_hashes three_leaves (toy_sha.digest (3 ∷ [])) 2 third_proof
      built sizes (omega arith) refl refl refl

build-proof_of-verify_proof_example :
    (t : MerkleTree) × (proof : List Bytes) × (build_merkle_tree toy_sha three_hashes ≡ some t)
    × (proof_of t 1 ≡ some proof)
    × (verify_proof toy_sha (get_or three_hashes 1 []) 1 proof (root t) ≡ true)
build-proof_of-verify_proof_example =
    build-proof_of-verify_proof toy_sha (toy_sha.digest (1 ∷ []))
      (toy_sha.digest (2 ∷ []) ∷ toy_sha.digest (3 ∷ []) ∷ []) 1 (omega arith) (omega arith)

verify_proof_inner_node_example :
    verify_proof toy_sha
      (toy_sha.digest (get_or three_leaves.nodes 4 [] ++ get_or three_leaves.nodes 5 []))
      0
      (siblings 2 2 three_leaves.nodes)
      (root three_leaves)
    ≡ true
unfolding three_leaves
verify_proof_inner_node_example =
    verify_proof_inner_node toy_sha three_hashes three_leaves 1 0 built (omega arith) (omega arith)

abbrev offer : Transfer
unfolding root
offer = record { id = []; total = 3; root_hash = root three_leaves }

abbrev job : Job
job = record {
  hash = toy_sha;
  id = [];
  chunker = three_chunks;
  file = regular three_bytes;
  tree = three_leaves;
  write_ok = λ n. true;
}

abbrev no_chunk : FileChunk
no_chunk = record { transfer_id = []; index = 0; bytes = []; hash = []; proof = [] }

-- The chunk that the sender makes.
abbrev sent_chunk : ℕ → FileChunk
unfolding chunk_message read_chunk proof_of
sent_chunk i = elim (chunk_message job i) [ err _ ↦ no_chunk | ok fc ↦ fc ]

-- Out of order, and one of them twice.
abbrev stream : List FileChunk
stream = sent_chunk 2 ∷ sent_chunk 0 ∷ sent_chunk 1 ∷ sent_chunk 0 ∷ []

abbrev good_disk : Disk
good_disk = record { mkdir_ok = true; create_ok = true; write_ok = λ i. true }

abbrev state_after : List Incoming → Receiving
unfolding receive_chunks verify_proof
state_after msgs = elim (receive_chunks toy_sha offer msgs start_receiving) [
  | reassembling s ↦ s
  | _ ↦ start_receiving
]

receive_chunks-reassemble-integrity_example :
    ((reassemble offer (state_after (deliver stream)).chunks good_disk).file ≡ some three_bytes)
    ⊎ Collision toy_sha
        (HashedOf toy_sha (deliver stream))
        (HashedIn three_bytes three_chunks three_leaves)
unfolding receive_chunks chunk_valid verify_proof reassemble root sent_chunk three_leaves
    state_after offer insert lookup
receive_chunks-reassemble-integrity_example =
    receive_chunks-reassemble-integrity toy_sha three_bytes 1 three_chunks three_hashes three_leaves
      offer (deliver stream) (state_after (deliver stream)) good_disk made small hashed built refl
      refl (refl, (refl, (refl, (refl, tt)))) refl refl

-- What `sent_chunk` says of the three indices.
sent_chunk-made : (i : ℕ) → i < 3 → chunk_message job i ≡ ok (sent_chunk i)
unfolding chunk_message sent_chunk read_chunk proof_of three_leaves
sent_chunk-made zero p = refl
sent_chunk-made (suc zero) p = refl
sent_chunk-made (suc (suc zero)) p = refl
sent_chunk-made (suc (suc (suc i))) p = absurd (omega arith)

stream-AllSent : AllSent job stream
stream-AllSent = (
  (2, omega arith, sent_chunk-made 2 (omega arith)),
  (
    (0, omega arith, sent_chunk-made 0 (omega arith)),
    (
      (1, omega arith, sent_chunk-made 1 (omega arith)),
      ((0, omega arith, sent_chunk-made 0 (omega arith)), tt),
    ),
  ),
)

stream-HasChunk : (i : ℕ) → i < 3 → HasChunk i stream
unfolding sent_chunk chunk_message read_chunk proof_of three_leaves
stream-HasChunk zero p = inr (inl refl)
stream-HasChunk (suc zero) p = inr (inr (inl refl))
stream-HasChunk (suc (suc zero)) p = inl refl
stream-HasChunk (suc (suc (suc i))) p = absurd (omega arith)

job-Ready : Ready three_bytes job offer
unfolding offer slice_hashes
job-Ready = record {
  offers = record {
    fits = new_chunker-Fits three_bytes 1 made small;
    built = built;
    rooted = refl;
    counted = refl;
  };
  file = refl;
}

deliver-reassemble_example :
    (s : Receiving) × (receive_chunks toy_sha offer (deliver stream) start_receiving
      ≡ reassembling s)
    × (reassemble offer s.chunks good_disk ≡ record { file = some three_bytes; error = none })
deliver-reassemble_example =
    deliver-reassemble three_bytes job offer stream good_disk job-Ready (omega arith) stream-AllSent
      stream-HasChunk refl refl (λ i. refl)

abbrev round_with : ℕ → Bool → Round
round_with i valid = record { context_done = false; complete_ok = true; reply = chunk_ack i valid }

-- A chunk that is refused once, then an ACK for each.
abbrev rounds : List Round
rounds =
    round_with 1 false
    ∷ round_with 2 true
    ∷ round_with 0 true
    ∷ round_with 1 true
    ∷ round_with 0 true
    ∷ []

abbrev sender_after : List Round → Sending
unfolding send_chunks
sender_after rs = elim (state_of (send_chunks job rs start_sending)) [
  | none ↦ start_sending
  | some s ↦ s
]

rounds-completed : send_chunks job rounds start_sending ≡ completed (sender_after rounds)
unfolding send_chunks sender_after advance lookup chunk_message read_chunk proof_of three_leaves
    insert
rounds-completed = refl

send_chunks-window_example :
    length (sender_after rounds).wire ≤ length (ack_log rounds) + window_size
unfolding ack_log
send_chunks-window_example =
    send_chunks-window job rounds (sender_after rounds) (omega arith) (ap state_of rounds-completed)

send_chunks-retries_example :
    (times 1 (sender_after rounds).wire ≤ 1 + max_retries)
    × ((sender_after rounds).next_to_send ≤ 3)
send_chunks-retries_example =
    send_chunks-retries job rounds (sender_after rounds) 1 (omega arith)
      (ap state_of rounds-completed)

acks_in_range : (j : ℕ) → Confirmed j (ack_log rounds) → j < 3
unfolding ack_log
acks_in_range j c = grind arith

send_chunks-Confirmed_example : Confirmed 2 (ack_log rounds)
send_chunks-Confirmed_example =
    send_chunks-Confirmed job rounds (sender_after rounds) 2 rounds-completed acks_in_range
      (omega arith)
