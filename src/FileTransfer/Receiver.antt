-- ===== src/FileTransfer/Receiver.antt =====
-- internal/filetransfer/receiver.go: the loop that takes chunks off the stream, checks and keeps
-- them, and the file that it writes at the end. What the peer and the disk do is an argument:
-- the messages in their order, each chunk with whether its ACK could be written.
pub mod Integrity
pub mod Delivery
use ensemble.Common.{
  ℕ, zero, suc, ◌+◌, ◌%◌, Bool, true, false, ◌&&◌, not, Option, none, some, List, [], ◌∷◌, ◌++◌,
  length, ◌==◌, if◌then◌else◌, bytes_eq,
}
use ensemble.Common.Maps.{lookup, insert, nat_eq}
use ensemble.Crypto.{Bytes, Sha256}
use ensemble.FileTransfer.Chunker.{u32}
use ensemble.FileTransfer.Merkle.{verify_proof}

-- pb.FileChunk
pub record FileChunk : Type 0 where
  pub transfer_id : Bytes
  pub index : ℕ  -- uint32
  pub bytes : Bytes
  pub hash : Bytes
  pub proof : List Bytes

-- pb.FileChunkAck
pub record FileChunkAck : Type 0 where
  pub transfer_id : Bytes
  pub index : ℕ
  pub valid : Bool

-- What one round of the loop reads.
pub data Incoming : Type 0 where
  read_error bad_chunk complete cancel other : Incoming
  file_chunk : FileChunk → Bool → Incoming

pub data ReceiveError : Type 0 where
  reading_chunk unmarshaling_chunk sending_ack cancelled unexpected_message : ReceiveError
  incomplete creating_directory creating_file missing_chunk writing_chunk : ReceiveError

-- The fields of `Transfer` that the receiver uses.
pub record Transfer : Type 0 where
  pub id : Bytes
  pub total : ℕ  -- uint32
  pub root_hash : Bytes

pub record Receiving : Type 0 where
  pub chunks : List (ℕ × Bytes)
  pub acked : ℕ  -- uint32
  pub replies : List FileChunkAck
  pub progress : List ℕ

abbrev pub start_receiving : Receiving
start_receiving = record { chunks = []; acked = 0; replies = []; progress = [] }

-- `waiting` is the loop blocked in `ReadMsg`.
pub data Received : Type 0 where
  waiting reassembling : Receiving → Received
  failed : ReceiveError → Receiving → Received

module _ (h : Sha256) where
  unfoldable pub chunk_valid : Transfer → FileChunk → Bool
  chunk_valid xfer fc =
      let hash_valid = bytes_eq (h.digest fc.bytes) fc.hash in
      let proof_valid = hash_valid && verify_proof h fc.hash fc.index fc.proof xfer.root_hash in
      hash_valid && proof_valid

  unfoldable pub reply_to : Transfer → FileChunk → FileChunkAck
  reply_to xfer fc = record { transfer_id = xfer.id; index = fc.index; valid = chunk_valid xfer fc }

  -- What is kept of a chunk once its ACK is written.
  unfoldable pub keep_chunk : Transfer → FileChunk → Receiving → Receiving
  keep_chunk xfer fc s =
      let chunks = insert fc.index fc.bytes s.chunks in
      if chunk_valid xfer fc
      then record s {
        chunks = chunks;
        acked = u32 (s.acked + 1);
        progress = s.progress ++ u32 (length chunks) ∷ [];
      }
      else s

  unfoldable pub receive_chunks : Transfer → List Incoming → Receiving → Received
  unfolding reply_to keep_chunk
  receive_chunks xfer [] s = waiting s
  receive_chunks xfer (read_error ∷ rest) s = failed reading_chunk s
  receive_chunks xfer (bad_chunk ∷ rest) s = failed unmarshaling_chunk s
  receive_chunks xfer (file_chunk fc false ∷ rest) s = failed sending_ack s
  receive_chunks xfer (file_chunk fc true ∷ rest) s =
      receive_chunks xfer rest
        (keep_chunk xfer fc (record s { replies = s.replies ++ reply_to xfer fc ∷ [] }))
  receive_chunks xfer (complete ∷ rest) s = reassembling s
  receive_chunks xfer (cancel ∷ rest) s = failed cancelled s
  receive_chunks xfer (other ∷ rest) s = failed unexpected_message s

-- What the disk answers; `write_ok i` is for the write of chunk `i`.
pub record Disk : Type 0 where
  pub mkdir_ok : Bool
  pub create_ok : Bool
  pub write_ok : ℕ → Bool

-- The content of the output file, if it was created, and the error.
pub record Saved : Type 0 where
  pub file : Option Bytes
  pub error : Option ReceiveError

-- The write loop, with `rounds` rounds left, at chunk `i`; `out` is written.
unfoldable pub write_from : Disk → List (ℕ × Bytes) → ℕ → ℕ → Bytes → Saved
write_from disk chunks zero i out = record { file = some out; error = none }
write_from disk chunks (suc rounds) i out = elim (lookup i chunks) [
  | none ↦ record { file = some out; error = some missing_chunk }
  | some bytes ↦ elim (disk.write_ok i) [
    | true ↦ write_from disk chunks rounds (suc i) (out ++ bytes)
    | false ↦ record { file = some out; error = some writing_chunk }
  ]
]

unfoldable pub reassemble : Transfer → List (ℕ × Bytes) → Disk → Saved
unfolding write_from
reassemble xfer chunks disk =
    if not (u32 (length chunks) == xfer.total)
    then record { file = none; error = some incomplete }
    else if not disk.mkdir_ok
    then record { file = none; error = some creating_directory }
    else if not disk.create_ok
    then record { file = none; error = some creating_file }
    else write_from disk chunks xfer.total 0 []
