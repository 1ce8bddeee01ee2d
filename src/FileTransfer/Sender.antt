-- ===== src/FileTransfer/Sender.antt =====
-- internal/filetransfer/sender.go: `sendOneChunk` and the window loop of `sendChunks`. The
-- environment is an argument: whether the n-th write on the stream succeeds, and for each round
-- of the loop whether the context was done and what `ReadMsg` returned. `acked` and `retries`
-- are Go maps; the counters of type uint32 wrap.
pub mod Steps
pub mod Runs
pub mod Window
pub mod Retries
pub mod Completion
use ensemble.Common.{
  ℕ, zero, suc, ◌+◌, ◌-◌, ◌%◌, Bool, true, false, ◌&&◌, not, Option, none, some, List, [], ◌∷◌,
  ◌++◌, length, ltb, leb, Result, ok, err, ◌>>=◌, ◌>>◌, guard, if◌then◌else◌,
}
use ensemble.Common.Maps.{lookup, insert, nat_eq}
use ensemble.Crypto.{Bytes, Sha256}
use ensemble.FileTransfer.Chunker.{Chunker, FileState, ChunkError, Chunk, read_chunk, u32}
use ensemble.FileTransfer.Merkle.{MerkleTree, proof_of}
use ensemble.FileTransfer.Receiver.{FileChunk}

abbrev pub window_size : ℕ
window_size = 8

abbrev pub max_retries : ℕ
max_retries = 3

pub data SendError : Type 0 where
  reading_chunk : ChunkError → SendError
  generating_proof write_failed context_done sending_complete reading_ack : SendError
  cancelled_by_peer unexpected_message unmarshaling_ack too_many_retries : SendError

abbrev pub from_chunker {ℓ} : {A : Type ℓ} → Result ChunkError A → Result SendError A
from_chunker (ok a) = ok a
from_chunker (err e) = err (reading_chunk e)

abbrev pub or_fail {ℓ} : {A : Type ℓ} → Option A → SendError → Result SendError A
or_fail none e = err e
or_fail (some a) e = ok a

-- The fixed parts of a transfer.
pub record Job : Type 0 where
  pub hash : Sha256
  pub id : Bytes
  pub chunker : Chunker
  pub file : FileState
  pub tree : MerkleTree
  pub write_ok : ℕ → Bool

-- The message that `sendOneChunk` writes.
unfoldable pub chunk_message : Job → ℕ → Result SendError FileChunk
chunk_message job index = do
  chunk ← from_chunker (read_chunk job.hash job.chunker job.file index)
  proof ← or_fail (proof_of job.tree index) generating_proof
  ok (record {
    transfer_id = job.id;
    index = index;
    bytes = chunk.bytes;
    hash = chunk.hash;
    proof = proof;
  })

-- The variables of `sendChunks`. `wire` holds the chunks written so far, `done` counts
-- `xfer.acked`, and `progress` the calls of the callback.
pub record Sending : Type 0 where
  pub next_to_send : ℕ  -- uint32
  pub in_flight : ℕ  -- uint32
  pub acked : List (ℕ × Bool)
  pub retries : List (ℕ × ℕ)
  pub wire : List FileChunk
  pub done : ℕ  -- uint32
  pub progress : List ℕ

abbrev pub start_sending : Sending
start_sending = record {
  next_to_send = 0;
  in_flight = 0;
  acked = [];
  retries = [];
  wire = [];
  done = 0;
  progress = [];
}

-- A chunk that cannot be written ends the transfer.
unfoldable pub send_one_chunk : Job → ℕ → Sending → Result SendError Sending
send_one_chunk job index s = do
  fc ← chunk_message job index
  guard (job.write_ok (length s.wire)) write_failed
  ok (record s { wire = s.wire ++ fc ∷ [] })

-- `acked[i]`: a missing key reads as false.
unfoldable pub is_acked : Sending → ℕ → Bool
is_acked s i = elim (lookup i s.acked) [ none ↦ false | some b ↦ b ]

unfoldable pub retries_of : Sending → ℕ → ℕ
retries_of s i = elim (lookup i s.retries) [ none ↦ 0 | some n ↦ n ]

-- One round of the inner loop.
unfoldable pub advance : Job → Sending → Result SendError Sending
unfolding send_one_chunk is_acked
advance job s =
    if is_acked s s.next_to_send
    then ok (record s { next_to_send = u32 (s.next_to_send + 1) })
    else do
      s' ← send_one_chunk job s.next_to_send s
      ok (record s' {
        in_flight = u32 (s'.in_flight + 1);
        next_to_send = u32 (s'.next_to_send + 1);
      })

unfoldable pub may_send : Job → Sending → Bool
may_send job s = ltb s.in_flight window_size && ltb s.next_to_send job.chunker.total

-- `for inFlight < WindowSize && nextToSend < total`. Each round moves `nextToSend` on, so the
-- total number of chunks is fuel enough.
unfoldable pub fill_window : ℕ → Job → Sending → Result SendError Sending
unfolding may_send
fill_window zero job s = ok s
fill_window (suc fuel) job s =
    if may_send job s then (advance job s >>= fill_window fuel job) else ok s

-- What `ReadMsg` and `Unmarshal` give for an ACK; `silence` is a `ReadMsg` that has not returned.
pub data Reply : Type 0 where
  silence read_error cancel other bad_ack : Reply
  chunk_ack : ℕ → Bool → Reply

-- The end of a round: `none` goes on with the loop.
unfoldable pub take_ack : Job → ℕ → Bool → Sending → Result SendError Sending
unfolding send_one_chunk retries_of
take_ack job index true s =
    let acked = insert index true s.acked in
    ok (record s {
      in_flight = u32 (s.in_flight + 4294967295);
      acked = acked;
      done = u32 (s.done + 1);
      progress = s.progress ++ u32 (length acked) ∷ [];
    })
take_ack job index false s =
    let tries = retries_of s index + 1 in
    let s' = record s {
      in_flight = u32 (s.in_flight + 4294967295);
      retries = insert index tries s.retries;
    } in
    do
      guard (leb tries max_retries) too_many_retries
      sent ← send_one_chunk job index s'
      ok (record sent { in_flight = u32 (sent.in_flight + 1) })

-- What happens in one round of the outer loop: the context is done or not, a FILE_COMPLETE could
-- be written or not, and a reply comes.
pub record Round : Type 0 where
  pub context_done : Bool
  pub complete_ok : Bool
  pub reply : Reply

-- `waiting` is the loop after as many rounds as were given, `blocked` the loop in `ReadMsg`.
pub data Sent : Type 0 where
  waiting blocked completed : Sending → Sent
  failed : SendError → Sent

abbrev pub or_stop : Result SendError Sending → (Sending → Sent) → Sent
or_stop (ok s) k = k s
or_stop (err e) k = failed e

-- Reading one ACK, and what follows it.
unfoldable pub take_reply : Job → Reply → Sending → (Sending → Sent) → Sent
unfolding take_ack
take_reply job silence s k = blocked s
take_reply job read_error s k = failed reading_ack
take_reply job cancel s k = failed cancelled_by_peer
take_reply job other s k = failed unexpected_message
take_reply job bad_ack s k = failed unmarshaling_ack
take_reply job (chunk_ack index valid) s k = or_stop (take_ack job index valid s) k

-- `if len(acked) >= int(total)`, with what follows it in either case.
unfoldable pub finish_or : Job → Round → Sending → (Sending → Sent) → Sent
unfolding take_reply
finish_or job r s k =
    if leb job.chunker.total (length s.acked)
    then (if r.complete_ok then completed s else failed sending_complete)
    else take_reply job r.reply s k

unfoldable pub send_chunks : Job → List Round → Sending → Sent
unfolding fill_window finish_or
send_chunks job [] s = waiting s
send_chunks job (r ∷ rounds) s = elim r.context_done [
  | true ↦ failed context_done
  | false ↦
      or_stop (fill_window job.chunker.total job s)
        (λ s'. finish_or job r s' (λ s''. send_chunks job rounds s''))
]
