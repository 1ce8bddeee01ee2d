-- ===== src/FileTransfer/Sender/Steps.antt =====
-- What a successful write of a chunk does to the sender's state.
use ensemble.Common.{
  ℕ, ◌+◌, ◌≡◌, ◌⊎◌, false, [], ◌∷◌, ◌++◌, Option-cases, Bool-cases, ok, inl, inr, arith, ◌≤◌, leb,
  leb→le, Result-cases,
}
use ensemble.FileTransfer.Chunker.{read_chunk, u32}
use ensemble.Common.Maps.{insert, nat_eq}
use ensemble.FileTransfer.Merkle.{proof_of}
use ensemble.FileTransfer.Receiver.{FileChunk}
use ensemble.FileTransfer.Sender.{
  Job, Sending, send_one_chunk, chunk_message, is_acked, retries_of, advance, take_ack, max_retries,
}

-- The message carries the index that was asked for.
pub chunk_message-index :
    (job : Job) (i : ℕ) {fc : FileChunk} → chunk_message job i ≡ ok fc → fc.index ≡ i
unfolding chunk_message
chunk_message-index job i e = elim (Result-cases (read_chunk job.hash job.chunker job.file i)) [
  | inr (bad, r) ↦ ground arith
  | inl (chunk, r) ↦ elim (Option-cases (proof_of job.tree i)) [
    | inl p ↦ ground arith
    | inr (proof, p) ↦ ground arith
  ]
]

-- A successful write appends the message of the chunk and changes nothing else.
pub send_one_chunk_lem :
    (job : Job) (i : ℕ) (s s' : Sending)
    → send_one_chunk job i s ≡ ok s'
    → (fc : FileChunk) × (chunk_message job i ≡ ok fc)
      × (s' ≡ record s { wire = s.wire ++ fc ∷ [] })
unfolding send_one_chunk
send_one_chunk_lem job i s s' e = elim (Result-cases (chunk_message job i)) [
  | inr (bad, r) ↦ absurd (ground arith)
  | inl (fc, r) ↦ (fc, r, ground arith)
]

-- A round of the inner loop skips an acknowledged chunk, or writes the next one.
pub advance_lem :
    (job : Job) (s s' : Sending)
    → advance job s ≡ ok s'
    → (s' ≡ record s { next_to_send = u32 (s.next_to_send + 1) })
      ⊎ ((fc : FileChunk) × (chunk_message job s.next_to_send ≡ ok fc)
          × (s' ≡ record s {
            wire = s.wire ++ fc ∷ [];
            in_flight = u32 (s.in_flight + 1);
            next_to_send = u32 (s.next_to_send + 1);
          }))
unfolding advance
advance_lem job s s' e = elim (Bool-cases (is_acked s s.next_to_send)) [
  | inl skip ↦ inl (ground arith)
  | inr fresh ↦ elim (Result-cases (send_one_chunk job s.next_to_send s)) [
    | inr (bad, r) ↦ absurd (ground arith)
    | inl (sent, r) ↦
        let (fc, made, after) = send_one_chunk_lem job s.next_to_send s sent r in
        inr (fc, made, ground arith)
  ]
]

-- A rejected chunk is written again, at most `max_retries` times.
pub take_ack_rejected :
    (job : Job) (i : ℕ) (s s' : Sending)
    → take_ack job i false s ≡ ok s'
    → (fc : FileChunk) × (chunk_message job i ≡ ok fc)
      × (retries_of s i + 1 ≤ max_retries)
      × (s' ≡ record s {
        wire = s.wire ++ fc ∷ [];
        in_flight = u32 (u32 (s.in_flight + 4294967295) + 1);
        retries = insert i (retries_of s i + 1) s.retries;
      })
unfolding take_ack
take_ack_rejected job i s s' e =
    let kept = leb (retries_of s i + 1) max_retries in
    let s₁ : Sending = record s {
      in_flight = u32 (s.in_flight + 4294967295);
      retries = insert i (retries_of s i + 1) s.retries;
    } in
    elim (Bool-cases kept) [
      | inr over ↦ absurd (ground arith)
      | inl within ↦ elim (Result-cases (send_one_chunk job i s₁)) [
        | inr (bad, r) ↦ absurd (ground arith)
        | inl (sent, r) ↦
            let (fc, made, after) = send_one_chunk_lem job i s₁ sent r in
            (fc, made, leb→le _ _ within, ground arith)
      ]
    ]
