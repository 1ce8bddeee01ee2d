-- ===== src/FileTransfer/Sender/Retries.antt =====
-- The retransmit limit: how often one chunk can be written.
use ensemble.Common.{
  ℕ, ◌+◌, ◌≤◌, ◌<◌, ◌≡◌, Bool, true, false, some, List, [], ◌∷◌, ◌++◌, ltb, ◌==◌, ok, if◌then◌else◌,
  inl, inr, arith,
}
use ensemble.Common.Maps.{lookup, nat_eq, lookup-insert}
use ensemble.FileTransfer.Receiver.{FileChunk}
use ensemble.FileTransfer.Sender.{
  max_retries, Job, Sending, start_sending, retries_of, advance, may_send, take_ack, Round,
  send_chunks,
}
use ensemble.FileTransfer.Sender.Runs.{state_of, send_chunks-keeps}
use ensemble.FileTransfer.Sender.Steps.{chunk_message-index, advance_lem, take_ack_rejected}

-- How often chunk `i` was written.
unfoldable pub times : ℕ → List FileChunk → ℕ
times i [] = 0
times i (fc ∷ wire) = (if fc.index == i then 1 else 0) + times i wire

times-append :
    (i : ℕ) (wire : List FileChunk) (fc : FileChunk)
    → times i (wire ++ fc ∷ []) ≡ times i wire + (if fc.index == i then 1 else 0)
unfolding times
times-append i [] fc = omega arith
times-append i (x ∷ wire) fc = omega (arith, times-append i wire fc)

-- Once when its turn comes, and once for each retry that is counted.
record Counted (job : Job) (i : ℕ) (s : Sending) : Type 0 where
  written : times i s.wire ≤ (if ltb i s.next_to_send then 1 else 0) + retries_of s i
  limited : retries_of s i ≤ max_retries
  ahead : s.next_to_send ≤ job.chunker.total

advance-Counted :
    (job : Job) (i : ℕ) (s s' : Sending)
    → job.chunker.total < 4294967296
    → Counted job i s
    → may_send job s ≡ true
    → advance job s ≡ ok s'
    → Counted job i s'
unfolding may_send retries_of
advance-Counted job i s s' small v may e =
    let below : s.next_to_send < job.chunker.total = ground arith in
    elim (advance_lem job s s' e) [
      | inl skip ↦ ground arith
      | inr (fc, made, after) ↦
          ground (arith, times-append i s.wire fc, chunk_message-index job s.next_to_send made)
    ]

take_ack-Counted :
    (job : Job) (i : ℕ) (j : ℕ) (valid : Bool) (s s' : Sending)
    → Counted job i s
    → take_ack job j valid s ≡ ok s'
    → Counted job i s'
unfolding take_ack retries_of
take_ack-Counted job i j true s s' v e = ground arith
take_ack-Counted job i j false s s' v e =
    let (fc, made, within, after) = take_ack_rejected job j s s' e in
    ground (
      arith,
      times-append i s.wire fc,
      chunk_message-index job j made,
      lookup-insert j i (retries_of s j + 1) s.retries,
    )

-- In every run that has not failed, whatever the peer replies, no chunk is written more than
-- once and `max_retries` times again, and nothing beyond the file is written in its turn.
pub send_chunks-retries :
    (job : Job) (rounds : List Round) (s : Sending) (i : ℕ)
    → job.chunker.total < 4294967296
    → state_of (send_chunks job rounds start_sending) ≡ some s
    → (times i s.wire ≤ 1 + max_retries) × (s.next_to_send ≤ job.chunker.total)
unfolding times lookup retries_of
send_chunks-retries job rounds s i small e =
    let (seen, rest, split, kept) =
      send_chunks-keeps job (λ log t. Counted job i t)
        (λ log t t' v may a. advance-Counted job i t t' small v may a)
        (λ log j valid t t' v a. take_ack-Counted job i j valid t t' v a) rounds [] start_sending s
        started e in
    (ground (arith, kept), kept.ahead)
  where
    started : Counted job i start_sending
    started = ground arith
