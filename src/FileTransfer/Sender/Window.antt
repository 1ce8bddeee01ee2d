-- ===== src/FileTransfer/Sender/Window.antt =====
-- Flow control: never more than `window_size` chunks ahead of the ACKs.
use ensemble.Common.{
  ℕ, suc, ◌+◌, ◌-◌, ◌≤◌, ◌<◌, ◌≡◌, ◌∙◌, ap, Bool, true, false, some, List, [], ◌∷◌, ◌++◌, length,
  length-append, ok, inl, inr, arith,
}
use ensemble.FileTransfer.Chunker.{u32}
use ensemble.FileTransfer.Sender.Runs.{state_of, ack_log, send_chunks-keeps}
use ensemble.FileTransfer.Sender.Steps.{advance_lem, take_ack_rejected}
use ensemble.FileTransfer.Sender.{
  window_size, Job, Sending, start_sending, advance, may_send, take_ack, Round, send_chunks,
}

-- `n` ACKs came in: the counter is the difference of chunks and ACKs, as a uint32.
record InWindow (n : ℕ) (s : Sending) : Type 0 where
  counter : s.in_flight ≡ u32 (length s.wire + 4294967296 - n)
  bounded : length s.wire ≤ n + window_size
  few : n < 4294967288

advance-InWindow :
    (job : Job) (n : ℕ) (s s' : Sending)
    → InWindow n s
    → may_send job s ≡ true
    → advance job s ≡ ok s'
    → InWindow n s'
unfolding may_send
advance-InWindow job n s s' v may e = elim (advance_lem job s s' e) [
  | inl skip ↦ ground arith
  | inr (fc, made, after) ↦ ground (arith, length-append s.wire (fc ∷ []))
]

take_ack-InWindow :
    (job : Job) (n i : ℕ) (valid : Bool) (s s' : Sending)
    → InWindow n s
    → suc n < 4294967288
    → take_ack job i valid s ≡ ok s'
    → InWindow (suc n) s'
unfolding take_ack
take_ack-InWindow job n i true s s' v few e = ground arith
take_ack-InWindow job n i false s s' v few e =
    let (fc, made, within, after) = take_ack_rejected job i s s' e in
    ground (arith, length-append s.wire (fc ∷ []))

-- In every run of fewer than `2 ^ 32 - 8` rounds that has not failed, whatever the peer replies,
-- the chunks written are at most `window_size` more than the ACKs among the replies.
pub send_chunks-window :
    (job : Job) (rounds : List Round) (s : Sending)
    → length (ack_log rounds) < 4294967288
    → state_of (send_chunks job rounds start_sending) ≡ some s
    → length s.wire ≤ length (ack_log rounds) + window_size
send_chunks-window job rounds s few e =
    let (seen, rest, split, kept) =
      send_chunks-keeps job Bounded advances acknowledges rounds [] start_sending s
        (λ p. omega arith) e in
    let counts = ap (λ (l : List (ℕ × Bool)). length l) split ∙ length-append seen rest in
    omega (arith, kept (omega arith))
  where
    Bounded : List (ℕ × Bool) → Sending → Type 0
    Bounded log s = length log < 4294967288 → InWindow (length log) s

    advances :
        (log : List (ℕ × Bool)) (s s' : Sending)
        → Bounded log s
        → may_send job s ≡ true
        → advance job s ≡ ok s'
        → Bounded log s'
    advances log s s' v may e p = advance-InWindow job (length log) s s' (v p) may e

    acknowledges :
        (log : List (ℕ × Bool)) (i : ℕ) (valid : Bool) (s s' : Sending)
        → Bounded log s
        → take_ack job i valid s ≡ ok s'
        → Bounded (log ++ (i, valid) ∷ []) s'
    acknowledges log i valid s s' v e p =
        let one = length-append log ((i, valid) ∷ []) in
        let more : length (log ++ (i, valid) ∷ []) ≡ suc (length log) = omega arith in
        rw more (take_ack-InWindow job (length log) i valid s s' (v (omega arith)) (omega arith) e)
