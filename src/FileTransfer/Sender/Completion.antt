-- ===== src/FileTransfer/Sender/Completion.antt =====
-- What FILE_COMPLETE means: the receiver has confirmed every chunk.
use ensemble.Common.{
  ℕ, ◌≤◌, ◌<◌, ◌≡◌, ◌⊎◌, refl, ap, Bool, true, false, List, [], ◌∷◌, ◌++◌, length, leb, leb→le,
  ◌==◌, ==_iff, ok, Bool-cases, inl, inr, arith,
}
use ensemble.Common.Counting.{pigeonhole}
use ensemble.Common.Maps.{lookup, insert, nat_eq, lookup-insert, Each, Distinct, insert-Distinct}
use ensemble.FileTransfer.Sender.{
  Job, Sending, start_sending, advance, fill_window, Reply, silence, read_error, cancel, other,
  bad_ack, chunk_ack, take_ack, Round, completed, take_reply, send_chunks,
}
use ensemble.FileTransfer.Sender.Runs.{state_of, ack_log, send_chunks-keeps}
use ensemble.FileTransfer.Sender.Steps.{advance_lem, take_ack_rejected}
use ensemble.Common.{Result-cases}

-- A valid ACK of chunk `i` is in the list.
abbrev pub Confirmed : ℕ → List (ℕ × Bool) → Type 0
Confirmed i [] = ⊥
Confirmed i ((j, valid) ∷ log) = ((j ≡ i) × (valid ≡ true)) ⊎ Confirmed i log

Confirmed-append_left :
    (i : ℕ) (log rest : List (ℕ × Bool)) → Confirmed i log → Confirmed i (log ++ rest)
Confirmed-append_left i [] rest c = absurd c
Confirmed-append_left i (a ∷ log) rest (inl here) = inl here
Confirmed-append_left i (a ∷ log) rest (inr there) = inr (Confirmed-append_left i log rest there)

Confirmed-append_last : (i : ℕ) (log : List (ℕ × Bool)) → Confirmed i (log ++ (i, true) ∷ [])
Confirmed-append_last i [] = inl (refl, refl)
Confirmed-append_last i (a ∷ log) = inr (Confirmed-append_last i log)

record Recorded (log : List (ℕ × Bool)) (s : Sending) : Type 0 where
  distinct : Distinct s.acked
  heard : Each (λ i v. Confirmed i log) s.acked

advance-acked : (job : Job) (s s' : Sending) → advance job s ≡ ok s' → s'.acked ≡ s.acked
advance-acked job s s' e = elim (advance_lem job s s' e) [
  | inl skip ↦ ap (λ (t : Sending). t.acked) skip
  | inr (fc, made, after) ↦ ap (λ (t : Sending). t.acked) after
]

advance-Recorded :
    (job : Job) (log : List (ℕ × Bool)) (s s' : Sending)
    → Recorded log s
    → advance job s ≡ ok s'
    → Recorded log s'
advance-Recorded job log s s' v e =
    let same = advance-acked job s s' e in
    record { distinct = rw same v.distinct; heard = rw same v.heard }

take_ack-Recorded :
    (job : Job) (log : List (ℕ × Bool)) (i : ℕ) (valid : Bool) (s s' : Sending)
    → Recorded log s
    → take_ack job i valid s ≡ ok s'
    → Recorded (log ++ (i, valid) ∷ []) s'
unfolding take_ack
take_ack-Recorded job log i true s s' v e =
    let same : s'.acked ≡ insert i true s.acked = ground arith in
    record { distinct = rw same (insert-Distinct i true s.acked v.distinct); heard = rw same heard }
  where
    heard : Each (λ k w. Confirmed k (log ++ (i, true) ∷ [])) (insert i true s.acked)
    heard k w found = elim (Bool-cases (i == k)) [
      | inl here ↦ rw (← (==_iff i k).0 here) (Confirmed-append_last i log)
      | inr apart ↦
          Confirmed-append_left k log ((i, true) ∷ [])
            (v.heard k w (ground (arith, lookup-insert i k true s.acked)))
    ]
take_ack-Recorded job log i false s s' v e =
    let (fc, made, within, after) = take_ack_rejected job i s s' e in
    let same : s'.acked ≡ s.acked = ap (λ (t : Sending). t.acked) after in
    record {
      distinct = rw same v.distinct;
      heard =
          rw same (λ k w found. Confirmed-append_left k log ((i, false) ∷ []) (v.heard k w found));
    }

completed-acked :
    (job : Job) (rounds : List Round) (s s' : Sending)
    → send_chunks job rounds s ≡ completed s'
    → job.chunker.total ≤ length s'.acked
unfolding send_chunks
completed-acked job [] s s' e = cc
completed-acked job (r ∷ rounds) s s' e = elim (Bool-cases r.context_done) [
  | inl done ↦ absurd (ground arith)
  | inr going ↦ elim (Result-cases (fill_window job.chunker.total job s)) [
    | inr (bad, f) ↦ absurd (ground arith)
    | inl (t, f) ↦ elim (Bool-cases (leb job.chunker.total (length t.acked))) [
      | inl all ↦ let same : t ≡ s' = ground arith in rw same at (leb→le _ _ all)
      | inr more ↦
          replies r.reply t (completed-acked job rounds) refl
            (rw (going, f, more, send_chunks) at e)
    ]
  ]
]
  where
    replies :
        (reply : Reply) (t : Sending)
        → ((u w : Sending)
            → send_chunks job rounds u ≡ completed w
            → job.chunker.total ≤ length w.acked)
        → r.reply ≡ reply
        → take_reply job r.reply t (λ u. send_chunks job rounds u) ≡ completed s'
        → job.chunker.total ≤ length s'.acked
    replies (chunk_ack i valid) t rec is e = elim (Result-cases (take_ack job i valid t)) [
      | inr (bad, a) ↦ absurd (ground arith)
      | inl (u, a) ↦ rec u s' (rw (is, take_reply, a) at e)
    ]
    replies silence t rec is e = absurd (ground arith)
    replies read_error t rec is e = absurd (ground arith)
    replies cancel t rec is e = absurd (ground arith)
    replies other t rec is e = absurd (ground arith)
    replies bad_ack t rec is e = absurd (ground arith)

-- If every valid ACK is for a chunk of the file, then the sender completes only after a valid
-- ACK for each chunk.
pub send_chunks-Confirmed :
    (job : Job) (rounds : List Round) (s : Sending) (i : ℕ)
    → send_chunks job rounds start_sending ≡ completed s
    → ((j : ℕ) → Confirmed j (ack_log rounds) → j < job.chunker.total)
    → i < job.chunker.total
    → Confirmed i (ack_log rounds)
unfolding lookup
send_chunks-Confirmed job rounds s i e honest low =
    let (seen, rest, split, kept) =
      send_chunks-keeps job Recorded (λ log t t' v may a. advance-Recorded job log t t' v a)
        (λ log j valid t t' v a. take_ack-Recorded job log j valid t t' v a) rounds [] start_sending
        s (record { distinct = tt; heard = λ k v found. cc }) (ap state_of e) in
    let heard : Each (λ k v. Confirmed k (ack_log rounds)) s.acked =
      λ k v found. rw split (Confirmed-append_left k seen rest (kept.heard k v found)) in
    let (v, found) =
      pigeonhole job.chunker.total i s.acked kept.distinct (λ k w there. honest k (heard k w there))
        (completed-acked job rounds start_sending s e) low in
    heard i v found
