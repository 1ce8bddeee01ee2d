-- ===== src/FileTransfer/Sender/Runs.antt =====
-- The rule for an invariant of `sendChunks`: it is kept by each round of the inner loop and by
-- each ACK, so it holds at the end of every run.
use ensemble.Common.{
  ℕ, zero, suc, ◌≡◌, refl, ap, Bool, true, Option, none, some, List, [], ◌∷◌, ◌++◌, append_assoc,
  append-nil, Bool-cases, ok, length, inl, inr, arith, leb,
}
use ensemble.FileTransfer.Sender.{
  Job, Sending, advance, may_send, fill_window, Reply, silence, read_error, cancel, other, bad_ack,
  chunk_ack, take_ack, Round, Sent, waiting, blocked, completed, failed, take_reply, send_chunks,
}
use ensemble.Common.{Result-cases}

-- The state at the end of a run that has not failed.
abbrev pub state_of : Sent → Option Sending
state_of (waiting s) = some s
state_of (blocked s) = some s
state_of (completed s) = some s
state_of (failed e) = none

-- The ACKs among the replies, in order.
abbrev pub ack_of : Reply → List (ℕ × Bool)
ack_of (chunk_ack i valid) = (i, valid) ∷ []
ack_of _ = []

unfoldable pub ack_log : List Round → List (ℕ × Bool)
ack_log [] = []
ack_log (r ∷ rounds) = ack_of r.reply ++ ack_log rounds

module _ (job : Job) (P : List (ℕ × Bool) → Sending → Type 0)
    (advances : (log : List (ℕ × Bool)) (s s' : Sending)
      → P log s
      → may_send job s ≡ true
      → advance job s ≡ ok s'
      → P log s')
    (acknowledges : (log : List (ℕ × Bool)) (i : ℕ) (valid : Bool) (s s' : Sending)
      → P log s
      → take_ack job i valid s ≡ ok s'
      → P (log ++ (i, valid) ∷ []) s') where
  fill_window-keeps :
      (fuel : ℕ) (log : List (ℕ × Bool)) (s s' : Sending)
      → P log s
      → fill_window fuel job s ≡ ok s'
      → P log s'
  unfolding fill_window
  fill_window-keeps zero log s s' v e = let same : s ≡ s' = cc in rw same at v
  fill_window-keeps (suc fuel) log s s' v e = elim (Bool-cases (may_send job s)) [
    | inr stop ↦ let same : s ≡ s' = ground arith in rw same at v
    | inl may ↦ elim (Result-cases (advance job s)) [
      | inr (bad, r) ↦ absurd (ground arith)
      | inl (t, r) ↦ fill_window-keeps fuel log t s' (advances log s t v may r) (ground arith)
    ]
  ]

  -- What a run keeps, with the ACKs that it has taken: the first ones of the list.
  abbrev Kept : List (ℕ × Bool) → List (ℕ × Bool) → Sending → Type 0
  Kept log all s =
      (seen : List (ℕ × Bool)) × (rest : List (ℕ × Bool)) × (all ≡ seen ++ rest) × P (log ++ seen) s

  Kept-now :
      (log all : List (ℕ × Bool)) (s s' : Sending) → P log s → some s ≡ some s' → Kept log all s'
  Kept-now log all s s' v e =
      let same : s ≡ s' = cc in ([], all, refl, rw (append-nil log) (rw same at v))

  pub send_chunks-keeps :
      (rounds : List Round) (log : List (ℕ × Bool)) (s s' : Sending)
      → P log s
      → state_of (send_chunks job rounds s) ≡ some s'
      → Kept log (ack_log rounds) s'
  unfolding send_chunks ack_log
  send_chunks-keeps [] log s s' v e = Kept-now log [] s s' v e
  send_chunks-keeps (r ∷ rounds) log s s' v e = elim (Bool-cases r.context_done) [
    | inl done ↦ absurd (ground arith)
    | inr going ↦ elim (Result-cases (fill_window job.chunker.total job s)) [
      | inr (bad, f) ↦ absurd (ground arith)
      | inl (t, f) ↦
          let w = fill_window-keeps job.chunker.total log s t v f in
          elim (Bool-cases (leb job.chunker.total (length t.acked))) [
            | inl all ↦ Kept-now log (ack_log (r ∷ rounds)) t s' w (ground arith)
            | inr more ↦
                replies r.reply t (λ l u. send_chunks-keeps rounds l u s') w refl
                  (rw (going, f, more, send_chunks) at e)
          ]
    ]
  ]
    where
      replies :
          (reply : Reply) (t : Sending)
          → ((l : List (ℕ × Bool)) (u : Sending)
              → P l u
              → state_of (send_chunks job rounds u) ≡ some s'
              → Kept l (ack_log rounds) s')
          → P log t
          → r.reply ≡ reply
          → state_of (take_reply job r.reply t (λ u. send_chunks job rounds u)) ≡ some s'
          → Kept log (ack_of r.reply ++ ack_log rounds) s'
      replies silence t rec w is e = Kept-now log _ t s' w (rw is at e)
      replies read_error t rec w is e = absurd (ground arith)
      replies cancel t rec w is e = absurd (ground arith)
      replies other t rec w is e = absurd (ground arith)
      replies bad_ack t rec w is e = absurd (ground arith)
      replies (chunk_ack i valid) t rec w is e = elim (Result-cases (take_ack job i valid t)) [
        | inr (bad, a) ↦ absurd (ground arith)
        | inl (u, a) ↦
            let (seen, rest, split, kept) =
              rec (log ++ (i, valid) ∷ []) u (acknowledges log i valid t u w a)
                (rw (is, take_reply, a) at e) in
            (
              (i, valid) ∷ seen,
              rest,
              rw is (ap (◌∷◌ (i, valid)) split),
              rw (append_assoc log ((i, valid) ∷ []) seen) at kept,
            )
      ]
