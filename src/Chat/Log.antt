-- ===== src/Chat/Log.antt =====
-- The history of a conversation against a log that forgets nothing.
use ensemble.Common.{
  ℕ, min, zero, suc, ◌+◌, ◌-◌, ◌≤◌, ◌≡◌, refl, sym, ap, subst, ◌∙◌, Option, none, some, List, [],
  ◌∷◌, ◌++◌, length, length-append, length-drop, drop, drop-drop, ltb, leb, if◌then◌else◌, bytes_eq,
  bytes_eq_refl, bytes_eq_iff, Bool-cases, inl, inr, arith,
}
use ensemble.Common.Maps.{lookup, bytes_beq, lookup-insert_self, lookup-insert_ne, lookup-delete}
use ensemble.Crypto.{Bytes}
use ensemble.Chat.{
  max_messages_per_peer, Message, History, new_history, messages_with, trimmed, append,
  get_conversation, get_latest, clear,
}

-- The calls that change a history.
pub data HistoryCall : Type 0 where
  appends : Bytes → Message → HistoryCall
  clears : Bytes → HistoryCall

unfoldable pub after_history_call : History → HistoryCall → History
after_history_call h (appends peer msg) = append h peer msg
after_history_call h (clears peer) = clear h peer

unfoldable pub after_history_calls : History → List HistoryCall → History
unfolding after_history_call
after_history_calls h [] = h
after_history_calls h (c ∷ cs) = after_history_calls (after_history_call h c) cs

-- The specification: all messages with the peer since its last clear, `none` if there are none.
unfoldable pub noted : Bytes → Option (List Message) → HistoryCall → Option (List Message)
noted peer log (appends other msg) =
    if bytes_eq other peer
    then elim log [ none ↦ some (msg ∷ []) | some msgs ↦ some (msgs ++ msg ∷ []) ]
    else log
noted peer log (clears other) = if bytes_eq other peer then none else log

unfoldable pub full_log : Bytes → Option (List Message) → List HistoryCall → Option (List Message)
unfolding noted
full_log peer log [] = log
full_log peer log (c ∷ cs) = full_log peer (noted peer log c) cs

unfoldable pub last : ℕ → List Message → List Message
last n msgs = drop (length msgs - n) msgs

unfoldable pub last_of : ℕ → Option (List Message) → Option (List Message)
unfolding last
last_of n none = none
last_of n (some msgs) = some (last n msgs)

drop-append_le :
    (k : ℕ) (xs ys : List Message) → k ≤ length xs → drop k (xs ++ ys) ≡ drop k xs ++ ys
drop-append_le zero xs ys h = refl
drop-append_le (suc k) [] ys h = absurd (omega arith)
drop-append_le (suc k) (x ∷ xs) ys h = drop-append_le k xs ys (omega arith)

-- Cutting to the last `n` before an addition changes nothing after a cut.
last-append :
    (n : ℕ) (msgs : List Message) (msg : Message)
    → last n (last n msgs ++ msg ∷ []) ≡ last n (msgs ++ msg ∷ [])
unfolding last
last-append n msgs msg =
    let cut = length msgs - n in
    let shift : drop cut msgs ++ msg ∷ [] ≡ drop cut (msgs ++ msg ∷ []) =
      sym (drop-append_le cut msgs (msg ∷ []) (omega arith)) in
    let rest = length (drop cut msgs ++ msg ∷ []) - n in
    let total : cut + rest ≡ length (msgs ++ msg ∷ []) - n = omega (
      arith,
      length-append (drop cut msgs) (msg ∷ []),
      length-append msgs (msg ∷ []),
      length-drop cut msgs,
    ) in
    ap (drop rest) shift
    ∙ drop-drop rest cut (msgs ++ msg ∷ [])
    ∙ ap (λ k. drop k (msgs ++ msg ∷ [])) total

last-last : (m n : ℕ) (msgs : List Message) → last m (last n msgs) ≡ last (min m n) msgs
unfolding last
last-last m n msgs =
    let cut = length msgs - n in
    drop-drop (length (drop cut msgs) - m) cut msgs
    ∙ ap (λ k. drop k msgs) (omega (arith, length-drop cut msgs))

pub trimmed-last : (msgs : List Message) → trimmed msgs ≡ last max_messages_per_peer msgs
unfolding trimmed last
trimmed-last msgs = elim (Bool-cases (ltb max_messages_per_peer (length msgs))) [
  | inl long ↦ rw long
  | inr short ↦
      let none_cut : length msgs - max_messages_per_peer ≡ 0 = ground arith in rw (short, none_cut)
]

-- The cut of `GetLatest`.
latest-last :
    (n : ℕ) (msgs : List Message)
    → (if leb (length msgs) n then msgs else drop (length msgs - n) msgs) ≡ last n msgs
unfolding last
latest-last n msgs = elim (Bool-cases (leb (length msgs) n)) [
  | inr long ↦ rw long
  | inl short ↦ let none_cut : length msgs - n ≡ 0 = ground arith in rw (short, none_cut)
]

-- The conversation that is kept is the end of the log.
abbrev IsKept : History → Bytes → Option (List Message) → Type 0
IsKept h peer log = lookup peer h.convos ≡ last_of max_messages_per_peer log

append-some :
    (h : History) (peer : Bytes) (msg : Message) (msgs all : List Message)
    → messages_with h peer ≡ msgs
    → last max_messages_per_peer (msgs ++ msg ∷ []) ≡ last max_messages_per_peer all
    → lookup peer (append h peer msg).convos ≡ some (last max_messages_per_peer all)
unfolding append
append-some h peer msg msgs all e e' =
    lookup-insert_self peer (trimmed (messages_with h peer ++ msg ∷ [])) h.convos
    ∙ ap some (ap (λ l. trimmed (l ++ msg ∷ [])) e ∙ trimmed-last (msgs ++ msg ∷ []) ∙ e')

append-IsKept :
    (h : History) (peer : Bytes) (msg : Message) (log : Option (List Message))
    → IsKept h peer log
    → IsKept (append h peer msg) peer (noted peer log (appends peer msg))
unfolding noted last_of messages_with
append-IsKept h peer msg none v =
    rw (bytes_eq_refl peer) (append-some h peer msg [] (msg ∷ []) (rw (v, messages_with)) refl)
append-IsKept h peer msg (some msgs) v = rw (bytes_eq_refl peer) (
    append-some h peer msg (last max_messages_per_peer msgs) (msgs ++ msg ∷ [])
      (rw (v, messages_with)) (last-append max_messages_per_peer msgs msg))

noted-IsKept :
    (h : History) (peer : Bytes) (log : Option (List Message)) (c : HistoryCall)
    → IsKept h peer log
    → IsKept (after_history_call h c) peer (noted peer log c)
unfolding after_history_call noted append clear last_of
noted-IsKept h peer log (appends other msg) v = elim (Bool-cases (bytes_eq other peer)) [
  | inl e ↦
      subst (λ p. IsKept (append h p msg) peer (noted peer log (appends p msg)))
        (sym ((bytes_eq_iff other peer).0 e)) (append-IsKept h peer msg log v)
  | inr e ↦ rw e (
      lookup-insert_ne other peer (trimmed (messages_with h other ++ msg ∷ [])) h.convos
        (λ same. absurd (ground (arith, bytes_eq_iff other peer)))
      ∙ v)
]
noted-IsKept h peer log (clears other) v = elim (Bool-cases (bytes_eq other peer)) [
  | inl e ↦ lookup-delete other peer h.convos ∙ rw e
  | inr e ↦ lookup-delete other peer h.convos ∙ rw e v
]

after_history_calls-IsKept :
    (h : History) (peer : Bytes) (log : Option (List Message)) (cs : List HistoryCall)
    → IsKept h peer log
    → IsKept (after_history_calls h cs) peer (full_log peer log cs)
unfolding after_history_calls full_log
after_history_calls-IsKept h peer log [] v = v
after_history_calls-IsKept h peer log (c ∷ cs) v =
    after_history_calls-IsKept (after_history_call h c) peer (noted peer log c) cs
      (noted-IsKept h peer log c v)

get_latest-last_of :
    (h : History) (peer : Bytes) (n : ℕ) (log : Option (List Message))
    → IsKept h peer log
    → get_latest h peer n ≡ last_of (min n max_messages_per_peer) log
unfolding get_latest last_of
get_latest-last_of h peer n none v = rw (v, get_latest)
get_latest-last_of h peer n (some msgs) v =
    rw (v, get_latest)
      (ap some
        (latest-last n (last max_messages_per_peer msgs) ∙ last-last n max_messages_per_peer msgs))

-- After any sequence of Append and Clear on a new history, GetConversation returns the last 1000
-- messages of the log of all messages with the peer since its last Clear, and GetLatest the last
-- `n` of the log, 1000 at most; both return nothing if the log has nothing.
pub new_history-after_history_calls :
    (cs : List HistoryCall) (peer : Bytes) (n : ℕ)
    → (get_conversation (after_history_calls new_history cs) peer
        ≡ last_of max_messages_per_peer (full_log peer none cs))
      × (get_latest (after_history_calls new_history cs) peer n
          ≡ last_of (min n max_messages_per_peer) (full_log peer none cs))
unfolding get_conversation last_of lookup new_history
new_history-after_history_calls cs peer n =
    let v = after_history_calls-IsKept new_history peer none cs refl in
    (v, get_latest-last_of (after_history_calls new_history cs) peer n (full_log peer none cs) v)
