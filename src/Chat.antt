-- ===== src/Chat.antt =====
-- internal/chat: messages, their history, and the chat service. Conversations are kept by the
-- peer's address.
pub mod Log
pub mod Messaging
use ensemble.Common.{
  ℕ, ◌-◌, Option, none, some, List, [], ◌∷◌, ◌++◌, length, drop, ltb, leb, if◌then◌else◌,
}
use ensemble.Common.Maps.{lookup, insert, delete, bytes_beq}
use ensemble.Crypto.{Bytes}

abbrev pub max_messages_per_peer : ℕ
max_messages_per_peer = 1000

pub data Direction : Type 0 where
  outgoing incoming : Direction

pub record Message : Type 0 where
  pub id : Bytes
  pub sender : Bytes  -- the field From
  pub receiver : Bytes  -- the field To
  pub text : Bytes
  pub sent_at : ℕ
  pub acked_at : Option ℕ
  pub direction : Direction

pub record History : Type 0 where
  pub convos : List (Bytes × List Message)

unfoldable pub new_history : History
new_history = record { convos = [] }

unfoldable pub messages_with : History → Bytes → List Message
messages_with h peer = elim (lookup peer h.convos) [ none ↦ [] | some msgs ↦ msgs ]

-- The most recent messages that are kept.
unfoldable pub trimmed : List Message → List Message
trimmed msgs =
    if ltb max_messages_per_peer (length msgs)
    then drop (length msgs - max_messages_per_peer) msgs
    else msgs

unfoldable pub append : History → Bytes → Message → History
unfolding messages_with trimmed
append h peer msg = record h {
  convos = insert peer (trimmed (messages_with h peer ++ msg ∷ [])) h.convos;
}

unfoldable pub get_conversation : History → Bytes → Option (List Message)
get_conversation h peer = lookup peer h.convos

-- The last `n` messages, for `n` that is not negative.
unfoldable pub get_latest : History → Bytes → ℕ → Option (List Message)
get_latest h peer n = elim (lookup peer h.convos) [
  | none ↦ none
  | some msgs ↦ some (if leb (length msgs) n then msgs else drop (length msgs - n) msgs)
]

unfoldable pub clear : History → Bytes → History
clear h peer = record h { convos = delete peer h.convos }
