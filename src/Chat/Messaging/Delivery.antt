-- ===== src/Chat/Messaging/Delivery.antt =====
-- A chat message from one service to another.
use ensemble.Common.{
  ℕ, ◌*◌, ◌≡◌, ◌∙◌, refl, ap, subst, true, Option, none, some, List, [], ◌∷◌, ◌++◌, Option-cases,
  inl, inr, append-nil, bytes_eq_refl, Result,
}
use ensemble.Crypto.{Bytes, Sha256, Ripemd160, Base58, Ed25519}
use ensemble.Identity.Address.{derive_address}
use ensemble.Identity.Keypair.{Keypair, from_seed}
use ensemble.Protocol.{Codec}
use ensemble.Protocol.Envelope.{Envelope, write_msg, read_msg, wrap_message, verify_envelope}
use ensemble.Protocol.Envelope.Framing.{write_msg-read_msg}
use ensemble.Protocol.Envelope.Signing.{wrap_message-verify_envelope}
use ensemble.Services.{Service, as_chat}
use ensemble.Chat.Log.{last, trimmed-last}
use ensemble.Common.Maps.{lookup, insert, bytes_beq}
use ensemble.Chat.{Message, History, append, messages_with, outgoing, incoming}
use ensemble.Chat.Messaging.{
  chat_text_kind, chat_ack_kind, ChatCodecs, ChatService, resolve_service, opened, record_message,
  ingest, chat_envelope, check_ack, exchange, send_to, send_message, accept_text, received_message,
  ack_bytes, handle_incoming,
}

-- A stream of one message that was written is read back.
read_written :
    (codec : Codec Envelope) (env : Envelope) (wire : Bytes)
    → write_msg codec env true true ≡ Result.ok wire
    → read_msg codec wire ≡ Result.ok (env, [])
read_written codec env wire e =
    subst (λ b. read_msg codec b ≡ Result.ok (env, [])) (append-nil wire)
      (write_msg-read_msg codec env wire [] true true e)

-- The history with the message at the end of the sender's conversation, of which the last 1000
-- messages are kept.
abbrev pub with_last : History → Message → History
with_last h msg =
    let old : List Message = elim (lookup msg.sender h.convos) [ none ↦ [] | some msgs ↦ msgs ] in
    record h { convos = insert msg.sender (last 1000 (old ++ msg ∷ [])) h.convos }

append-with_last : (h : History) (msg : Message) → append h msg.sender msg ≡ with_last h msg
unfolding append messages_with
append-with_last h msg =
    ap (λ (msgs : List Message). record h { convos = insert msg.sender msgs h.convos })
      (trimmed-last _)

-- The history, if there is one, with the message, and this as the only one that is published.
abbrev pub taken_in : ChatService → Message → ChatService × List Message
taken_in c msg = (
  record c { history = elim c.history [ none ↦ none | some h ↦ some (with_last h msg) ] },
  msg ∷ [],
)

ingest-taken_in : (c : ChatService) (msg : Message) → ingest c msg ≡ taken_in c msg
unfolding ingest record_message
ingest-taken_in c msg = elim (Option-cases c.history) [
  | inl e ↦
      rw (e, record_message) (ap (λ (x : Option History). (record c { history = x }, msg ∷ [])) e)
  | inr (h, e) ↦
      rw (e, record_message)
        (ap (λ (x : History). (record c { history = some x }, msg ∷ [])) (append-with_last h msg))
]

module _ (h : Sha256) (rip : Ripemd160) (b58 : Base58) (ed : Ed25519) (codecs : ChatCodecs) where
  -- Two services, the second of which takes chat messages, with the keys of two seeds.
  pub record Ends (c d : ChatService) : Type 0 where
    pub source : Service
    pub target : Service
    pub source_seed : Bytes
    pub target_seed : Bytes
    pub source_resolved : resolve_service c ≡ Result.ok source
    pub target_resolved : resolve_service d ≡ Result.ok target
    pub source_keys : from_seed ed source_seed ≡ Result.ok source.identity
    pub target_keys : from_seed ed target_seed ≡ Result.ok target.identity
    pub chats : as_chat target ≡ true

  -- The four encodings of a message and its acknowledgement.
  pub record Encodings (source target : Keypair) (msg_id text : Bytes) (sent ack_now : ℕ)
      : Type 0 where
    pub payload : Bytes
    pub request : Bytes
    pub ack_payload : Bytes
    pub answer : Bytes
    pub marshalled : codecs.text.marshal (record { text_id = msg_id; body = text }) ≡ some payload
    pub requested :
        write_msg codecs.envelope (wrap_message ed chat_text_kind payload source sent) true true
        ≡ Result.ok request
    pub acknowledged : codecs.ack.marshal (record { message_id = msg_id }) ≡ some ack_payload
    pub answered :
        write_msg codecs.envelope
          (wrap_message ed chat_ack_kind ack_payload target ack_now)
          true
          true
        ≡ Result.ok answer

  module _ (c d : ChatService) (ends : Ends c d) (msg_id text : Bytes) (sent now ack_now : ℕ)
      (enc : Encodings ends.source.identity ends.target.identity msg_id text sent ack_now) where
    abbrev arrived : Message
    arrived = record {
      id = msg_id;
      sender = derive_address h rip b58 ends.source.identity.pub_key;
      receiver = ends.target.address;
      text = text;
      sent_at = sent * 1000000;
      acked_at = some now;
      direction = incoming;
    }

    handle_incoming-request :
        handle_incoming ed codecs h rip b58 d enc.request now ack_now
        ≡ (ingest d arrived, enc.answer)
    unfolding handle_incoming accept_text received_message ack_bytes wrap_message
    handle_incoming-request =
        let env = wrap_message ed chat_text_kind enc.payload ends.source.identity sent in
        let read : read_msg codecs.envelope enc.request ≡ Result.ok (env, []) =
          read_written codecs.envelope env enc.request enc.requested in
        let signed : verify_envelope ed env ≡ true =
          wrap_message-verify_envelope ed ends.source_seed enc.payload chat_text_kind sent
            ends.source.identity ends.source_keys in
        let back = codecs.text.unmarshal-marshal _ enc.payload enc.marshalled in
        rw (
          read, signed, ends.target_resolved, ends.chats, back, enc.acknowledged, enc.answered,
          handle_incoming, accept_text, ack_bytes,
        )

    check_ack-answer :
        check_ack ed codecs msg_id
          (wrap_message ed chat_ack_kind enc.ack_payload ends.target.identity ack_now)
        ≡ Result.ok tt
    unfolding check_ack wrap_message
    check_ack-answer =
        let env = wrap_message ed chat_ack_kind enc.ack_payload ends.target.identity ack_now in
        let signed : verify_envelope ed env ≡ true =
          wrap_message-verify_envelope ed ends.target_seed enc.ack_payload chat_ack_kind ack_now
            ends.target.identity ends.target_keys in
        let back = codecs.ack.unmarshal-marshal _ enc.ack_payload enc.acknowledged in
        rw (signed, back, bytes_eq_refl msg_id) refl

    exchange-answer :
        exchange ed codecs
          (opened true true
            (λ stream. (handle_incoming ed codecs h rip b58 d stream now ack_now).1))
          msg_id
          (wrap_message ed chat_text_kind enc.payload ends.source.identity sent)
        ≡ Result.ok tt
    unfolding exchange
    exchange-answer =
        let ack_env = wrap_message ed chat_ack_kind enc.ack_payload ends.target.identity ack_now in
        let served : (handle_incoming ed codecs h rip b58 d enc.request now ack_now).1
            ≡ enc.answer =
          ap (λ (t : (ChatService × List Message) × Bytes). t.1) handle_incoming-request in
        let read : read_msg codecs.envelope enc.answer ≡ Result.ok (ack_env, []) =
          read_written codecs.envelope ack_env enc.answer enc.answered in
        let checked : check_ack ed codecs msg_id ack_env ≡ Result.ok tt = check_ack-answer in
        rw (enc.requested, served, read, checked) refl

    send_to-target :
        (peer_addr : Bytes) (acked : ℕ)
        → send_to ed codecs ends.source peer_addr text msg_id
            (opened true true
              (λ stream. (handle_incoming ed codecs h rip b58 d stream now ack_now).1))
            sent
            acked
          ≡ Result.ok (record {
            id = msg_id;
            sender = ends.source.address;
            receiver = peer_addr;
            text = text;
            sent_at = sent * 1000000;
            acked_at = some acked;
            direction = outgoing;
          })
    unfolding send_to chat_envelope wrap_message
    send_to-target peer_addr acked =
        let env = wrap_message ed chat_text_kind enc.payload ends.source.identity sent in
        let wrapped : chat_envelope ed codecs ends.source msg_id text sent ≡ some env =
          rw (enc.marshalled, chat_envelope) refl in
        let acked_ok = exchange-answer in rw (wrapped, acked_ok, send_to) refl

  -- A message that is sent over a stream to a service that takes chat messages, if it and its
  -- acknowledgement can be encoded: SendMessage succeeds and returns the message; the other
  -- service publishes one message, with the same identifier, text and time, from the address of
  -- the sender's key and to its own address, and puts it, if it has a history, at the end of the
  -- conversation with that sender, of which it keeps the last 1000 messages.
  pub send_message-handle_incoming :
      (c d : ChatService) (ends : Ends c d) (msg_id text : Bytes) (sent now ack_now acked : ℕ)
      (enc : Encodings ends.source.identity ends.target.identity msg_id text sent ack_now)
      (peer_addr : Bytes)
      → ((send_message ed codecs c peer_addr text msg_id
            (some (
              opened true true
                (λ stream. (handle_incoming ed codecs h rip b58 d stream now ack_now).1)))
            sent
            acked).1
          ≡ Result.ok (record {
            id = msg_id;
            sender = ends.source.address;
            receiver = peer_addr;
            text = text;
            sent_at = sent * 1000000;
            acked_at = some acked;
            direction = outgoing;
          }))
        × ((handle_incoming ed codecs h rip b58 d enc.request now ack_now).0
            ≡ taken_in d (record {
              id = msg_id;
              sender = derive_address h rip b58 ends.source.identity.pub_key;
              receiver = ends.target.address;
              text = text;
              sent_at = sent * 1000000;
              acked_at = some now;
              direction = incoming;
            }))
  unfolding send_message
  send_message-handle_incoming c d ends msg_id text sent now ack_now acked enc peer_addr = (
    rw (
      ends.source_resolved,
      send_to-target c d ends msg_id text sent now ack_now enc peer_addr acked,
      send_message,
    ),
    ap (λ (t : (ChatService × List Message) × Bytes). t.0)
          (handle_incoming-request c d ends msg_id text sent now ack_now enc)
        ∙ ingest-taken_in d (arrived c d ends msg_id text sent now ack_now enc),
  )
