-- ===== src/Chat/Messaging.antt =====
-- internal/chat/service.go. Streams, the clock and the random source are arguments of a call; the
-- messages that are published on the event bus are among its results.
pub mod Delivery
use ensemble.Common.{
  ℕ, ◌*◌, Bool, true, false, not, Option, none, some, List, [], ◌∷◌, ◌==◌, bytes_eq, if◌then◌else◌,
  Result, require, relabel, ◌>>=◌, ◌>>◌, guard,
}
use ensemble.Crypto.{Bytes, Sha256, Ripemd160, Base58, Ed25519}
use ensemble.Identity.Address.{derive_address}
use ensemble.Protocol.{Codec}
use ensemble.Protocol.Envelope.{
  Envelope, CodecError, write_msg, read_msg, wrap_message, verify_envelope,
}
use ensemble.Services.{Service, as_chat}
use ensemble.Services.Registry.{Registry, get}
use ensemble.Chat.{Message, History, Direction, outgoing, incoming, append}

abbrev pub chat_text_kind : ℕ
chat_text_kind = 10

abbrev pub chat_ack_kind : ℕ
chat_ack_kind = 11

-- pb.ChatText and pb.ChatAck
pub record ChatText : Type 0 where
  pub text_id : Bytes
  pub body : Bytes

pub record ChatAck : Type 0 where
  pub message_id : Bytes

pub record ChatCodecs : Type 0 where
  pub envelope : Codec Envelope
  pub text : Codec ChatText
  pub ack : Codec ChatAck

pub record ChatService : Type 0 where
  pub history : Option History
  pub registry : Option Registry
  pub service_name : Bytes

pub data ChatError : Type 0 where
  no_registry service_not_registered peer_not_connected marshalling_text opening_stream : ChatError
  sending_message reading_ack : CodecError → ChatError
  unexpected_type invalid_signature unmarshalling_ack id_mismatch : ChatError

unfoldable pub resolve_service : ChatService → Result ChatError Service
resolve_service c = elim c.registry [
  | none ↦ Result.err no_registry
  | some r ↦ elim (get r c.service_name) [
    | none ↦ Result.err service_not_registered
    | some svc ↦ Result.ok svc
  ]
]

-- A stream to the peer: whether the two writes of a message succeed, and what the peer answers.
pub data Stream : Type 0 where
  unopened : Stream
  opened : Bool → Bool → (Bytes → Bytes) → Stream

unfoldable pub record_message : ChatService → Bytes → Message → ChatService
record_message c peer msg = elim c.history [
  | none ↦ c
  | some h ↦ record c { history = some (append h peer msg) }
]

-- The new state and the message that is published.
unfoldable pub ingest : ChatService → Message → ChatService × List Message
unfolding record_message
ingest c msg = (record_message c msg.sender msg, msg ∷ [])

unfoldable pub on_chat_message :
    ChatService → Bytes → Bytes → Bytes → ℕ → (ChatService × List Message) × Option ChatError
unfolding resolve_service ingest
on_chat_message c from_addr text drawn now = elim (resolve_service c) [
  | Result.err e ↦ ((c, []), some e)
  | Result.ok svc ↦ (
    ingest c (record {
      id = drawn;
      sender = from_addr;
      receiver = svc.address;
      text = text;
      sent_at = now;
      acked_at = some now;
      direction = incoming;
    }),
    none,
  )
]

module _ (ed : Ed25519) (codecs : ChatCodecs) where
  -- The message to sign, with the time in milliseconds.
  unfoldable pub chat_envelope : Service → Bytes → Bytes → ℕ → Option Envelope
  chat_envelope svc msg_id text now =
      elim (codecs.text.marshal (record { text_id = msg_id; body = text })) [
        | none ↦ none
        | some payload ↦ some (wrap_message ed chat_text_kind payload svc.identity now)
      ]

  -- The answer must be an acknowledgement of the message, signed by the key that it carries.
  unfoldable pub check_ack : Bytes → Envelope → Result ChatError (Unit {0})
  check_ack msg_id env = do
    guard (env.kind == chat_ack_kind) unexpected_type
    guard (verify_envelope ed env) invalid_signature
    let ack = (← require unmarshalling_ack (codecs.ack.unmarshal env.payload))
    guard (bytes_eq ack.message_id msg_id) id_mismatch

  unfoldable pub exchange : Stream → Bytes → Envelope → Result ChatError (Unit {0})
  unfolding check_ack
  exchange unopened msg_id env = Result.err opening_stream
  exchange (opened length_ok payload_ok answer) msg_id env = do
    let sent = (← relabel sending_message (write_msg codecs.envelope env length_ok payload_ok))
    let got = (← relabel reading_ack (read_msg codecs.envelope (answer sent)))
    check_ack msg_id got.0

  -- `sendTo` up to the record in the history: `sent` and `acked` are the readings of the clock.
  unfoldable pub send_to :
      Service → Bytes → Bytes → Bytes → Stream → ℕ → ℕ → Result ChatError Message
  unfolding chat_envelope exchange
  send_to svc peer_addr text msg_id stream sent acked = do
    let env = (← require marshalling_text (chat_envelope svc msg_id text sent))
    exchange stream msg_id env
    Result.ok (record {
      id = msg_id;
      sender = svc.address;
      receiver = peer_addr;
      text = text;
      sent_at = env.timestamp * 1000000;
      acked_at = some acked;
      direction = outgoing;
    })

  -- `none` for the stream is a peer that is not connected.
  unfoldable pub send_message :
      ChatService
      → Bytes
      → Bytes
      → Bytes
      → Option Stream
      → ℕ
      → ℕ
      → ChatService × Result ChatError Message
  unfolding resolve_service send_to record_message
  send_message c peer_addr text msg_id connection sent acked =
      let result : Result ChatError Message =
        (resolve_service c >>= λ svc. require peer_not_connected connection >>= λ stream.
        send_to svc peer_addr text msg_id stream sent acked) in
      elim result [
        | Result.err e ↦ (c, Result.err e)
        | Result.ok msg ↦ (record_message c peer_addr msg, Result.ok msg)
      ]

  module _ (h : Sha256) (rip : Ripemd160) (b58 : Base58) where
    -- The owning service and the text of an envelope that is not dropped.
    unfoldable pub accept_text : ChatService → Envelope → Option (Service × ChatText)
    unfolding resolve_service
    accept_text c env =
        if not (env.kind == chat_text_kind)
        then none
        else if not (verify_envelope ed env)
        then none
        else elim (resolve_service c) [
          | Result.err _ ↦ none
          | Result.ok svc ↦
              if not (as_chat svc) then none else elim (codecs.text.unmarshal env.payload) [
                | none ↦ none
                | some text ↦ some (svc, text)
              ]
        ]

    unfoldable pub received_message : Service → Envelope → ChatText → ℕ → Message
    received_message svc env text now = record {
      id = text.text_id;
      sender = derive_address h rip b58 env.pub_key;
      receiver = svc.address;
      text = text.body;
      sent_at = env.timestamp * 1000000;
      acked_at = some now;
      direction = incoming;
    }

    -- The bytes of the acknowledgement.
    unfoldable pub ack_bytes : Service → Bytes → ℕ → Bytes
    ack_bytes svc msg_id now = elim (codecs.ack.marshal (record { message_id = msg_id })) [
      | none ↦ []
      | some payload ↦
          elim (write_msg codecs.envelope (wrap_message ed chat_ack_kind payload svc.identity now)
            true true) [ Result.err _ ↦ [] | Result.ok bytes ↦ bytes ]
    ]

    -- The new state, the messages that are published, and the bytes that go out.
    unfoldable pub handle_incoming :
        ChatService → Bytes → ℕ → ℕ → (ChatService × List Message) × Bytes
    unfolding accept_text received_message ack_bytes ingest
    handle_incoming c stream now ack_now = elim (read_msg codecs.envelope stream) [
      | Result.err _ ↦ ((c, []), [])
      | Result.ok (env, _) ↦ elim (accept_text c env) [
        | none ↦ ((c, []), [])
        | some (svc, text) ↦
            (ingest c (received_message svc env text now), ack_bytes svc text.text_id ack_now)
      ]
    ]
