-- ===== src/Tests/Chats.antt =====
-- Two chat services, one of which sends the other a message.
use ensemble.Common.{
  ℕ, bytes_eq, ◌*◌, ◌≡◌, refl, min, true, false, none, some, List, [], ◌∷◌, get_or, replicate,
  Result,
}
use ensemble.Common.Maps.{lookup, insert}
use ensemble.Crypto.{Bytes}
use ensemble.Identity.Address.{derive_address}
use ensemble.Identity.Keypair.{from_seed, sign}
use ensemble.Protocol.Envelope.{Envelope, write_msg, wrap_message}
use ensemble.Services.{acl_contacts, Service, as_chat}
use ensemble.Services.Registry.{new_registry, store, get}
use ensemble.Chat.{
  max_messages_per_peer, Message, outgoing, incoming, new_history, get_conversation, get_latest,
}
use ensemble.Chat.Log.{
  HistoryCall, appends, clears, after_history_calls, full_log, last_of,
  new_history-after_history_calls,
}
use ensemble.Chat.Messaging.{
  ChatCodecs, ChatService, resolve_service, opened, send_message, handle_incoming, chat_text_kind,
  chat_ack_kind,
}
use ensemble.Chat.Messaging.Delivery.{Ends, Encodings, taken_in, send_message-handle_incoming}
use ensemble.Tests.Fixtures.{
  toy_sha, toy_ripemd, toy_base58, toy_ed25519, envelope_codec, pack, codec_of, codec_from,
}

abbrev codecs : ChatCodecs
codecs = record {
  envelope = envelope_codec;
  text =
      codec_of 2 (λ m. m.text_id ∷ m.body ∷ [])
        (λ f. record { text_id = get_or f 0 []; body = get_or f 1 [] }) (λ m. refl) (λ m. refl);
  ack = codec_from (λ m. m.message_id) (λ b. record { message_id = b }) (λ m. refl);
}

abbrev seed_of : ℕ → Bytes
seed_of b = replicate 32 b

abbrev service_with : ℕ → Service
service_with b = record {
  name = 110 ∷ [];
  address = b ∷ b ∷ [];
  onion_addr = b ∷ [];
  identity = record { pub_key = replicate 32 b; priv_key = replicate 64 b };
  manifest = record { description = []; acl = acl_contacts; allowlist = [] };
  handlers = some (record { chat = true; file = false; connection = false });
}

abbrev chat_with : ℕ → ChatService
chat_with b = record {
  history = some new_history;
  registry = some (store new_registry (service_with b));
  service_name = 110 ∷ [];
}

resolved : (b : ℕ) → resolve_service (chat_with b) ≡ Result.ok (service_with b)
unfolding resolve_service get lookup store insert new_registry bytes_eq
resolved b = refl

keys_made : (b : ℕ) → from_seed toy_ed25519 (seed_of b) ≡ Result.ok (service_with b).identity
unfolding from_seed
keys_made b = refl

chats : (b : ℕ) → as_chat (service_with b) ≡ true
unfolding as_chat
chats b = refl

abbrev ends : Ends toy_sha toy_ripemd toy_base58 toy_ed25519 codecs (chat_with 1) (chat_with 2)
ends = record {
  source = service_with 1;
  target = service_with 2;
  source_seed = seed_of 1;
  target_seed = seed_of 2;
  source_resolved = resolved 1;
  target_resolved = resolved 2;
  source_keys = keys_made 1;
  target_keys = keys_made 2;
  chats = chats 2;
}

abbrev text_envelope : Envelope
text_envelope =
    wrap_message toy_ed25519 chat_text_kind (pack ((3 ∷ []) ∷ (4 ∷ 4 ∷ []) ∷ []))
      (service_with 1).identity 70

abbrev ack_envelope : Envelope
ack_envelope = wrap_message toy_ed25519 chat_ack_kind (3 ∷ []) (service_with 2).identity 80

abbrev bytes_of : Envelope → Bytes
bytes_of env = elim (write_msg envelope_codec env true true) [ Result.ok b ↦ b | Result.err _ ↦ [] ]

text_written : write_msg envelope_codec text_envelope true true ≡ Result.ok (bytes_of text_envelope)
unfolding write_msg wrap_message sign
text_written = refl

ack_written : write_msg envelope_codec ack_envelope true true ≡ Result.ok (bytes_of ack_envelope)
unfolding write_msg wrap_message sign
ack_written = refl

abbrev encodings :
    Encodings toy_sha toy_ripemd toy_base58 toy_ed25519 codecs
      (service_with 1).identity
      (service_with 2).identity
      (3 ∷ [])
      (4 ∷ 4 ∷ [])
      70
      80
encodings = record {
  payload = pack ((3 ∷ []) ∷ (4 ∷ 4 ∷ []) ∷ []);
  request = bytes_of text_envelope;
  ack_payload = 3 ∷ [];
  answer = bytes_of ack_envelope;
  marshalled = refl;
  requested = text_written;
  acknowledged = refl;
  answered = ack_written;
}

send_message-handle_incoming_example :
    ((send_message toy_ed25519 codecs
        (chat_with 1)
        (2 ∷ 2 ∷ [])
        (4 ∷ 4 ∷ [])
        (3 ∷ [])
        (some (
          opened true true (λ stream.
            (handle_incoming toy_ed25519 codecs toy_sha toy_ripemd toy_base58
              (chat_with 2)
              stream
              75
              80).1)))
        70
        90).1
      ≡ Result.ok (record {
        id = 3 ∷ [];
        sender = 1 ∷ 1 ∷ [];
        receiver = 2 ∷ 2 ∷ [];
        text = 4 ∷ 4 ∷ [];
        sent_at = 70 * 1000000;
        acked_at = some 90;
        direction = outgoing;
      }))
    × ((handle_incoming toy_ed25519 codecs toy_sha toy_ripemd toy_base58
          (chat_with 2)
          encodings.request
          75
          80).0
        ≡ taken_in (chat_with 2) (record {
          id = 3 ∷ [];
          sender = derive_address toy_sha toy_ripemd toy_base58 (replicate 32 1);
          receiver = 2 ∷ 2 ∷ [];
          text = 4 ∷ 4 ∷ [];
          sent_at = 70 * 1000000;
          acked_at = some 75;
          direction = incoming;
        }))
send_message-handle_incoming_example =
    send_message-handle_incoming toy_sha toy_ripemd toy_base58 toy_ed25519 codecs (chat_with 1)
      (chat_with 2) ends (3 ∷ []) (4 ∷ 4 ∷ []) 70 75 80 90 encodings (2 ∷ 2 ∷ [])

abbrev message : Message
message = record {
  id = [];
  sender = 1 ∷ [];
  receiver = 2 ∷ [];
  text = 7 ∷ [];
  sent_at = 5;
  acked_at = none;
  direction = outgoing;
}

abbrev calls : List HistoryCall
calls =
    appends (1 ∷ []) message
    ∷ clears (1 ∷ [])
    ∷ appends (1 ∷ []) message
    ∷ appends (2 ∷ []) message
    ∷ []

new_history-after_history_calls_example :
    (get_conversation (after_history_calls new_history calls) (1 ∷ [])
      ≡ last_of max_messages_per_peer (full_log (1 ∷ []) none calls))
    × (get_latest (after_history_calls new_history calls) (1 ∷ []) 3
        ≡ last_of (min 3 max_messages_per_peer) (full_log (1 ∷ []) none calls))
new_history-after_history_calls_example = new_history-after_history_calls calls (1 ∷ []) 3
