-- ===== src/Tests/Clients.antt =====
-- An initiator that connects in its second attempt, and envelopes on the wire.
use ensemble.Common.{
  ℕ, suc, zero, ◌<◌, ◌≡◌, refl, Bool, true, false, Option, none, some, [], ◌∷◌, ◌++◌, replicate,
  Result, bytes_eq, arith,
}
use ensemble.Crypto.{Bytes}
use ensemble.Identity.Address.{derive_address, matches_public_key}
use ensemble.Identity.Address.Checksum.{matches_public_key_iff}
use ensemble.Identity.Keypair.{Keypair, from_seed, verify, from_public_key}
use ensemble.Discovery.NodeId.Derivation.{
  node_id_from_public_key, node_id_from_address, matches_public_key-node_id_from_address,
}
use ensemble.Protocol.Envelope.{Envelope, write_msg, read_msg, wrap_message, verify_envelope}
use ensemble.Protocol.Envelope.Framing.{write_msg-read_msg}
use ensemble.Protocol.Envelope.Signing.{signing_payload-injective, wrap_message-verify_envelope}
use ensemble.Signaling.Handshake.{
  ConnResponse, create_conn_request, create_conn_confirm, validate_conn_response,
}
use ensemble.Signaling.Client.{
  max_attempts, HandshakeResult, Attempt, Codecs, Client, conn_response, request_connection,
}
use ensemble.Signaling.Client.Agreement.{Agreed, request_connection-Agreed}
use ensemble.Tests.Fixtures.{
  toy_sha, toy_ripemd, toy_base58, toy_ed25519, request_codec, response_codec, confirm_codec,
  envelope_codec,
}

abbrev seed : Bytes
seed = replicate 32 4

abbrev pub keys : Keypair
keys = record { pub_key = replicate 32 4; priv_key = replicate 64 4 }

keys-made : from_seed toy_ed25519 seed ≡ Result.ok keys
unfolding from_seed
keys-made = refl

matches_public_key-node_id_from_address_example :
    node_id_from_address toy_base58 (derive_address toy_sha toy_ripemd toy_base58 seed)
    ≡ Result.ok (node_id_from_public_key toy_sha toy_ripemd seed)
matches_public_key-node_id_from_address_example =
    matches_public_key-node_id_from_address toy_sha toy_ripemd toy_base58
      (derive_address toy_sha toy_ripemd toy_base58 seed) seed
      ((matches_public_key_iff toy_sha toy_ripemd toy_base58
          (derive_address toy_sha toy_ripemd toy_base58 seed) seed).1
        refl)

abbrev envelope : Envelope
envelope = record {
  kind = 3;
  payload = 7 ∷ 8 ∷ [];
  timestamp = 9;
  pub_key = keys.pub_key;
  signature = 1 ∷ [];
}

abbrev bytes_or_none : Option Bytes → Bytes
bytes_or_none none = []
bytes_or_none (some bytes) = bytes

write_msg-read_msg_example :
    read_msg envelope_codec
      ((0 ∷ 0 ∷ 0 ∷ 42 ∷ bytes_or_none (envelope_codec.marshal envelope)) ++ 5 ∷ 6 ∷ [])
    ≡ Result.ok (envelope, 5 ∷ 6 ∷ [])
unfolding write_msg
write_msg-read_msg_example =
    write_msg-read_msg envelope_codec envelope
      (0 ∷ 0 ∷ 0 ∷ 42 ∷ bytes_or_none (envelope_codec.marshal envelope)) (5 ∷ 6 ∷ []) true true refl

signing_payload-injective_example :
    (envelope.kind ≡ 3) × (envelope.payload ≡ 7 ∷ 8 ∷ []) × (envelope.timestamp ≡ 9)
signing_payload-injective_example =
    signing_payload-injective 3 3 9 9 (7 ∷ 8 ∷ []) (7 ∷ 8 ∷ []) (omega arith) (omega arith)
      (omega arith) (omega arith) refl

wrap_message-verify_envelope_example :
    verify_envelope toy_ed25519 (wrap_message toy_ed25519 3 (7 ∷ []) keys 9) ≡ true
wrap_message-verify_envelope_example =
    wrap_message-verify_envelope toy_ed25519 seed (7 ∷ []) 3 9 keys keys-made

abbrev pub codecs : Codecs
codecs = record { request = request_codec; response = response_codec; confirm = confirm_codec }

abbrev pub client : Client
client = record { keypair = keys; address = 1 ∷ [] }

abbrev response : ConnResponse
response = record {
  accepted = true;
  pub_key = keys.pub_key;
  signature = toy_ed25519.sign keys.priv_key (replicate 32 7);
  nonce = replicate 32 8;
  reason = [];
}

abbrev pub attempt_with : Bool → Attempt
attempt_with dials = record {
  dial_ok = dials;
  drawn = some (replicate 32 7);
  now = 0;
  request_ok = true;
  answer = conn_response (bytes_or_none (response_codec.marshal response));
  confirm_ok = true;
  done_after = false;
  done_waiting = false;
}

abbrev attempts : ℕ → Attempt
attempts zero = attempt_with false
attempts (suc n) = attempt_with true

abbrev peer : HandshakeResult
unfolding derive_address
peer = record {
  peer_pub_key = keys.pub_key;
  peer_addr = derive_address toy_sha toy_ripemd toy_base58 keys.pub_key;
}

request_connection-Agreed_example :
    (i : ℕ) × (i < max_attempts)
    × Agreed toy_sha toy_ripemd toy_base58 toy_ed25519 codecs
        (derive_address toy_sha toy_ripemd toy_base58 keys.pub_key)
        (attempts i)
        peer
unfolding request_connection create_conn_request create_conn_confirm validate_conn_response
    derive_address matches_public_key bytes_eq from_public_key verify peer
request_connection-Agreed_example =
    request_connection-Agreed toy_sha toy_ripemd toy_base58 toy_ed25519 codecs client
      (derive_address toy_sha toy_ripemd toy_base58 keys.pub_key) attempts peer refl
