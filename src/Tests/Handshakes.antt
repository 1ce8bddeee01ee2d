-- ===== src/Tests/Handshakes.antt =====
-- A handshake between two peers with small keys, and a request that comes twice.
use ensemble.Common.{
  ◌≡◌, ◌↔◌, refl, true, Option, none, some, [], ◌∷◌, replicate, length, Result, bytes_eq, arith,
}
use ensemble.Common.Maps.{lookup}
use ensemble.Crypto.{Bytes}
use ensemble.Identity.Address.{derive_address, matches_public_key}
use ensemble.Identity.Address.Checksum.{matches_public_key_iff}
use ensemble.Identity.Keypair.{Keypair, from_seed, sign, verify, from_public_key}
use ensemble.Signaling.Handshake.{
  nonce_size, ConnRequest, ConnResponse, ConnConfirm, HandshakeError, create_conn_response,
  validate_conn_request, validate_conn_response,
}
use ensemble.Signaling.Handshake.Replay.{Call, after_calls, validate_conn_request-replayed}
use ensemble.Signaling.Handshake.Exchange.{
  Proved, validate_conn_response-Proved, create-validate_conn_response,
}
use ensemble.Tests.Fixtures.{
  toy_sha, toy_ripemd, toy_base58, toy_ed25519, request_codec, response_codec,
}

abbrev address : Bytes → Bytes
unfolding derive_address
address pub_key = derive_address toy_sha toy_ripemd toy_base58 pub_key

abbrev seed : Bytes
seed = replicate 32 4

abbrev keys : Keypair
keys = record { pub_key = replicate 32 4; priv_key = replicate 64 4 }

keys-made : from_seed toy_ed25519 seed ≡ Result.ok keys
unfolding from_seed
keys-made = refl

matches_public_key_iff_example :
    (matches_public_key toy_sha toy_ripemd toy_base58 (1 ∷ []) seed ≡ true)
    ↔ ((1 ∷ []) ≡ derive_address toy_sha toy_ripemd toy_base58 seed)
matches_public_key_iff_example = matches_public_key_iff toy_sha toy_ripemd toy_base58 (1 ∷ []) seed

abbrev request_nonce : Bytes
request_nonce = replicate 32 7

abbrev response_nonce : Bytes
response_nonce = replicate 32 8

abbrev response : ConnResponse
response = record {
  accepted = true;
  pub_key = keys.pub_key;
  signature = toy_ed25519.sign keys.priv_key request_nonce;
  nonce = response_nonce;
  reason = [];
}

abbrev bytes_or_none : Option Bytes → Bytes
bytes_or_none none = []
bytes_or_none (some bytes) = bytes

create-validate_conn_response_example :
    (msg : ConnResponse) × (validate_conn_response toy_sha toy_ripemd toy_base58 toy_ed25519
        response_codec
        (bytes_or_none (response_codec.marshal response))
        request_nonce
        (derive_address toy_sha toy_ripemd toy_base58 keys.pub_key)
      ≡ Result.ok msg)
    × (msg.accepted ≡ true)
    × (msg.nonce ≡ response_nonce)
unfolding create_conn_response sign
create-validate_conn_response_example =
    create-validate_conn_response toy_sha toy_ripemd toy_base58 toy_ed25519 response_codec seed
      request_nonce [] response_nonce (bytes_or_none (response_codec.marshal response))
      response_nonce keys keys-made refl refl

abbrev confirm : ConnConfirm
confirm = record {
  pub_key = keys.pub_key;
  signature = toy_ed25519.sign keys.priv_key response_nonce;
}

validate_conn_response-Proved_example :
    Proved toy_sha toy_ripemd toy_base58 toy_ed25519
      (derive_address toy_sha toy_ripemd toy_base58 keys.pub_key)
      keys.pub_key
      request_nonce
      response.signature
    × (length response.nonce ≡ nonce_size)
unfolding validate_conn_response derive_address matches_public_key bytes_eq from_public_key verify
validate_conn_response-Proved_example =
    validate_conn_response-Proved toy_sha toy_ripemd toy_base58 toy_ed25519 response_codec
      (bytes_or_none (response_codec.marshal response)) request_nonce
      (derive_address toy_sha toy_ripemd toy_base58 keys.pub_key) response refl refl

abbrev request : ConnRequest
request = record {
  from_address = 1 ∷ [];
  target_address = 2 ∷ [];
  nonce = request_nonce;
  timestamp = 10;
}

-- Received after one minute, and again after three.
abbrev first : Call
first = record {
  bytes = bytes_or_none (request_codec.marshal request);
  clock = record { aged = 60000000000; ahead = 60000000000; checked = 60000000000 };
}

abbrev again : Call
again = record {
  bytes = bytes_or_none (request_codec.marshal request);
  clock = record { aged = 180000000000; ahead = 180000000000; checked = 180000000001 };
}

validate_conn_request-replayed_example :
    (e : HandshakeError) × ((validate_conn_request request_codec again.bytes again.clock
        (after_calls request_codec [] (first ∷ []))).1
      ≡ Result.err e)
unfolding validate_conn_request after_calls lookup
validate_conn_request-replayed_example =
    validate_conn_request-replayed request_codec first again [] [] request request 1 refl refl refl
      (omega arith) (omega arith) (omega arith) (omega arith) tt
