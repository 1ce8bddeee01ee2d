-- ===== src/Tests/Responders.antt =====
-- A responder that asks its user and completes the handshake.
use ensemble.Common.{true, Option, none, some, [], ◌∷◌, refl, replicate, bytes_eq}
use ensemble.Common.Maps.{lookup}
use ensemble.Crypto.{Bytes}
use ensemble.Identity.Address.{derive_address, matches_public_key}
use ensemble.Identity.Keypair.{Keypair, verify, from_public_key}
use ensemble.Signaling.Handshake.{
  ConnRequest, ConnConfirm, validate_conn_request, create_conn_response, validate_conn_confirm,
}
use ensemble.Signaling.Responder.{Service, Session, conn_confirm, handle_request}
use ensemble.Signaling.Responder.Agreement.{Agreed, handle_request-Agreed}
use ensemble.Services
use ensemble.Services.{acl_allowlist}
use ensemble.Tests.Fixtures.{
  toy_sha, toy_ripemd, toy_base58, toy_ed25519, request_codec, response_codec, confirm_codec,
}

abbrev keys : Keypair
keys = record { pub_key = replicate 32 4; priv_key = replicate 64 4 }

abbrev request : ConnRequest
unfolding derive_address
request = record {
  from_address = derive_address toy_sha toy_ripemd toy_base58 keys.pub_key;
  target_address = 2 ∷ [];
  nonce = replicate 32 7;
  timestamp = 0;
}

abbrev confirm : ConnConfirm
confirm = record {
  pub_key = keys.pub_key;
  signature = toy_ed25519.sign keys.priv_key (replicate 32 8);
}

abbrev service : Service
service = record { keypair = keys; address = 2 ∷ []; contacts = none; has_callback = true }

abbrev bytes_or_none : Option Bytes → Bytes
bytes_or_none none = []
bytes_or_none (some bytes) = bytes

abbrev session : Session
unfolding request
session = record {
  is_request = true;
  payload = bytes_or_none (request_codec.marshal request);
  clock = record { aged = 1; ahead = 2; checked = 3 };
  decided = some (record { accepted = true; reason = [] });
  drawn = some (replicate 32 8);
  write_ok = true;
  reply = conn_confirm (bytes_or_none (confirm_codec.marshal confirm));
}

handle_request-Agreed_example :
    Agreed toy_sha toy_ripemd toy_base58 toy_ed25519 request_codec response_codec confirm_codec
      service session request confirm
unfolding handle_request validate_conn_request create_conn_response validate_conn_confirm
    derive_address matches_public_key bytes_eq from_public_key verify lookup request session
handle_request-Agreed_example =
    handle_request-Agreed toy_sha toy_ripemd toy_base58 toy_ed25519 request_codec response_codec
      confirm_codec service session [] request confirm refl

abbrev hosted : Services.Service
unfolding request
hosted = record {
  name = 9 ∷ [];
  address = 2 ∷ [];
  onion_addr = 3 ∷ [];
  identity = keys;
  manifest = record {
    description = [];
    acl = acl_allowlist;
    allowlist = [] ∷ request.from_address ∷ [];
  };
  handlers = none;
}
